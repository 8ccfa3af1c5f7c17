-- ===== src/InputBuffer.antt =====
-- src/input_event_buffer.cpp and input_event_buffer.hpp: the events that a plugin receives for a block, drained from
-- several queues into an array.
pub mod Drain
mod Tests
use nomos_rt.Common.{
  ℕ, zero, suc, ◌+◌, ◌-◌, ◌^◌, ◌%◌, true, false, ltb, leb, if◌then◌else◌, Option, none, some, List,
  [], ◌∷◌, set, get_elem?,
}
use nomos_rt.SpscQueue
use nomos_rt.SpscQueue.{SpscQueue}
use nomos_rt.Events.{ClapEvent}

abbrev pub max_events : ℕ
max_events = 64

abbrev pub in_queue_slots : ℕ
in_queue_slots = 256

pub record InputEventBuffer (V : Type 0) : Type 0 where
  pub events : List (ClapEvent V)
  pub count : ℕ

module _ {V : Type 0} (blank : ClapEvent V) where
  abbrev pub clear : InputEventBuffer V → InputEventBuffer V
  clear b = record b { count = 0 }

  -- One turn of the loop; `again` is the rest of it.
  unfoldable pub drain_turn :
      (InputEventBuffer V
        → SpscQueue (ClapEvent V)
        → Option (InputEventBuffer V × SpscQueue (ClapEvent V)))
      → Option (ClapEvent V) × SpscQueue (ClapEvent V)
      → InputEventBuffer V
      → Option (InputEventBuffer V × SpscQueue (ClapEvent V))
  drain_turn again (none, q) b = some (b, q)
  drain_turn again (some ev, q) b =
      again (record { events = set b.events b.count ev; count = b.count + 1 }) q

  unfoldable pub drain :
      ℕ
      → InputEventBuffer V
      → SpscQueue (ClapEvent V)
      → Option (InputEventBuffer V × SpscQueue (ClapEvent V))
  drain zero b q = none
  drain (suc fuel) b q = elim (ltb b.count max_events) [
    | true ↦ drain_turn (drain fuel) (SpscQueue.pop blank in_queue_slots q) b
    | false ↦ some (b, q)
  ]

  -- `size_impl` and `get_impl`, by which the plugin reads the events.
  unfoldable pub size : InputEventBuffer V → ℕ
  size b = b.count % 2 ^ 32

  unfoldable pub get : InputEventBuffer V → ℕ → Option (ClapEvent V)
  get b index = if leb b.count index then none else get_elem? b.events index
