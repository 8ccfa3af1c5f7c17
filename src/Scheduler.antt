-- ===== src/Scheduler.antt =====
-- include/nomos/rt/event_scheduler.hpp: events wait for their beat. A call of `tick` is modelled as a
-- whole; `lt` and `le` are `<` and `<=` of doubles, `zero_beat` is 0.0.
pub mod Order
pub mod Tick
pub mod Repeat
mod Tests
use nomos_rt.Common.{
  ℕ, zero, suc, ◌+◌, ◌*◌, Bool, true, false, if◌then◌else◌, Option, none, some, List, [], ◌∷◌, ◌++◌,
  replicate,
}
use nomos_rt.SmallVector.{SmallVector, empty_vector}
use nomos_rt.SpscQueue
use nomos_rt.SpscQueue.{SpscQueue}
use nomos_rt.Events.{ClapEvent, note_on}

-- `osc_event`: the address and the port of the destination, and the datagram.
pub record OscEvent : Type 0 where
  pub address : ℕ
  pub port : ℕ
  pub bytes : SmallVector ℕ

pub data SchedKind : Type 0 where
  clap osc : SchedKind

pub record ScheduledEvent (V : Type 0) : Type 0 where
  pub beat : V
  pub kind : SchedKind
  pub event : ClapEvent V
  pub osc : OscEvent

abbrev pub osc_event_max_bytes : ℕ
osc_event_max_bytes = 256

abbrev pub osc_out_queue_capacity : ℕ
osc_out_queue_capacity = 256

abbrev pub sched_queue_capacity : ℕ
sched_queue_capacity = 1024

-- The values that the slots of the queues start with.
abbrev pub blank_osc : OscEvent
blank_osc = record { address = 0; port = 0; bytes = empty_vector 0 osc_event_max_bytes }

abbrev pub blank_event : {V : Type 0} → V → ScheduledEvent V
blank_event zero_beat = record {
  beat = zero_beat;
  kind = clap;
  event = note_on (record {
    time = 0;
    note_id = 0;
    port_index = 0;
    channel = 0;
    key = 0;
    velocity = zero_beat;
  });
  osc = blank_osc;
}

pub record EventScheduler (V : Type 0) : Type 0 where
  pub staging : SpscQueue (ScheduledEvent V)
  pub pending : List (ScheduledEvent V)
  pub osc_out : Option (SpscQueue OscEvent)

-- `if (osc_out_) osc_out_->push(it->osc)`
abbrev pub osc_push : OscEvent → Option (SpscQueue OscEvent) → Option (SpscQueue OscEvent)
osc_push o none = none
osc_push o (some q) = some (SpscQueue.push blank_osc osc_out_queue_capacity o q).1

-- What becomes of one event that is due: the events given to `fn` so far, and `osc_out_`.
unfoldable pub fire :
    {V : Type 0}
    → SchedKind
    → ScheduledEvent V
    → List (ClapEvent V) × Option (SpscQueue OscEvent)
    → List (ClapEvent V) × Option (SpscQueue OscEvent)
fire osc e (given, out) = (given, osc_push e.osc out)
fire clap e (given, out) = (given ++ e.event ∷ [], out)

module _ {V : Type 0} (zero_beat : V) (lt le : V → V → Bool) where
  -- `while (auto ev = staging_.pop()) pending_.push_back(*ev)`, on fuel.
  unfoldable pub drain_turn :
      (SpscQueue (ScheduledEvent V)
        → List (ScheduledEvent V)
        → Option (SpscQueue (ScheduledEvent V) × List (ScheduledEvent V)))
      → Option (ScheduledEvent V) × SpscQueue (ScheduledEvent V)
      → List (ScheduledEvent V)
      → Option (SpscQueue (ScheduledEvent V) × List (ScheduledEvent V))
  drain_turn again (none, q) pending = some (q, pending)
  drain_turn again (some ev, q) pending = again q (pending ++ ev ∷ [])

  unfoldable pub drain :
      ℕ
      → SpscQueue (ScheduledEvent V)
      → List (ScheduledEvent V)
      → Option (SpscQueue (ScheduledEvent V) × List (ScheduledEvent V))
  drain zero q pending = none
  drain (suc fuel) q pending =
      drain_turn (drain fuel) (SpscQueue.pop (blank_event zero_beat) sched_queue_capacity q) pending

  -- `std::stable_sort` by `beat`.
  unfoldable pub insert_by_beat :
      ScheduledEvent V → List (ScheduledEvent V) → List (ScheduledEvent V)
  insert_by_beat e [] = e ∷ []
  insert_by_beat e (f ∷ fs) = if lt f.beat e.beat then f ∷ insert_by_beat e fs else e ∷ (f ∷ fs)

  unfoldable pub stable_sort : List (ScheduledEvent V) → List (ScheduledEvent V)
  stable_sort [] = []
  stable_sort (e ∷ es) = insert_by_beat e (stable_sort es)

  -- The loop over the sorted events, and the ones that stay.
  unfoldable pub fire_due :
      V
      → List (ScheduledEvent V)
      → List (ClapEvent V) × Option (SpscQueue OscEvent)
      → (List (ClapEvent V) × Option (SpscQueue OscEvent)) × List (ScheduledEvent V)
  fire_due now [] effects = (effects, [])
  fire_due now (e ∷ es) effects =
      let rest = fire_due now es (fire e.kind e effects) in
      if le e.beat now then rest else (effects, e ∷ es)

  unfoldable pub tick_pending :
      V
      → Option (SpscQueue OscEvent)
      → Option (SpscQueue (ScheduledEvent V) × List (ScheduledEvent V))
      → Option (List (ClapEvent V) × EventScheduler V)
  tick_pending now out none = none
  tick_pending now out (some (q, [])) =
      some ([], record { staging = q; pending = []; osc_out = out })
  tick_pending now out (some (q, e ∷ es)) =
      let r = fire_due now (stable_sort (e ∷ es)) ([], out) in
      some (r.0.0, record { staging = q; pending = r.1; osc_out = r.0.1 })

  -- The CLAP events that `fn` receives, and the scheduler after the call.
  unfoldable pub tick : V → EventScheduler V → Option (List (ClapEvent V) × EventScheduler V)
  tick now s = tick_pending now s.osc_out (drain sched_queue_capacity s.staging s.pending)
