-- ===== src/Control/Midi.antt =====
-- src/rt_control_thread.cpp: the messages that go out over MIDI, `cc`, `pitch_bend`, `chan_pressure`, `sysex` and `mts`.
pub mod Channel
use nomos_rt.Common.{
  ℕ, ◌/◌, ◌%◌, ◌^◌, ◌==◌, ltb, min, if◌then◌else◌, Option, none, some, List, [], ◌∷◌, ◌++◌, length,
  bit_and, bit_or, codes,
}
use nomos_rt.Edn.{Edn, int, Dictionary, Text, as_int, as_map, as_vector, value_or}
use nomos_rt.Control.Host.{Host}
use nomos_rt.Control.State.{Control, zero_double, payload_map, get_int, double_or}
use nomos_rt.Control.Mts.{Tuning, retune, mts_bulk_dump}

-- `std::max(0, std::min(16383, v))` of an int64.
unfoldable pub clamp_bend : ℕ → ℕ
clamp_bend v = if ltb v (2 ^ 63) then min v 16383 else 0

module _ (h : Host) where
  -- A handler says what it sends, if it sends something.
  abbrev pub sent_bytes : Option (List ℕ) → List (List ℕ) → List (List ℕ)
  sent_bytes none sent = sent
  sent_bytes (some bytes) sent = sent ++ bytes ∷ []

  abbrev pub midi_of :
      (Dictionary h.num.D → Option (List ℕ)) → Option (Dictionary h.num.D) → Option (List ℕ)
  midi_of f none = none
  midi_of f (some m) = f m

  unfoldable pub midi_payload : Option (List ℕ) → Option (List (List ℕ)) → Control h → Control h
  midi_payload bytes none c = c
  midi_payload bytes (some sent) c = record c { midi = some (sent_bytes bytes sent) }

  unfoldable pub midi_message :
      (Dictionary h.num.D → Option (List ℕ)) → List ℕ → Control h → Control h
  unfolding midi_payload
  midi_message f payload c = midi_payload (midi_of f (payload_map h payload)) c.midi c

  -- `get_u8`, and the channel.
  unfoldable pub get_u8 : Dictionary h.num.D → Text → ℕ → ℕ
  get_u8 m kw default = get_int h m kw default % 2 ^ 8

  unfoldable pub channel_of : Dictionary h.num.D → ℕ
  channel_of m = bit_and (get_int h m (codes "channel") 0 % 2 ^ 8) 15

  unfoldable pub control_change : Dictionary h.num.D → Option (List ℕ)
  unfolding get_u8
  control_change m =
      some (bit_or 0xb0 (channel_of m) ∷ get_u8 m (codes "cc") 0 ∷ get_u8 m (codes "value") 0 ∷ [])

  unfoldable pub pitch_bend : Dictionary h.num.D → Option (List ℕ)
  pitch_bend m =
      let raw = clamp_bend (get_int h m (codes "value") 8192) in
      some (
        bit_or 0xe0 (bit_and (get_int h m (codes "channel") 0) 15)
        ∷ bit_and raw 127
        ∷ bit_and (raw / 2 ^ 7) 127
        ∷ [])

  unfoldable pub chan_pressure : Dictionary h.num.D → Option (List ℕ)
  unfolding get_u8
  chan_pressure m = some (bit_or 0xd0 (channel_of m) ∷ get_u8 m (codes "value") 0 ∷ [])

  unfoldable pub bytes_of : List (Edn h.num.D) → List ℕ
  bytes_of [] = []
  bytes_of (int n ∷ es) = n % 2 ^ 8 ∷ bytes_of es
  bytes_of (e ∷ es) = bytes_of es

  -- `if (!bytes.empty())`
  unfoldable pub unless_empty : List ℕ → Option (List ℕ)
  unless_empty [] = none
  unless_empty (b ∷ bs) = some (b ∷ bs)

  unfoldable pub sysex : Dictionary h.num.D → Option (List ℕ)
  unfolding bytes_of unless_empty
  sysex m = elim (as_vector (h.find_kw m (codes "data"))) [
    | none ↦ none
    | some es ↦ unless_empty (bytes_of es)
  ]

  -- The loop over the entries of the tuning; `tuning` is what stands in the table.
  unfoldable pub tuning_of : Dictionary h.num.D → Tuning h.num → Tuning h.num
  unfolding double_or
  tuning_of [] tuning = tuning
  tuning_of ((int k, v) ∷ es) tuning =
      tuning_of es (retune h.num (k % 2 ^ 32) (double_or h (some v) (zero_double h)) tuning)
  tuning_of ((k, v) ∷ es) tuning = tuning_of es tuning

  unfoldable pub seven_bits : Option ℕ → ℕ → ℕ
  seven_bits none default = default
  seven_bits (some n) default = bit_and n 127

  unfoldable pub tuning_dump : Dictionary h.num.D → Option (List ℕ)
  unfolding tuning_of seven_bits
  tuning_dump m = elim (as_map (h.find_kw m (codes "tuning"))) [
    | none ↦ none
    | some es ↦ some (
        mts_bulk_dump h.num (tuning_of es [])
          (seven_bits (as_int (h.find_kw m (codes "tuning-prog"))) 0)
          (seven_bits (as_int (h.find_kw m (codes "device-id"))) 127))
  ]
