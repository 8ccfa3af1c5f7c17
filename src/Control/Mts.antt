-- ===== src/Control/Mts.antt =====
-- src/rt_control_thread.cpp: `mts_encode_note` and `mts_bulk_dump`, the tuning dump of MIDI.
pub mod Layout
use nomos_rt.Common.{
  ℕ, zero, suc, ◌+◌, ◌-◌, ◌/◌, ◌%◌, ◌^◌, Bool, true, false, ◌==◌, if◌then◌else◌, Option, none, some,
  List, [], ◌∷◌, ◌++◌, bit_and, bit_xor, replicate,
}
use nomos_rt.Edn.{value_or}
use nomos_rt.Numbers.{ℤ, pos, difference, clamp_between, pred_or_zero, Doubles}

module _ (num : Doubles) where
  open num use {D, lit, of_int, add, sub, mul, div, lt, pow, log2, rounded}

  -- `std::unordered_map<int, double>`; the keys are patterns of 32 bits.
  abbrev pub Tuning : Type 0
  Tuning = List (ℕ × D)

  unfoldable pub tuned : ℕ → Tuning → Option D
  tuned key [] = none
  tuned key ((k, hz) ∷ rest) = if k == key then some hz else tuned key rest

  unfoldable pub retune : ℕ → D → Tuning → Tuning
  retune key hz [] = (key, hz) ∷ []
  retune key hz ((k, old) ∷ rest) =
      if k == key then (k, hz) ∷ rest else (k, old) ∷ retune key hz rest

  unfoldable pub tet_hz : ℕ → D
  tet_hz key = mul (lit 440 1) (pow (lit 2 1) (div (of_int (difference key 69)) (lit 12 1)))

  unfoldable pub semitones : D → D
  semitones use_hz = add (mul (lit 12 1) (log2 (div use_hz (lit 440 1)))) (lit 69 1)

  -- `xx` and `bend_cents` after `if (bend_cents < 0.0)`.
  unfoldable pub normalised : ℤ → D → ℤ × D
  normalised xx bend_cents =
      if lt bend_cents (lit 0 1)
      then (pred_or_zero xx, add bend_cents (lit 100 1))
      else (xx, bend_cents)

  -- The three bytes from `xx` and `bend_cents`.
  unfoldable pub note_entry : ℤ × D → List ℕ
  note_entry (xx, bend_cents) =
      let fine = clamp_between 16383 (rounded (mul (div bend_cents (lit 100 1)) (lit 16384 1))) in
      clamp_between 127 xx ∷ bit_and (fine / 2 ^ 7) 0x7f ∷ bit_and fine 0x7f ∷ []

  unfoldable pub mts_encode_note : ℕ → D → List ℕ
  mts_encode_note key hz =
      let s = semitones (if lt (lit 0 1) hz then hz else tet_hz key) in
      note_entry (normalised (rounded s) (mul (sub s (of_int (rounded s))) (lit 100 1)))

  -- The loop over the keys from `key` on, `left` of them.
  unfoldable pub note_entries : ℕ → ℕ → Tuning → List ℕ
  note_entries zero key tuning = []
  note_entries (suc left) key tuning =
      mts_encode_note key (value_or (tuned key tuning) (lit 0 1))
      ++ note_entries left (key + 1) tuning

  unfoldable pub checksum : List ℕ → ℕ → ℕ
  checksum [] csum = csum
  checksum (b ∷ bs) csum = checksum bs (bit_xor csum b)

  -- All but the first byte, up to the checksum.
  unfoldable pub dump_body : Tuning → ℕ → ℕ → List ℕ
  dump_body tuning prog device_id =
      0x7e ∷ device_id ∷ 0x08 ∷ 0x01 ∷ prog ∷ (replicate 16 0 ++ note_entries 128 0 tuning)

  unfoldable pub mts_bulk_dump : Tuning → ℕ → ℕ → List ℕ
  mts_bulk_dump tuning prog device_id =
      let body = dump_body tuning prog device_id in
      0xf0 ∷ (body ++ bit_and (checksum body 0) 0x7f ∷ 0xf7 ∷ [])
