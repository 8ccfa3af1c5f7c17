-- ===== src/MidiIo/Thru.antt =====
-- A note that arrives and goes through the event collector leaves as it came.
use nomos_rt.Common.{
  ℕ, ◌+◌, ◌-◌, ◌%◌, ◌^◌, ◌<◌, bit_and, bit_or, false, ◌==◌, Bool-cases, inl, inr, if◌then◌else◌,
  Option, none, some, List, [], ◌∷◌, ◌≡◌, refl, sym, ◌∙◌, arith,
}
use nomos_rt.Common.Bits.{bit_and_mask}
use native.Mathlib.Nat.{mod-eq_of_lt}
use nomos_rt.EventCollector.{MidiOutEvent, note_message, translate, clamp_velocity, is_negative16}
use nomos_rt.MidiIo.{channel_bits, note_on_bytes, note_off_bytes}
use nomos_rt.MidiIo.Notes.{on, off, heard, channel_bits-mod}

-- The bytes of a collected message of three bytes at the start of a block.
abbrev pub three_bytes : List ℕ → Option MidiOutEvent
three_bytes (a ∷ b ∷ c ∷ []) =
    some (record { sample_offset = 0; port = 0; size = 3; data0 = a; data1 = b; data2 = c })
three_bytes bytes = none

small_key : (n : ℕ) → n < 128 → (is_negative16 n ≡ false) × (bit_and n 0x7f ≡ n)
unfolding is_negative16
small_key n h = (ground arith, bit_and_mask 7 n ∙ mod-eq_of_lt h)

small_channel :
    (c : ℕ)
    → (is_negative16 ((c + 15) % 16) ≡ false) × (bit_and ((c + 15) % 16) 0x0f ≡ channel_bits c)
unfolding is_negative16
small_channel c =
    (ground arith, bit_and_mask 4 ((c + 15) % 16) ∙ twice c ∙ sym (channel_bits-mod c))
  where
    twice : (c : ℕ) → (c + 15) % 16 % 2 ^ 4 ≡ (c + 15) % 16
    twice c = omega arith

small_velocity : (v : ℕ) → v < 128 → clamp_velocity v ≡ v
unfolding clamp_velocity
small_velocity v h = ground arith

module _ {V : Type 0} (zero_double : V) (ratio : ℕ → V) (scaled : V → ℕ) where
  note_message_lem :
      (status c n v : ℕ) (velocity : V)
      → n < 128
      → v < 128
      → scaled velocity ≡ v
      → note_message scaled status (record {
        time = 0;
        note_id = 2 ^ 32 - 1;
        port_index = 0;
        channel = (c + 15) % 16;
        key = n;
        velocity = velocity;
      })
        ≡ three_bytes (bit_or status (channel_bits c) ∷ n ∷ v ∷ [])
  unfolding note_message
  note_message_lem status c n v velocity small_n small_v e =
      let channel = small_channel c in
      let key = small_key n small_n in
      rw (channel.0, key.0, channel.1, key.1, e, small_velocity v small_v) refl

  -- A note that arrives is collected as the message that came: if 127 times a fraction of 127 is cut to the number itself,
  -- the collector makes of the event of a note-on the same three bytes, and a note-off with velocity 0 of the event of a
  -- note-off and of a note-on with velocity 0.
  pub collected_notes :
      ((v : ℕ) → v < 128 → scaled (ratio v) ≡ v)
      → scaled zero_double ≡ 0
      → (c n v : ℕ) → n < 128
      → v < 128
      → (translate scaled (heard zero_double ratio (on c n v))
          ≡ three_bytes (if v == 0 then note_off_bytes c n else note_on_bytes c n v))
        × (translate scaled (heard zero_double ratio (off c n)) ≡ three_bytes (note_off_bytes c n))
  unfolding translate note_on_bytes note_off_bytes
  collected_notes exact zero_is c n v small_n small_v =
      let gone = note_message_lem 0x80 c n 0 zero_double small_n (omega arith) zero_is in
      let there = note_message_lem 0x90 c n v (ratio v) small_n small_v (exact v small_v) in
      (elim (Bool-cases (v == 0)) [ inl z ↦ rw z gone | inr z ↦ rw z there ], gone)
