-- ===== src/Control/Midi/Channel.antt =====
-- The messages of a MIDI channel, with the bit operations of the code as arithmetic.
use nomos_rt.Common.{
  Bool, ℕ, ◌+◌, ◌/◌, ◌%◌, ◌^◌, ◌≤◌, ◌<◌, ◌==◌, ◌≡◌, refl, ◌∙◌, true, some, [], ◌∷◌, ◌&&◌, bit_and,
  bit_or, codes, arith, passes, test_of_passes,
}
use nomos_rt.Common.Bits.{bit_and_mask}
use nomos_rt.Edn.{Dictionary}
use nomos_rt.Control.Host.{Host}
use nomos_rt.Control.State.{get_int}
use nomos_rt.Control.Midi.{
  clamp_bend, get_u8, channel_of, control_change, pitch_bend, chan_pressure,
}

-- The test of one channel.
status_bits : ℕ → Bool
status_bits n = bit_or 0xb0 n == 0xb0 + n && bit_or 0xd0 n == 0xd0 + n && bit_or 0xe0 n == 0xe0 + n

status_table : passes status_bits 16 ≡ true
unfolding passes status_bits
status_table = refl

status-add :
    (n : ℕ)
    → n < 16
    → (bit_or 0xb0 n ≡ 0xb0 + n) × (bit_or 0xd0 n ≡ 0xd0 + n) × (bit_or 0xe0 n ≡ 0xe0 + n)
unfolding status_bits
status-add n h = ground (arith, test_of_passes status_bits 16 status_table n h)

clamp_bend-le : (v : ℕ) → clamp_bend v ≤ 16383
unfolding clamp_bend
clamp_bend-le v = ground arith

seven_low : (v : ℕ) → bit_and v 127 ≡ v % 128
seven_low v = bit_and_mask 7 v

high_half : (v : ℕ) → v ≤ 16383 → bit_and (v / 2 ^ 7) 127 ≡ v / 128
high_half v h = seven_low (v / 2 ^ 7) ∙ low_of_small v h
  where
    low_of_small : (v : ℕ) → v ≤ 16383 → v / 2 ^ 7 % 128 ≡ v / 128
    low_of_small v h = omega arith

module _ (h : Host) (m : Dictionary h.num.D) where
  channel_of-mod : channel_of h m ≡ get_int h m (codes "channel") 0 % 16
  unfolding channel_of
  channel_of-mod =
      bit_and_mask 4 (get_int h m (codes "channel") 0 % 2 ^ 8)
      ∙ low_nibble (get_int h m (codes "channel") 0)
    where
      low_nibble : (n : ℕ) → n % 2 ^ 8 % 2 ^ 4 ≡ n % 16
      low_nibble n = omega arith

  channel_of-lt : channel_of h m < 16
  channel_of-lt = omega (arith, channel_of-mod)

  -- Control changes, channel pressure and pitch bends go out with the channel modulo 16 in the status byte. The bytes of a
  -- control change and of a pressure are the fields modulo 256. A pitch bend is clamped to 14 bits, and its bytes are the
  -- two halves of 7 bits, the low half first.
  pub channel_messages_lem :
      let channel = get_int h m (codes "channel") 0 % 16 in
      let bend = clamp_bend (get_int h m (codes "value") 8192) in
      (control_change h m
        ≡ some (
            (0xb0 + channel)
            ∷ get_int h m (codes "cc") 0 % 256
            ∷ get_int h m (codes "value") 0 % 256
            ∷ []))
      × (chan_pressure h m ≡ some ((0xd0 + channel) ∷ get_int h m (codes "value") 0 % 256 ∷ []))
      × (pitch_bend h m ≡ some ((0xe0 + channel) ∷ bend % 128 ∷ bend / 128 ∷ []))
      × (bend / 128 < 128)
  unfolding control_change chan_pressure pitch_bend get_u8
  channel_messages_lem =
      let r = status-add (channel_of h m) channel_of-lt in
      let e = (status-add (get_int h m (codes "channel") 0 % 16) (omega arith)).2 in
      let small = clamp_bend-le (get_int h m (codes "value") 8192) in
      (
        rw (r.0, channel_of-mod),
        rw (r.1, channel_of-mod),
        rw
            (
              bit_and_mask 4 (get_int h m (codes "channel") 0),
              e,
              seven_low (clamp_bend (get_int h m (codes "value") 8192)),
            )
            (rw (high_half (clamp_bend (get_int h m (codes "value") 8192)) small)),
        omega (arith, small),
      )
