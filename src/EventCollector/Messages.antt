-- ===== src/EventCollector/Messages.antt =====
-- What `try_push` keeps of an event.
use nomos_rt.Common.{
  ℕ, ◌+◌, ◌*◌, ◌/◌, ◌%◌, ◌^◌, ◌≤◌, ◌<◌, ltb, leb, Bool-cases, inl, inr, if◌then◌else◌, Option, none,
  some, List, [], ◌∷◌, ◌++◌, append-nil, length-set, take-set, bit_or, ◌≡◌, refl, ap, sym, arith,
}
use nomos_rt.Common.Bits.{bit_or_step, bit_or-zero, bit_and_mask}
use nomos_rt.Events.{Note, ClapEvent, note_on, note_off, midi, other}
use nomos_rt.EventCollector.{
  MidiOutEvent, max_events, EventCollector, midi_message_size, clamp_velocity, note_message,
  midi_message, translate, keep, try_push,
}
use nomos_rt.EventCollector.Flush.{IsCollector, collected}

abbrev pub optional : Option MidiOutEvent → List MidiOutEvent
optional none = []
optional (some e) = e ∷ []

midi_message_size-bounds :
    (status : ℕ) → (1 ≤ midi_message_size status) × (midi_message_size status ≤ 3)
unfolding midi_message_size
midi_message_size-bounds status = ground arith

-- A bit at the bottom of an even number, and what stays after the low bits are gone.
or_low : (a x : ℕ) → bit_or (a * 2) x ≡ bit_or a (x / 2) * 2 + x % 2
or_low a x = omega (arith, bit_or_step (a * 2) x, ap (λ k. bit_or k (x / 2)) (half a))
  where
    half : (a : ℕ) → a * 2 / 2 ≡ a
    half a = omega arith

-- A status nibble with a channel below sixteen.
status_lem : (a x : ℕ) → x < 16 → bit_or (a * 2 * 2 * 2 * 2) x ≡ a * 16 + x
status_lem a x h = omega (
  arith,
  or_low (a * 2 * 2 * 2) x,
  or_low (a * 2 * 2) (x / 2),
  or_low (a * 2) (x / 2 / 2),
  or_low a (x / 2 / 2 / 2),
  ap (bit_or a) (gone x h),
  bit_or-zero a,
)
  where
    gone : (x : ℕ) → x < 16 → x / 2 / 2 / 2 / 2 ≡ 0
    gone x h = omega arith

-- A message of a channel voice: a status byte, and data bytes below 128 in a message of three bytes.
abbrev pub IsNoteMessage : ℕ → ℕ → MidiOutEvent → Type 0
IsNoteMessage status channel e =
    (e.size ≡ 3)
    × (e.data0 ≡ status + channel % 16)
    × (e.data1 < 128)
    × (e.data2 < 128)
    × (e.sample_offset < 2 ^ 16)

module _ {V : Type 0} (scaled : V → ℕ) where
  -- The message of a note: three bytes, the status with the channel's low four bits.
  note_message-IsNoteMessage :
      (a : ℕ) (n : Note V) (e : MidiOutEvent)
      → note_message scaled (a * 2 * 2 * 2 * 2) n ≡ some e
      → IsNoteMessage (a * 16) n.channel e
  unfolding note_message clamp_velocity
  note_message-IsNoteMessage a n e h = ground (
    arith,
    h,
    bit_and_mask 4 n.channel,
    bit_and_mask 7 n.key,
    status_lem a (n.channel % 16) (omega arith),
  )

  -- The messages that a note gives as a note-on and as a note-off event have three bytes: the status with the low four
  -- bits of the channel, and two below 128; the sample offset fits 16 bits.
  pub translate-note :
      (n : Note V) (e f : MidiOutEvent)
      → translate scaled (note_on n) ≡ some e
      → translate scaled (note_off n) ≡ some f
      → IsNoteMessage 0x90 n.channel e × IsNoteMessage 0x80 n.channel f
  unfolding translate
  translate-note n e f h k =
      (note_message-IsNoteMessage 9 n e h, note_message-IsNoteMessage 8 n f k)

  -- Every message has a size, so that `keep` keeps it.
  translate-sized :
      (ev : ClapEvent V) (e : MidiOutEvent) → translate scaled ev ≡ some e → 1 ≤ e.size
  unfolding translate note_message midi_message
  translate-sized (note_on n) e h = ground (arith, h)
  translate-sized (note_off n) e h = ground (arith, h)
  translate-sized (midi m) e h = ground (arith, h, midi_message_size-bounds m.data0)
  translate-sized (other type) e h = absurd (ground (arith, h))

  keep_lem :
      (o : Option MidiOutEvent) (c : EventCollector)
      → IsCollector c
      → c.count < max_events
      → ((e : MidiOutEvent) → o ≡ some e → 1 ≤ e.size)
      → IsCollector (keep scaled o c) × (collected (keep scaled o c) ≡ collected c ++ optional o)
  unfolding keep
  keep_lem none c v room sized = (v, sym (append-nil (collected c)))
  keep_lem (some e) c v room sized =
      let set_is = take-set c.events c.count e (omega (arith, v.storage)) in
      ground (arith, sized e refl, v, length-set c.events c.count e, set_is)

  -- `try_push` keeps a valid collector valid. It refuses when the collector is full and changes nothing; otherwise it adds
  -- the event's message, if there is one, behind those collected.
  pub try_push_lem :
      (ev : ClapEvent V) (c : EventCollector)
      → IsCollector c
      → let (done, c') = try_push scaled ev c in
        IsCollector c'
        × (done ≡ ltb c.count max_events)
        × (collected c' ≡ (
            if leb max_events c.count
            then collected c
            else collected c ++ optional (translate scaled ev)))
  unfolding try_push
  try_push_lem ev c v = elim (Bool-cases (leb max_events c.count)) [
    | inl full ↦ rw full (v, ground (arith, full), refl)
    | inr room ↦
        let r = keep_lem (translate scaled ev) c v (ground (arith, room)) (translate-sized ev) in
        rw room (r.0, ground (arith, room), r.1)
  ]
