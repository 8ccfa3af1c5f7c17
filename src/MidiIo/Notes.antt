-- ===== src/MidiIo/Notes.antt =====
-- What arrives in the queue of the notes that are sent.
use nomos_rt.Common.{
  ℕ, ◌+◌, ◌-◌, ◌%◌, ◌^◌, ◌<◌, bit_and, bit_or, Bool, true, ◌==◌, ◌&&◌, if◌then◌else◌, none, some,
  List, [], ◌∷◌, ◌++◌, map, take, ◌≡◌, refl, ap, ap₂, ◌∙◌, Bool-cases, inl, inr, passes,
  test_of_passes, arith,
}
use nomos_rt.Common.Bits.{bit_and_mask}
use nomos_rt.SpscQueue
use nomos_rt.SpscQueue.{SpscQueue}
use nomos_rt.SpscQueue.Capacity.{IsCapacity}
use nomos_rt.SpscQueue.Refine.{IsValid, contents}
use nomos_rt.SpscQueue.Bursts.{push_all, push_all-contents}
use nomos_rt.Events.{ClapEvent, note_on, note_off}
use nomos_rt.InputBuffer.{in_queue_slots}
use nomos_rt.MidiIo.{
  RtMidi, channel_bits, note_on_bytes, note_off_bytes, event_of, MidiIo, received, enqueue,
  midi_callback,
}

pub inputs-IsCapacity : IsCapacity in_queue_slots
inputs-IsCapacity = record { one_bit = refl; two_slots = omega arith; fits = omega arith }

pub channel_bits-mod : (c : ℕ) → channel_bits c ≡ (c + 15) % 16
unfolding channel_bits
channel_bits-mod c = bit_and_mask 4 ((c + (2 ^ 32 - 1)) % 2 ^ 32) ∙ low c
  where
    low : (c : ℕ) → (c + (2 ^ 32 - 1)) % 2 ^ 32 % 2 ^ 4 ≡ (c + 15) % 16
    low c = omega arith

-- The two halves of a status byte.
status_halves : ℕ → Bool
status_halves n =
    (bit_and (bit_or 0x90 n) 0xf0 == 0x90 && bit_and (bit_or 0x90 n) 0x0f == n)
    && (bit_and (bit_or 0x80 n) 0xf0 == 0x80 && bit_and (bit_or 0x80 n) 0x0f == n)

status_table : passes status_halves 16 ≡ true
unfolding passes status_halves
status_table = refl

status-halves :
    (n : ℕ)
    → n < 16
    → (bit_and (bit_or 0x90 n) 0xf0 ≡ 0x90)
      × (bit_and (bit_or 0x90 n) 0x0f ≡ n)
      × (bit_and (bit_or 0x80 n) 0xf0 ≡ 0x80)
      × (bit_and (bit_or 0x80 n) 0x0f ≡ n)
unfolding status_halves
status-halves n h = ground (arith, test_of_passes status_halves 16 status_table n h)

channel-halves :
    (c : ℕ)
    → (bit_and (bit_or 0x90 (channel_bits c)) 0xf0 ≡ 0x90)
      × (bit_and (bit_or 0x90 (channel_bits c)) 0x0f ≡ (c + 15) % 16)
      × (bit_and (bit_or 0x80 (channel_bits c)) 0xf0 ≡ 0x80)
      × (bit_and (bit_or 0x80 (channel_bits c)) 0x0f ≡ (c + 15) % 16)
channel-halves c =
    let e = channel_bits-mod c in
    let h = status-halves (channel_bits c) (omega (arith, e)) in (h.0, h.1 ∙ e, h.2, h.3 ∙ e)

-- A call of `note_on`, with channel, note and velocity, or of `note_off`.
pub data NoteCall : Type 0 where
  on : ℕ → ℕ → ℕ → NoteCall
  off : ℕ → ℕ → NoteCall

abbrev pub bytes_of : NoteCall → List ℕ
bytes_of (on c n v) = note_on_bytes c n v
bytes_of (off c n) = note_off_bytes c n

module _ {V : Type 0} (zero_double : V) (ratio : ℕ → V) where
  -- The event of a call: channels count from 1, and a velocity of 0 ends the note.
  abbrev pub ended : ℕ → ℕ → ClapEvent V
  ended c n = note_off (record {
    time = 0;
    note_id = 2 ^ 32 - 1;
    port_index = 0;
    channel = (c + 15) % 16;
    key = n;
    velocity = zero_double;
  })

  abbrev pub sounded : ℕ → ℕ → ℕ → ClapEvent V
  sounded c n v = note_on (record {
    time = 0;
    note_id = 2 ^ 32 - 1;
    port_index = 0;
    channel = (c + 15) % 16;
    key = n;
    velocity = ratio v;
  })

  abbrev pub heard : NoteCall → ClapEvent V
  heard (on c n v) = if v == 0 then ended c n else sounded c n v
  heard (off c n) = ended c n

  event_of-on :
      (c n v : ℕ)
      → event_of zero_double ratio
          (bit_or 0x90 (channel_bits c))
          (bit_or 0x90 (channel_bits c) ∷ n ∷ v ∷ [])
        ≡ heard (on c n v)
  unfolding event_of
  event_of-on c n v =
      let h = channel-halves c in
      elim (Bool-cases (v == 0)) [ inl z ↦ rw (h.0, h.1, z) refl | inr z ↦ rw (h.0, h.1, z) refl ]

  event_of-off :
      (c n : ℕ)
      → event_of zero_double ratio
          (bit_or 0x80 (channel_bits c))
          (bit_or 0x80 (channel_bits c) ∷ n ∷ 0x00 ∷ [])
        ≡ heard (off c n)
  unfolding event_of
  event_of-off c n = let h = channel-halves c in rw (h.2, h.3) refl

  module _ (rt : RtMidi) (blank : ClapEvent V) where
    unfoldable pub callbacks :
        List (List ℕ) → MidiIo zero_double ratio rt blank → MidiIo zero_double ratio rt blank
    callbacks [] s = s
    callbacks (msg ∷ msgs) s = callbacks msgs (midi_callback zero_double ratio rt blank msg s)

    received-push :
        (status : ℕ) (msg : List ℕ) (e : ClapEvent V) (s : MidiIo zero_double ratio rt blank)
        (q : SpscQueue (ClapEvent V))
        → event_of zero_double ratio status msg ≡ e
        → s.in_queue ≡ some q
        → s.echo ≡ none
        → let t = received zero_double ratio rt blank status msg s.echo s in
          (t.in_queue ≡ some (SpscQueue.push blank in_queue_slots e q).1) × (t.echo ≡ none)
    received-push status msg e s q event there quiet = (
      ap (λ o. (received zero_double ratio rt blank status msg o s).in_queue) quiet
          ∙ ap₂ (enqueue zero_double ratio rt blank) event there,
      ap (λ o. (received zero_double ratio rt blank status msg o s).echo) quiet ∙ quiet,
    )

    callback-push :
        (call : NoteCall) (s : MidiIo zero_double ratio rt blank) (q : SpscQueue (ClapEvent V))
        → s.in_queue ≡ some q
        → s.echo ≡ none
        → let t = midi_callback zero_double ratio rt blank (bytes_of call) s in
          (t.in_queue ≡ some (SpscQueue.push blank in_queue_slots (heard call) q).1)
          × (t.echo ≡ none)
    unfolding midi_callback note_on_bytes note_off_bytes
    callback-push (on c n v) s q there quiet =
        received-push _ _ _ s q (event_of-on c n v) there quiet
    callback-push (off c n) s q there quiet = received-push _ _ _ s q (event_of-off c n) there quiet

    callbacks-push_all :
        (calls : List NoteCall) (s : MidiIo zero_double ratio rt blank)
        (q : SpscQueue (ClapEvent V))
        → s.in_queue ≡ some q
        → s.echo ≡ none
        → (callbacks (map bytes_of calls) s).in_queue
          ≡ some (push_all blank in_queue_slots (map heard calls) q)
    unfolding callbacks
    callbacks-push_all [] s q there quiet = there
    callbacks-push_all (call ∷ calls) s q there quiet =
        let one = callback-push call s q there quiet in
        callbacks-push_all calls (midi_callback zero_double ratio rt blank (bytes_of call) s)
          (SpscQueue.push blank in_queue_slots (heard call) q).1 one.0 one.1

    -- The bytes that note_on and note_off send, received in order without an echo callback, leave a valid queue with what it
    -- held and then their events, up to the 255 that it has room for: the channel counted from 0, the note, and the velocity
    -- as a fraction, a note-on of velocity 0 being a note-off.
    pub received_notes :
        (calls : List NoteCall) (s : MidiIo zero_double ratio rt blank)
        (q : SpscQueue (ClapEvent V))
        → s.in_queue ≡ some q
        → s.echo ≡ none
        → IsValid in_queue_slots q
        → (q' : SpscQueue (ClapEvent V)) × ((callbacks (map bytes_of calls) s).in_queue ≡ some q')
          × IsValid in_queue_slots q'
          × (contents blank in_queue_slots q'
              ≡ take 255 (contents blank in_queue_slots q ++ map heard calls))
    received_notes calls s q there quiet valid =
        let r =
          push_all-contents blank in_queue_slots inputs-IsCapacity (map heard calls) q valid in
        (
          push_all blank in_queue_slots (map heard calls) q,
          callbacks-push_all calls s q there quiet,
          r.0,
          r.1,
        )
