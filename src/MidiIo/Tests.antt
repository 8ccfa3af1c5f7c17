-- ===== src/MidiIo/Tests.antt =====
-- Velocities as numbers of 127.
use nomos_rt.Common.{
  ℕ, ◌==◌, if◌then◌else◌, true, none, some, List, [], ◌∷◌, ◌++◌, map, take, ◌≡◌, refl, codes, arith,
}
use nomos_rt.SpscQueue.{SpscQueue, fresh}
use nomos_rt.SpscQueue.Refine.{IsValid, contents, fresh-IsValid}
use nomos_rt.Events.{ClapEvent, other}
use nomos_rt.EventCollector.{translate}
use nomos_rt.InputBuffer.{in_queue_slots}
use nomos_rt.MidiIo.{
  RtMidi, note_on_bytes, note_off_bytes, MidiIo, port_named, is_within, is_prefix,
}
use nomos_rt.MidiIo.Notes.{
  inputs-IsCapacity, NoteCall, on, off, bytes_of, heard, callbacks, received_notes,
}
use nomos_rt.MidiIo.Thru.{three_bytes, collected_notes}

abbrev no_ports : RtMidi
no_ports = record {
  Out = List (List ℕ);
  In = ℕ;
  out_ports = λ s. [];
  out_is_open = λ s. true;
  open_out = λ i s. (true, s);
  open_virtual = λ name s. (true, s);
  close_out = λ s. s;
  send_message = λ bytes s. (true, s ++ bytes ∷ []);
  in_ports = λ s. [];
  in_is_open = λ s. true;
  set_callback = λ s. s;
  cancel_callback = λ s. s;
  ignore_types = λ a b c s. s;
  open_in = λ i s. (true, s);
  close_in = λ s. s;
}

abbrev blank : ClapEvent ℕ
blank = other 0

abbrev wired : MidiIo 0 (λ v. v) no_ports blank
wired = record {
  out = [];
  inp = 0;
  in_queue = some (fresh blank in_queue_slots);
  echo = none;
  tap = none;
  virtual_port_open = true;
}

abbrev played_notes : List NoteCall
played_notes = on 1 60 100 ∷ on 1 60 0 ∷ off 16 61 ∷ []

received_notes_example :
    (q : SpscQueue (ClapEvent ℕ)) × ((callbacks 0
        (λ v. v)
        no_ports
        blank
        (map bytes_of played_notes)
        wired).in_queue
      ≡ some q)
    × IsValid in_queue_slots q
    × (contents blank in_queue_slots q
        ≡ take 255 (
            contents blank in_queue_slots (fresh blank in_queue_slots)
            ++ map (heard 0 (λ v. v)) played_notes))
received_notes_example =
    received_notes 0 (λ v. v) no_ports blank played_notes wired (fresh blank in_queue_slots) refl
      refl (fresh-IsValid blank inputs-IsCapacity).0

collected_notes_example :
    (translate (λ v. v) (heard 0 (λ v. v) (on 2 60 99))
      ≡ three_bytes (if 99 == 0 then note_off_bytes 2 60 else note_on_bytes 2 60 99))
    × (translate (λ v. v) (heard 0 (λ v. v) (off 2 60)) ≡ three_bytes (note_off_bytes 2 60))
collected_notes_example =
    collected_notes 0 (λ v. v) (λ v. v) (λ v h. refl) refl 2 60 99 (omega arith) (omega arith)

-- The first port whose name holds the text.
second_port :
    port_named (codes "io") 0 (codes "piano" ∷ codes "radio" ∷ codes "audio" ∷ []) ≡ some 1
unfolding port_named is_within is_prefix
second_port = refl
