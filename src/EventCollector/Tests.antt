-- ===== src/EventCollector/Tests.antt =====
-- Runs of the event collector; a velocity is a number below 128 already.
use nomos_rt.Common.{
  All, ℕ, ◌-◌, ltb, leb, if◌then◌else◌, some, List, [], ◌++◌, length, take, replicate,
  length-replicate, ◌≡◌, refl, arith,
}
use nomos_rt.SpscQueue.{SpscQueue, fresh}
use nomos_rt.SpscQueue.Capacity.{IsCapacity}
use nomos_rt.SpscQueue.Refine.{IsValid, contents, fresh-IsValid}
use nomos_rt.Events.{Note, note_on}
use nomos_rt.EventCollector.{
  MidiOutEvent, no_event, MidiEventBlock, max_events, midi_queue_capacity, EventCollector,
  is_negative16, clamp_velocity, note_message, translate, try_push, flush_to,
}
use nomos_rt.EventCollector.Flush.{IsCollector, collected, join, IsBlock, flush_to_lem}
use nomos_rt.EventCollector.Messages.{optional, IsNoteMessage, translate-note, try_push_lem}

abbrev nine : EventCollector
nine = record { events = replicate max_events no_event; count = 9 }

nine-IsCollector : IsCollector nine
nine-IsCollector = record { storage = length-replicate max_events no_event; counted = omega arith }

midi-IsCapacity : IsCapacity midi_queue_capacity
midi-IsCapacity = record { one_bit = refl; two_slots = omega arith; fits = omega arith }

abbrev queue : SpscQueue MidiEventBlock
queue = fresh [] midi_queue_capacity

flush_to_lem_example :
    (bs : List MidiEventBlock) × (q' : SpscQueue MidiEventBlock) × (flush_to nine queue
      ≡ some (length bs, q'))
    × (join bs ≡ collected nine)
    × All IsBlock bs
    × IsValid midi_queue_capacity q'
    × (contents [] midi_queue_capacity q'
        ≡ take (midi_queue_capacity - 1) (contents [] midi_queue_capacity queue ++ bs))
flush_to_lem_example =
    flush_to_lem nine queue midi-IsCapacity nine-IsCollector (fresh-IsValid [] midi-IsCapacity).0

abbrev middle_c : Note ℕ
middle_c = record {
  time = 70000;
  note_id = 0;
  port_index = 0;
  channel = 3;
  key = 60;
  velocity = 200;
}

abbrev message : ℕ → MidiOutEvent
message status = record {
  sample_offset = 65535;
  port = 0;
  size = 3;
  data0 = status;
  data1 = 60;
  data2 = 127;
}

translate-note_example : IsNoteMessage 0x90 3 (message 0x93) × IsNoteMessage 0x80 3 (message 0x83)
unfolding translate note_message clamp_velocity is_negative16
translate-note_example = translate-note (λ v. v) middle_c (message 0x93) (message 0x83) refl refl

try_push_lem_example :
    let (done, c') = try_push (λ v. v) (note_on middle_c) nine in
    IsCollector c'
    × (done ≡ ltb 9 max_events)
    × (collected c' ≡ (
        if leb max_events 9
        then collected nine
        else collected nine ++ optional (translate (λ v. v) (note_on middle_c))))
try_push_lem_example = try_push_lem (λ v. v) (note_on middle_c) nine nine-IsCollector
