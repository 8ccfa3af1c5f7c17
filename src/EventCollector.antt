-- ===== src/EventCollector.antt =====
-- src/event_collector.cpp, event_collector.hpp and midi_out_event.hpp: CLAP output events become MIDI messages, which
-- go to the MIDI thread in blocks of seven. `V` is the type of doubles, and `scaled v` is
-- `static_cast<int>(v * 127.0)`, a word of 32 bits.
pub mod Flush
pub mod Messages
mod Tests
use nomos_rt.Common.{
  ℕ, zero, suc, ◌+◌, ◌-◌, ◌*◌, ◌^◌, ◌%◌, min, Bool, true, false, ◌==◌, ltb, leb, if◌then◌else◌,
  Option, none, some, List, [], ◌∷◌, ◌++◌, bit_and, bit_or, replicate, get_or, set, take,
}
use nomos_rt.SpscQueue
use nomos_rt.SpscQueue.{SpscQueue}
use nomos_rt.Events.{Note, Midi, ClapEvent, note_on, note_off, midi, other}

pub record MidiOutEvent : Type 0 where
  pub sample_offset : ℕ
  pub port : ℕ
  pub size : ℕ
  pub data0 : ℕ
  pub data1 : ℕ
  pub data2 : ℕ

abbrev pub no_event : MidiOutEvent
no_event = record { sample_offset = 0; port = 0; size = 0; data0 = 0; data1 = 0; data2 = 0 }

-- A block as the list of its first `count` events.
abbrev pub MidiEventBlock : Type 0
MidiEventBlock = List MidiOutEvent

abbrev pub block_events : ℕ
block_events = 7

abbrev pub midi_queue_capacity : ℕ
midi_queue_capacity = 512

abbrev pub max_events : ℕ
max_events = 128

pub record EventCollector : Type 0 where
  pub events : List MidiOutEvent
  pub count : ℕ

abbrev pub empty_collector : EventCollector
empty_collector = record { events = replicate max_events no_event; count = 0 }

abbrev pub reset : EventCollector → EventCollector
reset c = record c { count = 0 }

unfoldable pub midi_message_size : ℕ → ℕ
midi_message_size status =
    if leb 0xf8 status
    then 1
    else if leb 0xf0 status
    then 3
    else if bit_and status 0xf0 == 0xc0
    then 2
    else if bit_and status 0xf0 == 0xd0
    then 2
    else 3

-- `std::clamp(v, 0, 127)` of a word of 32 bits as a signed number.
unfoldable pub clamp_velocity : ℕ → ℕ
clamp_velocity v = if leb (2 ^ 31) v then 0 else if ltb 127 v then 127 else v

unfoldable pub is_negative16 : ℕ → Bool
is_negative16 v = leb (2 ^ 15) v

module _ {V : Type 0} (scaled : V → ℕ) where
  -- The message of a note event, with the status nibble; none for a wildcard.
  unfoldable pub note_message : ℕ → Note V → Option MidiOutEvent
  note_message status n =
      if is_negative16 n.channel
      then none
      else if is_negative16 n.key
      then none
      else some (record {
        sample_offset = min n.time 0xffff;
        port = 0;
        size = 3;
        data0 = bit_or status (bit_and n.channel 0x0f);
        data1 = bit_and n.key 0x7f;
        data2 = clamp_velocity (scaled n.velocity);
      })

  unfoldable pub midi_message : Midi → MidiOutEvent
  midi_message m = record {
    sample_offset = min m.time 0xffff;
    port = bit_and m.port_index 0xff;
    size = midi_message_size m.data0;
    data0 = m.data0;
    data1 = m.data1;
    data2 = m.data2;
  }

  -- The switch on the type: none for an event that is accepted and dropped.
  unfoldable pub translate : ClapEvent V → Option MidiOutEvent
  translate (note_on n) = note_message 0x90 n
  translate (note_off n) = note_message 0x80 n
  translate (midi m) = some (midi_message m)
  translate (other type) = none

  -- `if (e.size > 0) events_[count_++] = e`
  unfoldable pub keep : Option MidiOutEvent → EventCollector → EventCollector
  keep none c = c
  keep (some e) c =
      if e.size == 0 then c else record { events = set c.events c.count e; count = c.count + 1 }

  unfoldable pub try_push : ClapEvent V → EventCollector → Bool × EventCollector
  try_push ev c = if leb max_events c.count then (false, c) else (true, keep (translate ev) c)

-- The inner loop: `room` events fit into the block, and `i` is the index of the next.
unfoldable pub fill_block : ℕ → EventCollector → MidiEventBlock → ℕ → MidiEventBlock × ℕ
fill_block zero c block i = (block, i)
fill_block (suc room) c block i =
    let rest = fill_block room c (block ++ get_or c.events i no_event ∷ []) (i + 1) in
    if ltb i c.count then rest else (block, i)

-- The outer loop, on fuel: the number of blocks and the queue.
unfoldable pub flush_from :
    ℕ → EventCollector → ℕ → ℕ → SpscQueue MidiEventBlock → Option (ℕ × SpscQueue MidiEventBlock)
flush_from zero c i pushed q = none
flush_from (suc fuel) c i pushed q =
    let (block, j) = fill_block block_events c [] i in
    let rest = flush_from fuel c j (pushed + 1) (SpscQueue.push [] midi_queue_capacity block q).1 in
    if ltb i c.count then rest else some (pushed, q)

unfoldable pub flush_to :
    EventCollector → SpscQueue MidiEventBlock → Option (ℕ × SpscQueue MidiEventBlock)
flush_to c q = flush_from (suc max_events) c 0 0 q
