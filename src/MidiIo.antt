-- ===== src/MidiIo.antt =====
-- src/midi_io.cpp: MIDI ports over RtMidi, which is not in the repository: its calls are parameters, with a state for each
-- direction. A call that may throw says whether it has come back. `V` is the type of doubles, and `ratio v` is
-- `static_cast<double>(v) / 127.0`.
pub mod Notes
pub mod Thru
mod Tests
use nomos_rt.Common.{
  ℕ, zero, suc, ◌+◌, ◌-◌, ◌/◌, ◌%◌, ◌^◌, bit_and, bit_or, Bool, true, false, not, ltb, leb, ◌==◌,
  ◌&&◌, ◌||◌, if◌then◌else◌, Option, none, some, List, [], ◌∷◌, ◌++◌, length, get_or,
}
use nomos_rt.Edn.{Text}
use nomos_rt.SpscQueue
use nomos_rt.SpscQueue.{SpscQueue}
use nomos_rt.Events.{Note, Midi, ClapEvent, note_on, note_off, midi}
use nomos_rt.InputBuffer.{in_queue_slots}

pub record RtMidi : Type 1 where
  pub Out : Type 0
  pub In : Type 0
  -- The names of the ports, one for each.
  pub out_ports : Out → List Text
  pub out_is_open : Out → Bool
  pub open_out : ℕ → Out → Bool × Out
  pub open_virtual : Text → Out → Bool × Out
  pub close_out : Out → Out
  pub send_message : List ℕ → Out → Bool × Out
  pub in_ports : In → List Text
  pub in_is_open : In → Bool
  pub set_callback : In → In
  pub cancel_callback : In → In
  pub ignore_types : Bool → Bool → Bool → In → In
  pub open_in : ℕ → In → Bool × In
  pub close_in : In → In

-- `find(name) != npos`
unfoldable pub is_prefix : Text → Text → Bool
is_prefix [] text = true
is_prefix (c ∷ cs) [] = false
is_prefix (c ∷ cs) (d ∷ ds) = (c == d) && is_prefix cs ds

unfoldable pub is_within : Text → Text → Bool
unfolding is_prefix
is_within name [] = is_prefix name []
is_within name (d ∷ ds) = is_prefix name (d ∷ ds) || is_within name ds

-- The loop over the ports from the index `i` on.
unfoldable pub port_named : Text → ℕ → List Text → Option ℕ
unfolding is_within
port_named name i [] = none
port_named name i (port ∷ ports) =
    if is_within name port then some i else port_named name (suc i) ports

-- The messages of the channel voices.
unfoldable pub channel_bits : ℕ → ℕ
channel_bits channel = bit_and ((channel + (2 ^ 32 - 1)) % 2 ^ 32) 0x0f

unfoldable pub note_on_bytes : ℕ → ℕ → ℕ → List ℕ
note_on_bytes channel note velocity = bit_or 0x90 (channel_bits channel) ∷ note ∷ velocity ∷ []

unfoldable pub note_off_bytes : ℕ → ℕ → List ℕ
note_off_bytes channel note = bit_or 0x80 (channel_bits channel) ∷ note ∷ 0x00 ∷ []

unfoldable pub cc_bytes : ℕ → ℕ → ℕ → List ℕ
cc_bytes channel cc_num value = bit_or 0xb0 (channel_bits channel) ∷ cc_num ∷ value ∷ []

unfoldable pub pitch_bend_bytes : ℕ → ℕ → List ℕ
pitch_bend_bytes channel value14 =
    bit_or 0xe0 (channel_bits channel) ∷ bit_and value14 0x7f ∷ bit_and (value14 / 2 ^ 7) 0x7f ∷ []

unfoldable pub channel_pressure_bytes : ℕ → ℕ → List ℕ
channel_pressure_bytes channel pressure = bit_or 0xd0 (channel_bits channel) ∷ pressure ∷ []

module _ {V : Type 0} (zero_double : V) (ratio : ℕ → V) where
  abbrev pub note_event : Bool → ℕ → List ℕ → ClapEvent V
  note_event is_off status msg =
      let note : Note V = record {
        time = 0;
        note_id = 2 ^ 32 - 1;
        port_index = 0;
        channel = bit_and status 0x0f;
        key = get_or msg 1 0;
        velocity = if is_off then zero_double else ratio (get_or msg 2 0);
      } in
      if is_off then note_off note else note_on note

  abbrev pub raw_event : ℕ → List ℕ → ClapEvent V
  raw_event status msg = midi (record {
    time = 0;
    port_index = 0;
    data0 = status;
    data1 = get_or msg 1 0;
    data2 = get_or msg 2 0;
  })

  -- The event of a message, whose first byte is the status.
  unfoldable pub event_of : ℕ → List ℕ → ClapEvent V
  event_of status msg =
      let nibble = bit_and status 0xf0 in
      if nibble == 0x90 || nibble == 0x80
      then note_event (nibble == 0x80 || (nibble == 0x90 && get_or msg 2 0 == 0)) status msg
      else raw_event status msg

  module _ (rt : RtMidi) (blank : ClapEvent V) where
    open rt use {Out, In}

    -- `tap` and `echo` list what the callbacks have received; without a callback they are `none`.
    pub record MidiIo : Type 0 where
      pub out : Out
      pub inp : In
      pub in_queue : Option (SpscQueue (ClapEvent V))
      pub echo : Option (List (List ℕ))
      pub tap : Option (List (List ℕ))
      pub virtual_port_open : Bool

    abbrev pub after_open : Bool × Out → MidiIo → Bool × MidiIo
    after_open (done, out) s = (done, record s { out = out })

    unfoldable pub open_port : ℕ → MidiIo → Bool × MidiIo
    open_port index s =
        if leb (length (rt.out_ports s.out)) index
        then (false, s)
        else after_open (rt.open_out index s.out) s

    abbrev pub open_found : Option ℕ → MidiIo → Bool × MidiIo
    open_found none s = (false, s)
    open_found (some i) s = open_port i s

    unfoldable pub open_port_by_name : Text → MidiIo → Bool × MidiIo
    open_port_by_name name s = open_found (port_named name 0 (rt.out_ports s.out)) s

    abbrev pub after_virtual : Bool × Out → MidiIo → Bool × MidiIo
    after_virtual (true, out) s = (true, record s { out = out; virtual_port_open = true })
    after_virtual (false, out) s = (false, record s { out = out })

    unfoldable pub open_virtual_port : Text → MidiIo → Bool × MidiIo
    open_virtual_port name s = after_virtual (rt.open_virtual name s.out) s

    unfoldable pub close : MidiIo → MidiIo
    close s = record s {
      out = if rt.out_is_open s.out then rt.close_out s.out else s.out;
      virtual_port_open = false;
    }

    unfoldable pub is_open : MidiIo → Bool
    is_open s = rt.out_is_open s.out || s.virtual_port_open

    abbrev pub noted : List ℕ → Option (List (List ℕ)) → Option (List (List ℕ))
    noted bytes none = none
    noted bytes (some sent) = some (sent ++ bytes ∷ [])

    abbrev pub after_send : List ℕ → Bool × Out → MidiIo → MidiIo
    after_send bytes (true, out) s = record s { out = out; tap = noted bytes s.tap }
    after_send bytes (false, out) s = record s { out = out }

    unfoldable pub send : List ℕ → MidiIo → MidiIo
    send bytes s = if is_open s then after_send bytes (rt.send_message bytes s.out) s else s

    unfoldable pub send_note_on : ℕ → ℕ → ℕ → MidiIo → MidiIo
    send_note_on channel note velocity s = send (note_on_bytes channel note velocity) s

    unfoldable pub send_note_off : ℕ → ℕ → MidiIo → MidiIo
    send_note_off channel note s = send (note_off_bytes channel note) s

    unfoldable pub send_cc : ℕ → ℕ → ℕ → MidiIo → MidiIo
    unfolding cc_bytes
    send_cc channel cc_num value s = send (cc_bytes channel cc_num value) s

    unfoldable pub send_pitch_bend : ℕ → ℕ → MidiIo → MidiIo
    unfolding pitch_bend_bytes
    send_pitch_bend channel value14 s = send (pitch_bend_bytes channel value14) s

    unfoldable pub send_channel_pressure : ℕ → ℕ → MidiIo → MidiIo
    unfolding channel_pressure_bytes
    send_channel_pressure channel pressure s = send (channel_pressure_bytes channel pressure) s

    unfoldable pub send_realtime : ℕ → MidiIo → MidiIo
    send_realtime byte s = send (byte ∷ []) s

    abbrev pub set_send_callback : MidiIo → MidiIo
    set_send_callback s = record s { tap = some [] }

    abbrev pub set_echo_callback : MidiIo → MidiIo
    set_echo_callback s = record s { echo = some [] }

    abbrev pub after_open_input : Bool × In → SpscQueue (ClapEvent V) → MidiIo → Bool × MidiIo
    after_open_input (true, inp) q s = (true, record s { inp = inp; in_queue = some q })
    after_open_input (false, inp) q s = (false, record s { inp = inp; in_queue = none })

    unfoldable pub open_input_port : ℕ → SpscQueue (ClapEvent V) → MidiIo → Bool × MidiIo
    open_input_port index q s =
        if leb (length (rt.in_ports s.inp)) index
        then (false, s)
        else after_open_input
            (rt.open_in index (rt.ignore_types false true true (rt.set_callback s.inp))) q s

    abbrev pub open_input_found : Option ℕ → SpscQueue (ClapEvent V) → MidiIo → Bool × MidiIo
    open_input_found none q s = (false, s)
    open_input_found (some i) q s = open_input_port i q s

    unfoldable pub open_input_port_by_name : Text → SpscQueue (ClapEvent V) → MidiIo → Bool × MidiIo
    open_input_port_by_name name q s = open_input_found (port_named name 0 (rt.in_ports s.inp)) q s

    unfoldable pub close_input : MidiIo → MidiIo
    close_input s =
        if rt.in_is_open s.inp
        then record s { inp = rt.close_in (rt.cancel_callback s.inp); in_queue = none }
        else s

    -- The destructor.
    abbrev pub destroy : MidiIo → MidiIo
    destroy s = close (close_input s)

    abbrev pub enqueue :
        ClapEvent V → Option (SpscQueue (ClapEvent V)) → Option (SpscQueue (ClapEvent V))
    enqueue e none = none
    enqueue e (some q) = some (SpscQueue.push blank in_queue_slots e q).1

    -- With an echo callback the message goes to it and nowhere else.
    abbrev pub received : ℕ → List ℕ → Option (List (List ℕ)) → MidiIo → MidiIo
    received status msg (some echoed) s = record s { echo = some (echoed ++ msg ∷ []) }
    received status msg none s = record s { in_queue = enqueue (event_of status msg) s.in_queue }

    unfoldable pub midi_callback : List ℕ → MidiIo → MidiIo
    midi_callback [] s = s
    midi_callback (status ∷ rest) s = received status (status ∷ rest) s.echo s
