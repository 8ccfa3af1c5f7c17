-- ===== src/Control/Notes.antt =====
-- src/rt_control_thread.cpp: the messages that put events into the queues, `param_set`, `note_on`, `note_off`,
-- `schedule_bundle` and `midi_in`.
pub mod Bundle
use nomos_rt.Common.{
  ℕ, ◌+◌, ◌-◌, ◌%◌, ◌^◌, Bool, true, false, not, ltb, if◌then◌else◌, Option, none, some, List, [],
  ◌∷◌, codes, bytes_eq, get_elem?,
}
use nomos_rt.SpscQueue
use nomos_rt.SpscQueue.{SpscQueue}
use nomos_rt.Events.{ClapEvent, Note, note_on, note_off, midi}
use nomos_rt.InputBuffer.{in_queue_slots}
use nomos_rt.Edn.{
  Edn, dictionary, entries, Dictionary, Text, as_int, as_keyword, as_vector, value_or,
}
use nomos_rt.Scheduler.{OscEvent, ScheduledEvent, clap, osc, sched_queue_capacity, blank_osc}
use nomos_rt.Control.Host.{Host}
use nomos_rt.Control.State.{
  Control, ParamEvent, param_queue_capacity, zero_double, blank_input, blank_scheduled, payload_map,
  get_int, get_double, double_or,
}
use nomos_rt.Control.Osc.{build_osc_event_from_edn}

-- An int16_t as an int32_t.
unfoldable pub widened : ℕ → ℕ
widened n = if ltb n (2 ^ 15) then n else n + (2 ^ 32 - 2 ^ 16)

-- A keyword is there and is `name`.
abbrev pub is_keyword : {D : Type 0} → Text → Option (Edn D) → Bool
is_keyword name e = bytes_eq (value_or (as_keyword e) []) name

module _ (h : Host) where
  -- `queue_.push`, `in_queue_.push` and `sched_staging->push`; their result is not looked at.
  abbrev pub blank_param : ParamEvent h.num.D
  blank_param = record { path = Edn.nil; value = Edn.nil }

  unfoldable pub push_param : ParamEvent h.num.D → Control h → Control h
  push_param e c = record c {
    params = (SpscQueue.push blank_param param_queue_capacity e c.params).1;
  }

  unfoldable pub push_input : ClapEvent h.num.D → Control h → Control h
  push_input e c = record c {
    inputs = (SpscQueue.push (blank_input h) in_queue_slots e c.inputs).1;
  }

  abbrev pub stage :
      ScheduledEvent h.num.D
      → SpscQueue (ScheduledEvent h.num.D)
      → SpscQueue (ScheduledEvent h.num.D)
  stage e q = (SpscQueue.push (blank_scheduled h) sched_queue_capacity e q).1

  -- The handler of a message whose payload is a map.
  unfoldable pub handle_map :
      (Dictionary h.num.D → Control h → Control h)
      → Option (Dictionary h.num.D)
      → Control h
      → Control h
  handle_map handle none c = c
  handle_map handle (some m) c = handle m c

  unfoldable pub on_map :
      (Dictionary h.num.D → Control h → Control h) → List ℕ → Control h → Control h
  unfolding handle_map
  on_map handle payload c = handle_map handle (payload_map h payload) c

  unfoldable pub param_event_of :
      Option (Edn h.num.D) → Option (Edn h.num.D) → Control h → Control h
  unfolding push_param
  param_event_of (some path) (some value) c = push_param (record { path = path; value = value }) c
  param_event_of path value c = c

  unfoldable pub param_set : Dictionary h.num.D → Control h → Control h
  unfolding param_event_of
  param_set m c = param_event_of (h.find_kw m (codes "path")) (h.find_kw m (codes "value")) c

  unfoldable pub make_note_event : Bool → ℕ → ℕ → ℕ → ℕ → h.num.D → ClapEvent h.num.D
  unfolding widened
  make_note_event is_on key channel port note_id velocity =
      let note : Note h.num.D = record {
        time = 0;
        note_id = widened note_id;
        port_index = port;
        channel = channel;
        key = key;
        velocity = velocity;
      } in
      if is_on then note_on note else note_off note

  -- The fields of a note in a map, with their defaults.
  unfoldable pub note_of : Bool → Dictionary h.num.D → ClapEvent h.num.D
  unfolding make_note_event get_int get_double double_or
  note_of is_on m =
      let field = λ (kw : Text) (default : ℕ). get_int h m kw default % 2 ^ 16 in
      make_note_event is_on (field (codes "key") 60) (field (codes "channel") 0)
        (field (codes "port") 0) (field (codes "note-id") (2 ^ 64 - 1))
        (get_double h m (codes "velocity") (zero_double h))

  abbrev pub scheduled_note : h.num.D → ClapEvent h.num.D → ScheduledEvent h.num.D
  scheduled_note beat e = record { beat = beat; kind = clap; event = e; osc = blank_osc }

  abbrev pub scheduled_osc : h.num.D → OscEvent → ScheduledEvent h.num.D
  scheduled_osc beat o = record { beat = beat; kind = osc; event = blank_input h; osc = o }

  -- A note waits for its beat if it has one and there is a scheduler.
  unfoldable pub deliver :
      Option h.num.D
      → ClapEvent h.num.D
      → Option (SpscQueue (ScheduledEvent h.num.D))
      → Control h
      → Control h
  unfolding push_input
  deliver (some beat) e (some q) c = record c { staging = some (stage (scheduled_note beat e) q) }
  deliver beat e staging c = push_input e c

  unfoldable pub beat_of : Option (Edn h.num.D) → Option h.num.D
  unfolding double_or
  beat_of none = none
  beat_of (some v) = some (double_or h (some v) (zero_double h))

  unfoldable pub note_message : Bool → Dictionary h.num.D → Control h → Control h
  unfolding deliver beat_of note_of
  note_message is_on m c =
      deliver (beat_of (h.find_kw m (codes "beat"))) (note_of is_on m) c.staging c

  -- One item of a bundle: what it puts into the staging queue.
  unfoldable pub osc_item : h.num.D → Option OscEvent → Option (ScheduledEvent h.num.D)
  osc_item beat none = none
  osc_item beat (some o) = some (scheduled_osc beat o)

  unfoldable pub map_item : h.num.D → Dictionary h.num.D → Option (ScheduledEvent h.num.D)
  unfolding osc_item get_int note_of
  map_item anchor m =
      let beat =
        h.num.add anchor
          (h.num.div (h.num.of_int64 (get_int h m (codes "at-tick") 0)) (h.num.lit 24 1)) in
      let type = h.find_kw m (codes "type") in
      if is_keyword (codes "osc") type
      then osc_item beat (build_osc_event_from_edn h m)
      else some (scheduled_note beat (note_of (not (is_keyword (codes "note-off") type)) m))

  unfoldable pub bundle_item : h.num.D → Edn h.num.D → Option (ScheduledEvent h.num.D)
  unfolding map_item
  bundle_item anchor (dictionary m) = map_item anchor (entries m)
  bundle_item anchor e = none

  abbrev pub stage_item :
      Option (ScheduledEvent h.num.D)
      → SpscQueue (ScheduledEvent h.num.D)
      → SpscQueue (ScheduledEvent h.num.D)
  stage_item none q = q
  stage_item (some e) q = stage e q

  -- The loop over the events.
  unfoldable pub stage_items :
      h.num.D
      → List (Edn h.num.D)
      → SpscQueue (ScheduledEvent h.num.D)
      → SpscQueue (ScheduledEvent h.num.D)
  stage_items anchor [] q = q
  stage_items anchor (e ∷ es) q = stage_items anchor es (stage_item (bundle_item anchor e) q)

  unfoldable pub stage_bundle :
      Option h.num.D
      → Option (List (Edn h.num.D))
      → SpscQueue (ScheduledEvent h.num.D)
      → SpscQueue (ScheduledEvent h.num.D)
  stage_bundle (some anchor) (some es) q = stage_items anchor es q
  stage_bundle anchor es q = q

  unfoldable pub stage_map :
      Option (Dictionary h.num.D)
      → SpscQueue (ScheduledEvent h.num.D)
      → SpscQueue (ScheduledEvent h.num.D)
  unfolding stage_bundle beat_of
  stage_map none q = q
  stage_map (some m) q =
      stage_bundle (beat_of (h.find_kw m (codes "at-beat")))
        (as_vector (h.find_kw m (codes "events"))) q

  -- Without a staging queue nothing is done.
  unfoldable pub stage_payload :
      Option (Dictionary h.num.D)
      → Option (SpscQueue (ScheduledEvent h.num.D))
      → Control h
      → Control h
  unfolding stage_map
  stage_payload m none c = c
  stage_payload m (some q) c = record c { staging = some (stage_map m q) }

  unfoldable pub schedule_bundle : List ℕ → Control h → Control h
  unfolding stage_payload
  schedule_bundle payload c = stage_payload (payload_map h payload) c.staging c

  -- `data[i]` for i below 3: zero where there is no integer.
  unfoldable pub data_byte : List (Edn h.num.D) → ℕ → ℕ
  data_byte bytes i = value_or (as_int (get_elem? bytes i)) 0 % 2 ^ 8

  unfoldable pub midi_event_of : ℕ → Option (List (Edn h.num.D)) → Control h → Control h
  unfolding data_byte push_input
  midi_event_of port none c = c
  midi_event_of port (some bytes) c =
      push_input
        (midi (record {
          time = 0;
          port_index = port;
          data0 = data_byte bytes 0;
          data1 = data_byte bytes 1;
          data2 = data_byte bytes 2;
        }))
        c

  unfoldable pub midi_in : Dictionary h.num.D → Control h → Control h
  unfolding midi_event_of get_int
  midi_in m c =
      midi_event_of (get_int h m (codes "port") 0 % 2 ^ 16) (as_vector (h.find_kw m (codes "data")))
        c
