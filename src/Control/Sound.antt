-- ===== src/Control/Sound.antt =====
-- What the control thread promises about its queues and its engine, whatever messages come: the queues are valid, and
-- the engine lists each of its modulators once.
pub mod Queues
pub mod Engine
pub mod Replies
use nomos_rt.Common.{
  ℕ, Bool, true, false, ◌≡◌, refl, Option, none, some, List, [], ◌∷◌, arith, subst, sym, codes,
}
use nomos_rt.SpscQueue.{SpscQueue}
use nomos_rt.SpscQueue.Capacity.{IsCapacity}
use nomos_rt.SpscQueue.Refine.{IsValid, push-IsValid}
use nomos_rt.Events.{ClapEvent}
use nomos_rt.InputBuffer.{in_queue_slots}
use nomos_rt.Scheduler.{ScheduledEvent, sched_queue_capacity}
use nomos_rt.Edn.{Edn, Dictionary, Text}
use nomos_rt.Modulators.Engine.{ModulatorEngine}
use nomos_rt.Modulators.Engine.Table.{
  IsListed, start-IsListed, stop-IsListed, update_param-IsListed,
}
use nomos_rt.Control.Host.{Host}
use nomos_rt.Control.State.{
  Control, ParamEvent, param_queue_capacity, blank_input, blank_scheduled, payload_map,
}
use nomos_rt.Control.Osc.{osc_message, osc_payload}
use nomos_rt.Control.Notes.{
  blank_param, push_param, push_input, stage, stage_item, stage_items, bundle_item, stage_bundle,
  stage_map, stage_payload, handle_map, schedule_bundle, on_map, param_event_of, param_set, deliver,
  note_message, midi_event_of, midi_in,
}
use nomos_rt.Control.Midi.{
  midi_message, midi_payload, midi_of, control_change, pitch_bend, chan_pressure, sysex,
  tuning_dump,
}
use nomos_rt.Control.Repl.{
  Destination, fennel, nous, vcvrack_tty, Destination.unknown, reply, evaluate, repl_eval,
  call_swap, swap_module, wasm_hot_swap, eval_lua, response, swap_response, msg_wasm_hot_swap,
  msg_repl_eval, destination_of,
}
use nomos_rt.Control.Log.{session_open, session_close, session_message, session_payload}
use nomos_rt.Control.Modulators.Messages.{
  start_made, start_named, start_checked, modulator_start, stop_named, stop_checked, modulator_stop,
  engine_payload, update_named, update_checked, modulator_update, engine_message,
}
use nomos_rt.Session.{Session}
use nomos_rt.Scheduler.{OscEvent}

-- What is there has the property.
abbrev pub Holds : {A : Type 0} → (A → Type 0) → Option A → Type 0
Holds P none = Unit {0}
Holds P (some a) = P a

module _ {h : Host} where
  pub record IsSound (c : Control h) : Type 0 where
    pub params_valid : IsValid param_queue_capacity c.params
    pub inputs_valid : IsValid in_queue_slots c.inputs
    pub staging_valid : Holds (IsValid sched_queue_capacity) c.staging
    pub engine_listed : Holds IsListed c.engine

  -- A handler keeps the state sound.
  abbrev pub Keeps : (Control h → Control h) → Type 0
  Keeps f = (c : Control h) → IsSound c → IsSound (f c)

  -- The queues and the engine are what the invariant is about: a handler that leaves them keeps the state sound.
  abbrev pub Leaves : (Control h → Control h) → Type 0
  Leaves f =
      (c : Control h)
      → ((f c).params ≡ c.params)
        × ((f c).inputs ≡ c.inputs)
        × ((f c).staging ≡ c.staging)
        × ((f c).engine ≡ c.engine)

  pub Leaves-IsSound : (f : Control h → Control h) → Leaves f → Keeps f
  Leaves-IsSound f leaves c s = record {
    params_valid = subst (IsValid param_queue_capacity) (sym (leaves c).0) s.params_valid;
    inputs_valid = subst (IsValid in_queue_slots) (sym (leaves c).1) s.inputs_valid;
    staging_valid = subst (Holds (IsValid sched_queue_capacity)) (sym (leaves c).2) s.staging_valid;
    engine_listed = subst (Holds IsListed) (sym (leaves c).3) s.engine_listed;
  }
