-- ===== src/Control/Dispatch/Invariant.antt =====
-- What every message keeps of the state of the control thread.
use nomos_rt.Common.{ℕ, Bool, true, false, refl, List}
use nomos_rt.Control.Host.{Host}
use nomos_rt.Control.State.{Control}
use nomos_rt.Control.Notes.{param_set, note_message, midi_in}
use nomos_rt.Control.Midi.{control_change, pitch_bend, chan_pressure, sysex, tuning_dump}
use nomos_rt.Control.Repl.{Destination.unknown, repl_eval, wasm_hot_swap}
use nomos_rt.Control.Log.{session_open, session_close}
use nomos_rt.Control.Modulators.Messages.{modulator_start, modulator_stop, modulator_update}
use nomos_rt.Control.Dispatch.{
  Kind, opens_session, closes_session, registers_source, logs, sets_param, note_starts, note_ends,
  bundle, midi_input, starts_modulator, stops_modulator, updates_modulator, cc, bend, pressure,
  system_exclusive, tuning, osc_send, eval, wasm_swap, unknown, kind_of, dispatch_kind,
  dispatch_message,
}
use nomos_rt.Control.Sound.{IsSound, Keeps, Leaves-IsSound}
use nomos_rt.Control.Sound.Queues.{
  on_map-IsSound, param_event_of-IsSound, deliver-IsSound, schedule_bundle-IsSound,
  midi_event_of-IsSound,
}
use nomos_rt.Control.Sound.Engine.{
  modulator_start-IsListed, modulator_stop-IsListed, modulator_update-IsListed,
  engine_message-IsSound,
}
use nomos_rt.Control.Sound.Replies.{
  session_message-Leaves, midi_message-IsSound, osc_message-IsSound, repl_eval-IsSound,
  swap_module-IsSound,
}

module _ (h : Host) where
  dispatch_kind-IsSound :
      (kind : Kind) (connected : Bool) (payload : List ℕ)
      → Keeps (dispatch_kind h kind connected payload)
  unfolding dispatch_kind param_set note_message midi_in wasm_hot_swap session_open session_close
  dispatch_kind-IsSound opens_session connected payload =
      Leaves-IsSound (session_open h) (λ c. (refl, refl, refl, refl))
  dispatch_kind-IsSound closes_session connected payload =
      Leaves-IsSound (session_close h) (λ c. (refl, refl, refl, refl))
  dispatch_kind-IsSound registers_source connected payload =
      Leaves-IsSound _ (session_message-Leaves h _ payload)
  dispatch_kind-IsSound logs connected payload =
      Leaves-IsSound _ (session_message-Leaves h _ payload)
  dispatch_kind-IsSound sets_param connected payload =
      on_map-IsSound h (param_set h) payload (λ m. param_event_of-IsSound h _ _)
  dispatch_kind-IsSound note_starts connected payload =
      on_map-IsSound h (note_message h true) payload
        (λ m c s. deliver-IsSound h _ _ c.staging s.staging_valid c s)
  dispatch_kind-IsSound note_ends connected payload =
      on_map-IsSound h (note_message h false) payload
        (λ m c s. deliver-IsSound h _ _ c.staging s.staging_valid c s)
  dispatch_kind-IsSound bundle connected payload = schedule_bundle-IsSound h payload
  dispatch_kind-IsSound midi_input connected payload =
      on_map-IsSound h (midi_in h) payload (λ m. midi_event_of-IsSound h _ _)
  dispatch_kind-IsSound starts_modulator connected payload =
      engine_message-IsSound h (modulator_start h) payload (modulator_start-IsListed h)
  dispatch_kind-IsSound stops_modulator connected payload =
      engine_message-IsSound h (modulator_stop h) payload (modulator_stop-IsListed h)
  dispatch_kind-IsSound updates_modulator connected payload =
      engine_message-IsSound h (modulator_update h) payload (modulator_update-IsListed h)
  dispatch_kind-IsSound cc connected payload = midi_message-IsSound h (control_change h) payload
  dispatch_kind-IsSound bend connected payload = midi_message-IsSound h (pitch_bend h) payload
  dispatch_kind-IsSound pressure connected payload =
      midi_message-IsSound h (chan_pressure h) payload
  dispatch_kind-IsSound system_exclusive connected payload =
      midi_message-IsSound h (sysex h) payload
  dispatch_kind-IsSound tuning connected payload = midi_message-IsSound h (tuning_dump h) payload
  dispatch_kind-IsSound osc_send connected payload = osc_message-IsSound h payload
  dispatch_kind-IsSound eval connected payload =
      on_map-IsSound h (repl_eval h connected) payload (repl_eval-IsSound h connected)
  dispatch_kind-IsSound wasm_swap connected payload =
      on_map-IsSound h (wasm_hot_swap h connected) payload
        (λ m. swap_module-IsSound h connected _ _)
  dispatch_kind-IsSound unknown connected payload = λ c s. s

  -- Whatever the type and the payload of a message, the queues stay valid and the engine lists each of its modulators
  -- once.
  pub dispatch_message-IsSound :
      (connected : Bool) (type : ℕ) (payload : List ℕ) (c : Control h)
      → IsSound c
      → IsSound (dispatch_message h connected type payload c)
  unfolding dispatch_message
  dispatch_message-IsSound connected type payload c s =
      dispatch_kind-IsSound (kind_of type) connected payload c s
