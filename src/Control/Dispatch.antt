-- ===== src/Control/Dispatch.antt =====
-- src/rt_control_thread.cpp: `dispatch_message`, `dispatch_extension`, `dispatch_ctrl_frame` and `handle_connection`. The
-- numbers of the messages are those of include/nomos/rt/ipc.hpp.
pub mod Invariant
pub mod Malformed
pub mod Frames
use nomos_rt.Common.{
  ℕ, ◌-◌, Bool, true, false, ◌==◌, ltb, if◌then◌else◌, Option, none, some, List, [], ◌∷◌, length,
  take, drop, get_or,
}
use nomos_rt.Ipc.Stream.{Source}
use nomos_rt.Ipc.Channel.{Message, Result, ok, err, header_size, bswap32, load_u32, read_message}
use nomos_rt.Control.Host.{Host}
use nomos_rt.Control.State.{Control}
use nomos_rt.Control.Osc.{osc_message}
use nomos_rt.Control.Notes.{on_map, param_set, note_message, schedule_bundle, midi_in}
use nomos_rt.Control.Midi.{
  midi_message, control_change, pitch_bend, chan_pressure, sysex, tuning_dump,
}
use nomos_rt.Control.Repl.{repl_eval, wasm_hot_swap}
use nomos_rt.Control.Log.{
  session_open, session_close, session_message, registered, source_info, emitted,
}
use nomos_rt.Control.Modulators.Messages.{
  engine_message, modulator_start, modulator_stop, modulator_update,
}

-- The cases of the `switch`, and `wasm_swap` for the one of `dispatch_extension`.
pub data Kind : Type 0 where
  opens_session closes_session registers_source logs sets_param note_starts note_ends : Kind
  bundle midi_input starts_modulator stops_modulator updates_modulator : Kind
  cc bend pressure system_exclusive tuning osc_send eval wasm_swap unknown : Kind

unfoldable pub kinds : List (ℕ × Kind)
kinds =
    (0x30, logs)
    ∷ (0x31, opens_session)
    ∷ (0x32, closes_session)
    ∷ (0x33, registers_source)
    ∷ (0x40, sets_param)
    ∷ (0x41, note_starts)
    ∷ (0x42, note_ends)
    ∷ (0x43, midi_input)
    ∷ (0x44, wasm_swap)
    ∷ (0x45, bundle)
    ∷ (0x46, starts_modulator)
    ∷ (0x47, stops_modulator)
    ∷ (0x48, updates_modulator)
    ∷ (0x49, cc)
    ∷ (0x4a, bend)
    ∷ (0x4b, pressure)
    ∷ (0x4c, system_exclusive)
    ∷ (0x4d, tuning)
    ∷ (0x55, eval)
    ∷ (0x57, osc_send)
    ∷ []

unfoldable pub kind_in : List (ℕ × Kind) → ℕ → Kind
kind_in [] type = unknown
kind_in ((number, kind) ∷ table) type = if number == type then kind else kind_in table type

unfoldable pub kind_of : ℕ → Kind
unfolding kinds kind_in
kind_of type = kind_in kinds type

-- What a frame in a buffer says: its type and its payload, or nothing if it is cut off.
unfoldable pub parse_ctrl_frame : List ℕ → Option (ℕ × List ℕ)
parse_ctrl_frame buf =
    if ltb (length buf) header_size
    then none
    else (let payload_len = bswap32 (load_u32 buf) in
        if ltb (length buf - header_size) payload_len
        then none
        else some (get_or buf 4 0, take payload_len (drop header_size buf)))

module _ (h : Host) where
  -- `connected` is `conn_fd >= 0`.
  unfoldable pub dispatch_kind : Kind → Bool → List ℕ → Control h → Control h
  dispatch_kind opens_session connected payload c = session_open h c
  dispatch_kind closes_session connected payload c = session_close h c
  dispatch_kind registers_source connected payload c =
      session_message h (λ m. registered h (source_info h m)) payload c
  dispatch_kind logs connected payload c = session_message h (emitted h) payload c
  dispatch_kind sets_param connected payload c = on_map h (param_set h) payload c
  dispatch_kind note_starts connected payload c = on_map h (note_message h true) payload c
  dispatch_kind note_ends connected payload c = on_map h (note_message h false) payload c
  dispatch_kind bundle connected payload c = schedule_bundle h payload c
  dispatch_kind midi_input connected payload c = on_map h (midi_in h) payload c
  dispatch_kind starts_modulator connected payload c =
      engine_message h (modulator_start h) payload c
  dispatch_kind stops_modulator connected payload c = engine_message h (modulator_stop h) payload c
  dispatch_kind updates_modulator connected payload c =
      engine_message h (modulator_update h) payload c
  dispatch_kind cc connected payload c = midi_message h (control_change h) payload c
  dispatch_kind bend connected payload c = midi_message h (pitch_bend h) payload c
  dispatch_kind pressure connected payload c = midi_message h (chan_pressure h) payload c
  dispatch_kind system_exclusive connected payload c = midi_message h (sysex h) payload c
  dispatch_kind tuning connected payload c = midi_message h (tuning_dump h) payload c
  dispatch_kind osc_send connected payload c = osc_message h payload c
  dispatch_kind eval connected payload c = on_map h (repl_eval h connected) payload c
  dispatch_kind wasm_swap connected payload c = on_map h (wasm_hot_swap h connected) payload c
  dispatch_kind unknown connected payload c = c

  unfoldable pub dispatch_message : Bool → ℕ → List ℕ → Control h → Control h
  unfolding dispatch_kind kind_of
  dispatch_message connected type payload c = dispatch_kind (kind_of type) connected payload c

  -- A frame from a buffer is dispatched with no session and no connection; the session of the connection stays.
  unfoldable pub dispatch_frame : Option (ℕ × List ℕ) → Control h → Control h
  dispatch_frame none c = c
  dispatch_frame (some (type, payload)) c =
      record (dispatch_message false type payload (record c { session = none })) {
        session = c.session;
      }

  unfoldable pub dispatch_ctrl_frame : List ℕ → Control h → Control h
  unfolding dispatch_frame parse_ctrl_frame
  dispatch_ctrl_frame buf c = dispatch_frame (parse_ctrl_frame buf) c

  module _ (src : Source) where
    -- The loop of `handle_connection`. `loads` are the values that the loads of `running_` see, and bound the rounds;
    -- `fuel` is for `read_message`.
    unfoldable pub serve_message :
        (src.S → Control h → Option (src.S × Control h))
        → Option (Result Message × src.S)
        → Control h
        → Option (src.S × Control h)
    serve_message again none c = none
    serve_message again (some (err e, t)) c = some (t, c)
    serve_message again (some (ok msg, t)) c =
        again t (dispatch_message true msg.type msg.payload c)

    unfoldable pub serve : ℕ → List Bool → src.S → Control h → Option (src.S × Control h)
    serve fuel [] s c = none
    serve fuel (false ∷ loads) s c = some (s, c)
    serve fuel (true ∷ loads) s c = serve_message (serve fuel loads) (read_message src fuel s) c

    -- A connection starts and ends without a session.
    unfoldable pub ended : Option (src.S × Control h) → Option (src.S × Control h)
    ended none = none
    ended (some (t, c)) = some (t, record c { session = none })

    unfoldable pub handle_connection :
        ℕ → List Bool → src.S → Control h → Option (src.S × Control h)
    unfolding ended serve
    handle_connection fuel loads s c = ended (serve fuel loads s (record c { session = none }))
