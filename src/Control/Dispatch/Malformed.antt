-- ===== src/Control/Dispatch/Malformed.antt =====
-- Messages whose payload is not the map that the handler wants.
use nomos_rt.Common.{ℕ, Bool, ◌≡◌, ◌≢◌, refl, sym, ap, Option, none, some, List, arith}
use nomos_rt.SpscQueue.{SpscQueue}
use nomos_rt.Scheduler.{OscEvent, ScheduledEvent}
use nomos_rt.Session.{Session}
use nomos_rt.Edn.{Dictionary}
use nomos_rt.Modulators.Engine.{ModulatorEngine}
use nomos_rt.Control.Host.{Host}
use nomos_rt.Control.State.{Control, payload_map}
use nomos_rt.Control.Osc.{osc_message, osc_payload}
use nomos_rt.Control.Notes.{on_map, schedule_bundle, stage_payload}
use nomos_rt.Control.Midi.{midi_message, midi_payload}
use nomos_rt.Control.Log.{session_message}
use nomos_rt.Control.Modulators.Messages.{engine_message}
use nomos_rt.Control.Dispatch.{
  Kind, opens_session, closes_session, registers_source, logs, sets_param, note_starts, note_ends,
  bundle, midi_input, starts_modulator, stops_modulator, updates_modulator, cc, bend, pressure,
  system_exclusive, tuning, osc_send, eval, wasm_swap, unknown, kinds, kind_in, kind_of,
  dispatch_kind, dispatch_message,
}

opens_only : (type : ℕ) → type ≢ 0x31 → kind_of type ≢ opens_session
unfolding kind_of kind_in kinds
opens_only type ne e = ground (arith, e)

closes_only : (type : ℕ) → type ≢ 0x32 → kind_of type ≢ closes_session
unfolding kind_of kind_in kinds
closes_only type ne e = ground (arith, e)

module _ (h : Host) where
  stage_payload-none :
      (staging : Option (SpscQueue (ScheduledEvent h.num.D))) (c : Control h)
      → c.staging ≡ staging
      → stage_payload h none staging c ≡ c
  unfolding stage_payload
  stage_payload-none none c e = refl
  stage_payload-none (some q) c e = ap (λ o. record c { staging = o }) (sym e)

  midi_payload-none :
      (sent : Option (List (List ℕ))) (c : Control h)
      → c.midi ≡ sent
      → midi_payload h none sent c ≡ c
  unfolding midi_payload
  midi_payload-none none c e = refl
  midi_payload-none (some sent) c e = ap (λ o. record c { midi = o }) (sym e)

  osc_payload-none :
      (sent : Option (List OscEvent)) (c : Control h) → c.osc ≡ sent → osc_payload h none sent c ≡ c
  unfolding osc_payload
  osc_payload-none none c e = refl
  osc_payload-none (some sent) c e = ap (λ o. record c { osc = o }) (sym e)

  module _ (payload : List ℕ) (malformed : payload_map h payload ≡ none) (c : Control h) where
    on_map_malformed :
        (handle : Dictionary h.num.D → Control h → Control h) → on_map h handle payload c ≡ c
    unfolding on_map
    on_map_malformed handle = rw malformed

    session_message_malformed :
        (handle : Dictionary h.num.D → Session h.num.D → Session h.num.D)
        → session_message h handle payload c ≡ c
    unfolding session_message
    session_message_malformed handle = rw malformed

    engine_message_malformed :
        (handle : Dictionary h.num.D → ModulatorEngine h.M h.O → ModulatorEngine h.M h.O)
        → engine_message h handle payload c ≡ c
    unfolding engine_message
    engine_message_malformed handle = rw malformed

    schedule_bundle_malformed : schedule_bundle h payload c ≡ c
    unfolding schedule_bundle
    schedule_bundle_malformed = rw malformed (stage_payload-none c.staging c refl)

    midi_message_malformed :
        (f : Dictionary h.num.D → Option (List ℕ)) → midi_message h f payload c ≡ c
    unfolding midi_message
    midi_message_malformed f = rw malformed (midi_payload-none c.midi c refl)

    osc_message_malformed : osc_message h payload c ≡ c
    unfolding osc_message
    osc_message_malformed = rw malformed (osc_payload-none c.osc c refl)

    dispatch_kind_malformed :
        (connected : Bool) (kind : Kind)
        → kind ≢ opens_session
        → kind ≢ closes_session
        → dispatch_kind h kind connected payload c ≡ c
    unfolding dispatch_kind
    dispatch_kind_malformed connected opens_session ne no_close = absurd (ne refl)
    dispatch_kind_malformed connected closes_session ne no_close = absurd (no_close refl)
    dispatch_kind_malformed connected registers_source ne no_close = session_message_malformed _
    dispatch_kind_malformed connected logs ne no_close = session_message_malformed _
    dispatch_kind_malformed connected sets_param ne no_close = on_map_malformed _
    dispatch_kind_malformed connected note_starts ne no_close = on_map_malformed _
    dispatch_kind_malformed connected note_ends ne no_close = on_map_malformed _
    dispatch_kind_malformed connected bundle ne no_close = schedule_bundle_malformed
    dispatch_kind_malformed connected midi_input ne no_close = on_map_malformed _
    dispatch_kind_malformed connected starts_modulator ne no_close = engine_message_malformed _
    dispatch_kind_malformed connected stops_modulator ne no_close = engine_message_malformed _
    dispatch_kind_malformed connected updates_modulator ne no_close = engine_message_malformed _
    dispatch_kind_malformed connected cc ne no_close = midi_message_malformed _
    dispatch_kind_malformed connected bend ne no_close = midi_message_malformed _
    dispatch_kind_malformed connected pressure ne no_close = midi_message_malformed _
    dispatch_kind_malformed connected system_exclusive ne no_close = midi_message_malformed _
    dispatch_kind_malformed connected tuning ne no_close = midi_message_malformed _
    dispatch_kind_malformed connected osc_send ne no_close = osc_message_malformed
    dispatch_kind_malformed connected eval ne no_close = on_map_malformed _
    dispatch_kind_malformed connected wasm_swap ne no_close = on_map_malformed _
    dispatch_kind_malformed connected unknown ne no_close = refl

    -- A message whose payload is empty, does not parse or is no map changes nothing and is not answered, whatever its type;
    -- only `session_open` and `session_close`, which have no payload, do something.
    pub dispatch_message_malformed :
        (connected : Bool) (type : ℕ)
        → type ≢ 0x31
        → type ≢ 0x32
        → dispatch_message h connected type payload c ≡ c
    unfolding dispatch_message
    dispatch_message_malformed connected type ne no_close =
        dispatch_kind_malformed connected (kind_of type) (opens_only type ne)
          (closes_only type no_close)
