-- ===== src/Control/Sound/Replies.antt =====
-- The messages that log, send and answer leave the queues and the engine alone.
use nomos_rt.Common.{ℕ, Bool, true, false, refl, Option, none, some, List, [], ◌∷◌}
use nomos_rt.Edn.{Dictionary, Text}
use nomos_rt.Control.Host.{Host}
use nomos_rt.Control.State.{payload_map}
use nomos_rt.Control.Osc.{osc_message, osc_payload}
use nomos_rt.Control.Midi.{midi_message, midi_payload, midi_of}
use nomos_rt.Control.Repl.{
  Destination, fennel, nous, vcvrack_tty, reply, evaluate, repl_eval, swap_module,
}
use nomos_rt.Control.Log.{session_message, session_payload}
use nomos_rt.Session.{Session}
use nomos_rt.Scheduler.{OscEvent}
use nomos_rt.Control.Sound.{Keeps, Leaves, Leaves-IsSound}

module _ (h : Host) where
  pub session_message-Leaves :
      (handle : Dictionary h.num.D → Session h.num.D → Session h.num.D) (payload : List ℕ)
      → Leaves (session_message h handle payload)
  unfolding session_message
  session_message-Leaves handle payload c =
      session_payload-Leaves (payload_map h payload) c.session c
    where
      session_payload-Leaves :
          (m : Option (Dictionary h.num.D)) (o : Option (Session h.num.D))
          → Leaves (session_payload h handle m o)
      session_payload-Leaves none o c = (refl, refl, refl, refl)
      session_payload-Leaves (some m) none c = (refl, refl, refl, refl)
      session_payload-Leaves (some m) (some s) c = (refl, refl, refl, refl)

  pub midi_payload-Leaves :
      (bytes : Option (List ℕ)) (o : Option (List (List ℕ))) → Leaves (midi_payload h bytes o)
  unfolding midi_payload
  midi_payload-Leaves bytes none c = (refl, refl, refl, refl)
  midi_payload-Leaves bytes (some sent) c = (refl, refl, refl, refl)

  pub osc_payload-Leaves :
      (m : Option (Dictionary h.num.D)) (o : Option (List OscEvent)) → Leaves (osc_payload h m o)
  unfolding osc_payload
  osc_payload-Leaves m none c = (refl, refl, refl, refl)
  osc_payload-Leaves m (some sent) c = (refl, refl, refl, refl)

  pub reply-Leaves :
      (connected : Bool) (type : ℕ) (text : Text) → Leaves (reply h connected type text)
  unfolding reply
  reply-Leaves true type text c = (refl, refl, refl, refl)
  reply-Leaves false type text c = (refl, refl, refl, refl)

  pub evaluate-Leaves :
      (dest : Destination) (src : Text) → Leaves {h = h} (λ c. (evaluate h dest src c).1)
  unfolding evaluate
  evaluate-Leaves fennel src c = (refl, refl, refl, refl)
  evaluate-Leaves nous src c = (refl, refl, refl, refl)
  evaluate-Leaves vcvrack_tty src c = (refl, refl, refl, refl)
  evaluate-Leaves Destination.unknown src c = (refl, refl, refl, refl)

  pub reply-IsSound :
      (connected : Bool) (type : ℕ) (text : Text) → Keeps (reply h connected type text)
  reply-IsSound connected type text =
      Leaves-IsSound (reply h connected type text) (reply-Leaves connected type text)

  pub evaluate-IsSound :
      (dest : Destination) (src : Text) → Keeps {h = h} (λ c. (evaluate h dest src c).1)
  evaluate-IsSound dest src =
      Leaves-IsSound (λ c. (evaluate h dest src c).1) (evaluate-Leaves dest src)

  pub with_swap : (swap : Option h.Swap) → Keeps {h = h} (λ c. record c { swap = swap })
  with_swap swap = Leaves-IsSound (λ c. record c { swap = swap }) (λ c. (refl, refl, refl, refl))

  pub midi_message-IsSound :
      (f : Dictionary h.num.D → Option (List ℕ)) (payload : List ℕ)
      → Keeps (midi_message h f payload)
  unfolding midi_message
  midi_message-IsSound f payload c s =
      Leaves-IsSound (midi_payload h (midi_of h f (payload_map h payload)) c.midi)
        (midi_payload-Leaves _ c.midi) c s

  pub osc_message-IsSound : (payload : List ℕ) → Keeps (osc_message h payload)
  unfolding osc_message
  osc_message-IsSound payload c s =
      Leaves-IsSound (osc_payload h (payload_map h payload) c.osc) (osc_payload-Leaves _ c.osc) c s

  pub repl_eval-IsSound :
      (connected : Bool) (m : Dictionary h.num.D) → Keeps (repl_eval h connected m)
  unfolding repl_eval
  repl_eval-IsSound connected m c s = reply-IsSound connected _ _ _ (evaluate-IsSound _ _ c s)

  pub swap_module-IsSound :
      (connected : Bool) (node path : Text) → Keeps (swap_module h connected node path)
  unfolding swap_module
  swap_module-IsSound connected node [] c s = s
  swap_module-IsSound connected node (b ∷ bs) c s = reply-IsSound connected _ _ _ (with_swap _ c s)
