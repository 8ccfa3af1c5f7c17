-- ===== src/Control/Sound/Engine.antt =====
-- The messages for the modulator engine keep the state sound.
use nomos_rt.Common.{ℕ, Option, none, some, List, [], ◌∷◌, codes}
use nomos_rt.Edn.{Edn, Dictionary, Text}
use nomos_rt.Modulators.Engine.{ModulatorEngine}
use nomos_rt.Modulators.Engine.Table.{
  IsListed, start-IsListed, stop-IsListed, update_param-IsListed,
}
use nomos_rt.Control.Host.{Host}
use nomos_rt.Control.State.{Control, payload_map}
use nomos_rt.Control.Modulators.Messages.{
  start_made, start_named, start_checked, modulator_start, stop_named, stop_checked, modulator_stop,
  engine_payload, update_named, update_checked, modulator_update, engine_message,
}
use nomos_rt.Control.Sound.{Holds, IsSound, Keeps}

module _ (h : Host) where
  pub with_engine :
      (e : ModulatorEngine h.M h.O) (c : Control h)
      → IsListed e
      → IsSound c
      → IsSound (record c { engine = some e })
  with_engine e c v s = record {
    params_valid = s.params_valid;
    inputs_valid = s.inputs_valid;
    staging_valid = s.staging_valid;
    engine_listed = v;
  }

  pub start_made-IsListed :
      (id : Text) (o : Option h.M) (e : ModulatorEngine h.M h.O)
      → IsListed e
      → IsListed (start_made h id o e)
  unfolding start_made
  start_made-IsListed id none e v = v
  start_made-IsListed id (some m) e v = start-IsListed h.update_of h.tick_of id m e v

  pub start_named-IsListed :
      (id : Text) (type_v : Edn h.num.D) (m : Dictionary h.num.D) (e : ModulatorEngine h.M h.O)
      → IsListed e
      → IsListed (start_named h id type_v m e)
  unfolding start_named
  start_named-IsListed [] type_v m e v = v
  start_named-IsListed (b ∷ id) type_v m e v = start_made-IsListed (b ∷ id) _ e v

  pub start_checked-IsListed :
      (id_v type_v : Option (Edn h.num.D)) (m : Dictionary h.num.D) (e : ModulatorEngine h.M h.O)
      → IsListed e
      → IsListed (start_checked h id_v type_v m e)
  unfolding start_checked
  start_checked-IsListed none type_v m e v = v
  start_checked-IsListed (some id_v) none m e v = v
  start_checked-IsListed (some id_v) (some type_v) m e v = start_named-IsListed _ type_v m e v

  pub modulator_start-IsListed :
      (m : Dictionary h.num.D) (e : ModulatorEngine h.M h.O)
      → IsListed e
      → IsListed (modulator_start h m e)
  unfolding modulator_start
  modulator_start-IsListed m e v = start_checked-IsListed _ _ m e v

  pub stop_named-IsListed :
      (id : Text) (e : ModulatorEngine h.M h.O) → IsListed e → IsListed (stop_named h id e)
  unfolding stop_named
  stop_named-IsListed [] e v = v
  stop_named-IsListed (b ∷ id) e v = stop-IsListed h.update_of h.tick_of (b ∷ id) e v

  pub modulator_stop-IsListed :
      (m : Dictionary h.num.D) (e : ModulatorEngine h.M h.O)
      → IsListed e
      → IsListed (modulator_stop h m e)
  unfolding modulator_stop
  modulator_stop-IsListed m e v = stop_checked-IsListed (h.find_kw m (codes "id"))
    where
      stop_checked-IsListed : (o : Option (Edn h.num.D)) → IsListed (stop_checked h o e)
      stop_checked-IsListed none = v
      stop_checked-IsListed (some id_v) = stop_named-IsListed _ e v

  pub update_named-IsListed :
      (id key : Text) (value : h.num.F) (e : ModulatorEngine h.M h.O)
      → IsListed e
      → IsListed (update_named h id key value e)
  unfolding update_named
  update_named-IsListed [] key value e v = v
  update_named-IsListed (b ∷ id) [] value e v = v
  update_named-IsListed (b ∷ id) (k ∷ key) value e v =
      update_param-IsListed h.update_of h.tick_of (b ∷ id) (k ∷ key) value e v

  pub update_checked-IsListed :
      (id_v key_v value_v : Option (Edn h.num.D)) (e : ModulatorEngine h.M h.O)
      → IsListed e
      → IsListed (update_checked h id_v key_v value_v e)
  unfolding update_checked
  update_checked-IsListed none key_v value_v e v = v
  update_checked-IsListed (some id_v) none value_v e v = v
  update_checked-IsListed (some id_v) (some key_v) none e v = v
  update_checked-IsListed (some id_v) (some key_v) (some value_v) e v =
      update_named-IsListed _ _ _ e v

  pub modulator_update-IsListed :
      (m : Dictionary h.num.D) (e : ModulatorEngine h.M h.O)
      → IsListed e
      → IsListed (modulator_update h m e)
  unfolding modulator_update
  modulator_update-IsListed m e v = update_checked-IsListed _ _ _ e v

  pub engine_message-IsSound :
      (handle : Dictionary h.num.D → ModulatorEngine h.M h.O → ModulatorEngine h.M h.O)
      (payload : List ℕ)
      → ((m : Dictionary h.num.D) (e : ModulatorEngine h.M h.O)
          → IsListed e
          → IsListed (handle m e))
      → Keeps (engine_message h handle payload)
  unfolding engine_message
  engine_message-IsSound handle payload keep c s =
      engine_payload-IsSound (payload_map h payload) c.engine s.engine_listed
    where
      engine_payload-IsSound :
          (m : Option (Dictionary h.num.D)) (o : Option (ModulatorEngine h.M h.O))
          → Holds IsListed o
          → IsSound (engine_payload h handle m o c)
      engine_payload-IsSound none o v = s
      engine_payload-IsSound (some m) none v = s
      engine_payload-IsSound (some m) (some e) v = with_engine _ c (keep m e v) s
