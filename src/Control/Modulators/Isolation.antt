-- ===== src/Control/Modulators/Isolation.antt =====
-- Which modulators of the engine a message changes.
use nomos_rt.Common.{◌≡◌, ◌≢◌, refl, ap, ◌∙◌, Option, none, some, List, [], ◌∷◌, codes}
use nomos_rt.Edn.{Edn, Dictionary, Text}
use nomos_rt.Modulators.Engine as Engine
use nomos_rt.Modulators.Engine.{ModulatorEngine, find, update_mods}
use nomos_rt.Modulators.Engine.Maps.{count, find-assign_ne}
use nomos_rt.Modulators.Engine.Table.{start_and_stop}
use nomos_rt.Control.Host.{Host}
use nomos_rt.Control.Modulators.{name_in, keyword_or_empty}
use nomos_rt.Control.Modulators.Messages.{
  make_modulator, start_made, start_named, start_checked, modulator_start, stop_named, stop_checked,
  modulator_stop, update_named, update_checked, modulator_update,
}

module _ (h : Host) where
  open h use {num, M, O, find_kw}

  update_mods-other :
      (id other : Text) (change : M → M) (o : Option M) (mods : List (Text × M))
      → id ≢ other
      → find other (update_mods h.update_of h.tick_of id change o mods) ≡ find other mods
  unfolding update_mods
  update_mods-other id other change none mods ne = refl
  update_mods-other id other change (some m) mods ne = find-assign_ne id other (change m) mods ne

  update_named-other :
      (id key other : Text) (value : num.F) (e : ModulatorEngine M O)
      → id ≢ other
      → find other (update_named h id key value e).mods ≡ find other e.mods
  unfolding update_named Engine.update_param
  update_named-other [] key other value e ne = refl
  update_named-other (b ∷ id) [] other value e ne = refl
  update_named-other (b ∷ id) (k ∷ key) other value e ne =
      update_mods-other (b ∷ id) other _ (find (b ∷ id) e.mods) e.mods ne

  update_checked-other :
      (id_v : Edn num.D) (key_v value_v : Option (Edn num.D)) (other : Text)
      (e : ModulatorEngine M O)
      → name_in id_v ≢ other
      → find other (update_checked h (some id_v) key_v value_v e).mods ≡ find other e.mods
  unfolding update_checked
  update_checked-other id_v none value_v other e ne = refl
  update_checked-other id_v (some key_v) none other e ne = refl
  update_checked-other id_v (some key_v) (some value_v) other e ne =
      update_named-other _ _ other _ e ne

  start_named-cons :
      (id : Text) (type_v : Edn num.D) (m : Dictionary num.D) (made : M) (e : ModulatorEngine M O)
      → id ≢ []
      → make_modulator h (keyword_or_empty (some type_v)) m ≡ some made
      → start_named h id type_v m e ≡ Engine.start h.update_of h.tick_of id made e
  unfolding start_named start_made
  start_named-cons [] type_v m made e ne maker = absurd (ne refl)
  start_named-cons (b ∷ id) type_v m made e ne maker = rw maker

  stop_named-cons :
      (id : Text) (e : ModulatorEngine M O)
      → id ≢ []
      → stop_named h id e ≡ Engine.stop h.update_of h.tick_of id e
  unfolding stop_named
  stop_named-cons [] e ne = absurd (ne refl)
  stop_named-cons (b ∷ id) e ne = refl

  -- For a message whose id is a keyword or a text that is not empty, and whose type makes a modulator: after
  -- `modulator_start` the engine has that modulator under the id, after `modulator_stop` it has none there and does not
  -- tick the id; and these two messages and `modulator_update` leave the modulator of every other id as it is.
  pub modulator_messages_isolated :
      (m : Dictionary num.D) (id_v type_v : Edn num.D) (made : M) (other : Text)
      (e : ModulatorEngine M O)
      → find_kw m (codes "id") ≡ some id_v
      → find_kw m (codes "type") ≡ some type_v
      → name_in id_v ≢ []
      → make_modulator h (keyword_or_empty (some type_v)) m ≡ some made
      → name_in id_v ≢ other
      → let started = modulator_start h m e in
        let stopped = modulator_stop h m e in
        (find (name_in id_v) started.mods ≡ some made)
        × (find other started.mods ≡ find other e.mods)
        × (find (name_in id_v) stopped.mods ≡ none)
        × (count (name_in id_v) stopped.tick_order ≡ 0)
        × (find other stopped.mods ≡ find other e.mods)
        × (find other (modulator_update h m e).mods ≡ find other e.mods)
  unfolding modulator_start start_checked modulator_stop stop_checked modulator_update
  modulator_messages_isolated m id_v type_v made other e id type named maker ne =
      let r = start_and_stop h.update_of h.tick_of (name_in id_v) other made e ne in
      let started =
        (λ i. start_checked h (id i) (type i) m e)
        ∙ start_named-cons (name_in id_v) type_v m made e named maker in
      let stopped = (λ i. stop_checked h (id i) e) ∙ stop_named-cons (name_in id_v) e named in
      (
        ap (λ s. find (name_in id_v) s.mods) started ∙ r.0,
        ap (λ s. find other s.mods) started ∙ r.1,
        ap (λ s. find (name_in id_v) s.mods) stopped ∙ r.3,
        ap (λ s. count (name_in id_v) s.tick_order) stopped ∙ r.4,
        ap (λ s. find other s.mods) stopped ∙ r.5,
        ap
              (λ o.
                find other
                  (update_checked h o (find_kw m (codes "key")) (find_kw m (codes "value")) e).mods)
              id
            ∙ update_checked-other id_v (find_kw m (codes "key")) (find_kw m (codes "value")) other
                e ne,
      )
