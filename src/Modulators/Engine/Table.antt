-- ===== src/Modulators/Engine/Table.antt =====
-- The table lists each of its modulators once in the order of the ticks, whatever the control thread asks for.
use nomos_rt.Common.{
  ℕ, Bool-cases, inl, inr, Option, none, some, List, [], ◌∷◌, bytes_eq, bytes_eq_refl,
  eq_of_bytes_eq, ◌≡◌, ◌≢◌, ◌⊎◌, refl, ap, sym, ◌∙◌, subst, arith,
}
use nomos_rt.Modulators.Engine.{
  ModulatorId, find, assign, erase, remove, ModulatorEngine, appended, start, stop, update_mods,
  update_param,
}
use nomos_rt.Modulators.Engine.Maps.{
  different, find-assign, find-assign_ne, find-erase, find-erase_ne, count, count-append,
  count-remove, count-remove_ne,
}

abbrev pub presence : {A : Type 0} → Option A → ℕ
presence none = 0
presence (some a) = 1

-- An id stands once in the tick order if the table has a modulator for it, and otherwise not at all.
abbrev pub IsListed : {M O : Type 0} → ModulatorEngine M O → Type 0
IsListed e = (id : ModulatorId) → count id e.tick_order ≡ presence (find id e.mods)

-- Two ids are the same or not.
pub same_or_not : (a b : ModulatorId) → (a ≡ b) ⊎ (a ≢ b)
same_or_not a b = elim (Bool-cases (bytes_eq a b)) [
  | inl same ↦ inl (eq_of_bytes_eq a b same)
  | inr other ↦ inr (λ e. ground (arith, other, bytes_eq_refl a, e))
]

module _ {M O V B : Type 0} (update_of : List ℕ → V → M → M)
    (tick_of : (ModulatorId → Option O) → B → V → M → O × M) where
  count-appended :
      (id : ModulatorId) (o : Option M) (ids : List ModulatorId)
      → count id ids ≡ presence o
      → count id (appended update_of tick_of o id ids) ≡ 1
  unfolding appended
  count-appended id none ids h =
      count-append id ids (id ∷ []) ∙ rw (bytes_eq_refl id) (omega (arith, h))
  count-appended id (some m) ids h = h

  count-appended_ne :
      (id other : ModulatorId) (o : Option M) (ids : List ModulatorId)
      → id ≢ other
      → count other (appended update_of tick_of o id ids) ≡ count other ids
  unfolding appended
  count-appended_ne id other none ids ne =
      count-append other ids (id ∷ []) ∙ rw (different id other ne) (omega arith)
  count-appended_ne id other (some m) ids ne = refl

  -- An assignment to an id that the table has keeps the ids of the table.
  pub presence-assign :
      (id other : ModulatorId) (m n : M) (mods : List (ModulatorId × M))
      → find id mods ≡ some m
      → presence (find other (assign id n mods)) ≡ presence (find other mods)
  presence-assign id other m n mods h = elim (same_or_not id other) [
    | inl same ↦
        ap (λ k. presence (find k (assign id n mods))) (sym same)
        ∙ ap presence (find-assign id n mods)
        ∙ sym (ap presence h)
        ∙ ap (λ k. presence (find k mods)) same
    | inr ne ↦ ap presence (find-assign_ne id other n mods ne)
  ]

  pub start-IsListed :
      (id : ModulatorId) (m : M) (e : ModulatorEngine M O)
      → IsListed e
      → IsListed (start update_of tick_of id m e)
  unfolding start
  start-IsListed id m e h other = elim (same_or_not id other) [
    | inl same ↦
        subst
          (λ k.
            count k (appended update_of tick_of (find id e.mods) id e.tick_order)
            ≡ presence (find k (assign id m e.mods)))
          same
          (count-appended id (find id e.mods) e.tick_order (h id)
            ∙ sym (ap presence (find-assign id m e.mods)))
    | inr ne ↦
        count-appended_ne id other (find id e.mods) e.tick_order ne
        ∙ h other
        ∙ sym (ap presence (find-assign_ne id other m e.mods ne))
  ]

  pub stop-IsListed :
      (id : ModulatorId) (e : ModulatorEngine M O)
      → IsListed e
      → IsListed (stop update_of tick_of id e)
  unfolding stop
  stop-IsListed id e h other = elim (same_or_not id other) [
    | inl same ↦
        subst (λ k. count k (remove id e.tick_order) ≡ presence (find k (erase id e.mods))) same
          (count-remove id e.tick_order ∙ sym (ap presence (find-erase id e.mods)))
    | inr ne ↦
        count-remove_ne id other e.tick_order ne
        ∙ h other
        ∙ sym (ap presence (find-erase_ne id other e.mods ne))
  ]

  update_mods-presence :
      (id other : ModulatorId) (change : M → M) (o : Option M) (mods : List (ModulatorId × M))
      → find id mods ≡ o
      → presence (find other (update_mods update_of tick_of id change o mods))
        ≡ presence (find other mods)
  unfolding update_mods
  update_mods-presence id other change none mods h = refl
  update_mods-presence id other change (some m) mods h =
      presence-assign id other m (change m) mods h

  pub update_param-IsListed :
      (id : ModulatorId) (key : List ℕ) (value : V) (e : ModulatorEngine M O)
      → IsListed e
      → IsListed (update_param update_of tick_of id key value e)
  unfolding update_param
  update_param-IsListed id key value e h other =
      h other
      ∙ sym (update_mods-presence id other (update_of key value) (find id e.mods) e.mods refl)

  -- `start`, `stop` and `update_param` keep the table listed.
  pub control-IsListed :
      (id : ModulatorId) (m : M) (key : List ℕ) (value : V) (e : ModulatorEngine M O)
      → IsListed e
      → IsListed (start update_of tick_of id m e)
        × IsListed (stop update_of tick_of id e)
        × IsListed (update_param update_of tick_of id key value e)
  control-IsListed id m key value e h =
      (start-IsListed id m e h, stop-IsListed id e h, update_param-IsListed id key value e h)

  -- After `start` the table has the modulator for its id, after `stop` it has none and does not tick the id, and other ids
  -- keep theirs.
  pub start_and_stop :
      (id other : ModulatorId) (m : M) (e : ModulatorEngine M O)
      → id ≢ other
      → let started = start update_of tick_of id m e in
        let stopped = stop update_of tick_of id e in
        (find id started.mods ≡ some m)
        × (find other started.mods ≡ find other e.mods)
        × (count other started.tick_order ≡ count other e.tick_order)
        × (find id stopped.mods ≡ none)
        × (count id stopped.tick_order ≡ 0)
        × (find other stopped.mods ≡ find other e.mods)
        × (count other stopped.tick_order ≡ count other e.tick_order)
  unfolding start stop
  start_and_stop id other m e ne = (
    find-assign id m e.mods,
    find-assign_ne id other m e.mods ne,
    count-appended_ne id other (find id e.mods) e.tick_order ne,
    find-erase id e.mods,
    count-remove id e.tick_order,
    find-erase_ne id other e.mods ne,
    count-remove_ne id other e.tick_order ne,
  )
