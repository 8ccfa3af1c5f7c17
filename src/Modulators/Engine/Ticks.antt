-- ===== src/Modulators/Engine/Ticks.antt =====
-- What a tick gives to the callback, and what it leaves.
use nomos_rt.Common.{
  All, ℕ, suc, ◌≤◌, true, false, Bool-cases, inl, inr, if◌then◌else◌, Option, none, some, List, [],
  ◌∷◌, ◌++◌, bytes_eq, bytes_eq_refl, ◌≡◌, ◌⊎◌, refl, ap, ap₂, sym, ◌∙◌, subst, arith,
}
use nomos_rt.Modulators.Engine.{
  ModulatorId, find, assign, ModulatorEngine, last_output, tick_one, tick_each, tick,
}
use nomos_rt.Modulators.Engine.Maps.{count, find-assign, find-assign_ne, different}
use nomos_rt.Modulators.Engine.Table.{presence, IsListed, presence-assign, same_or_not}

-- The ids of the outputs that the callback receives.
abbrev pub ids_of : {O : Type 0} → List (ModulatorId × O) → List ModulatorId
ids_of [] = []
ids_of ((id, out) ∷ outs) = id ∷ ids_of outs

ids_of-append :
    {O : Type 0} (xs ys : List (ModulatorId × O)) → ids_of (xs ++ ys) ≡ ids_of xs ++ ids_of ys
ids_of-append [] ys = refl
ids_of-append ((id, out) ∷ xs) ys = ap (◌∷◌ id) (ids_of-append xs ys)

-- Each id of a list that counts no more than the table has is in the table.
count-presence :
    {M : Type 0} (mods : List (ModulatorId × M)) (ids : List ModulatorId)
    → ((id : ModulatorId) → count id ids ≤ presence (find id mods))
    → All (λ id. presence (find id mods) ≡ 1) ids
count-presence mods [] h = tt
count-presence mods (x ∷ ids) h = (
  one (find x mods) (count x ids) (
      subst (λ b. (if b then suc (count x ids) else count x ids) ≤ presence (find x mods))
        (bytes_eq_refl x) (h x)),
  count-presence mods ids (λ id. more id (Bool-cases (bytes_eq x id)) (h id)),
)
  where
    one : {A : Type 0} (o : Option A) (n : ℕ) → suc n ≤ presence o → presence o ≡ 1
    one none n l = absurd (omega arith)
    one (some a) n l = refl

    more :
        (id : ModulatorId)
        → (bytes_eq x id ≡ true) ⊎ (bytes_eq x id ≡ false)
        → (if bytes_eq x id then suc (count id ids) else count id ids) ≤ presence (find id mods)
        → count id ids ≤ presence (find id mods)
    more id c l = ground (arith, c)

module _ {M O V B : Type 0} (update_of : List ℕ → V → M → M)
    (tick_of : (ModulatorId → Option O) → B → V → M → O × M) where
  tick_one_lem :
      (beat : B) (rate : V) (id : ModulatorId) (o : Option M) (e : ModulatorEngine M O)
      → find id e.mods ≡ o
      → let (outs, e') = tick_one update_of tick_of beat rate id o e in
        ((other : ModulatorId) → presence (find other e'.mods) ≡ presence (find other e.mods))
        × (e'.tick_order ≡ e.tick_order)
        × (presence o ≡ 1 → ids_of outs ≡ id ∷ [])
  unfolding tick_one
  tick_one_lem beat rate id none e h = (λ other. refl, refl, λ one. absurd (omega (arith, one)))
  tick_one_lem beat rate id (some m) e h =
      (λ other. presence-assign update_of tick_of id other m _ e.mods h, refl, λ one. refl)

  presence-transfer :
      (mods mods' : List (ModulatorId × M)) (ids : List ModulatorId)
      → ((other : ModulatorId) → presence (find other mods') ≡ presence (find other mods))
      → All (λ id. presence (find id mods) ≡ 1) ids
      → All (λ id. presence (find id mods') ≡ 1) ids
  presence-transfer mods mods' [] same h = tt
  presence-transfer mods mods' (x ∷ ids) same (h, hs) =
      (same x ∙ h, presence-transfer mods mods' ids same hs)

  tick_each_lem :
      (beat : B) (rate : V) (ids : List ModulatorId) (e : ModulatorEngine M O)
      → All (λ id. presence (find id e.mods) ≡ 1) ids
      → let (outs, e') = tick_each update_of tick_of beat rate ids e in
        ((other : ModulatorId) → presence (find other e'.mods) ≡ presence (find other e.mods))
        × (e'.tick_order ≡ e.tick_order)
        × (ids_of outs ≡ ids)
  unfolding tick_each
  tick_each_lem beat rate [] e h = (λ other. refl, refl, refl)
  tick_each_lem beat rate (id ∷ ids) e (h, hs) =
      let one = tick_one update_of tick_of beat rate id (find id e.mods) e in
      let a = tick_one_lem beat rate id (find id e.mods) e refl in
      let b =
        tick_each_lem beat rate ids one.1 (presence-transfer e.mods (one.1).mods ids a.0 hs) in
      (
        λ other. b.0 other ∙ a.0 other,
        b.1 ∙ a.1,
        ids_of-append one.0 (tick_each update_of tick_of beat rate ids one.1).0
            ∙ ap₂ ◌++◌ (a.2 h) b.2,
      )

  -- A tick of a listed table gives the callback one output of each modulator, in the tick order, and keeps the order and
  -- the table listed.
  pub tick-IsListed :
      (beat : B) (rate : V) (e : ModulatorEngine M O)
      → IsListed e
      → let (outs, e') = tick update_of tick_of beat rate e in
        (ids_of outs ≡ e.tick_order) × (e'.tick_order ≡ e.tick_order) × IsListed e'
  unfolding tick
  tick-IsListed beat rate e h =
      let r =
        tick_each_lem beat rate e.tick_order e
          (count-presence e.mods e.tick_order (λ id. omega (arith, h id))) in
      (r.2, r.1, λ id. ap (count id) r.1 ∙ h id ∙ sym (r.0 id))

  -- The output of an id after some more outputs: the latest one.
  abbrev pub latest : ModulatorId → List (ModulatorId × O) → Option O → Option O
  latest id [] old = old
  latest id ((key, out) ∷ outs) old = latest id outs (if bytes_eq key id then some out else old)

  latest-append :
      (id : ModulatorId) (xs ys : List (ModulatorId × O)) (old : Option O)
      → latest id (xs ++ ys) old ≡ latest id ys (latest id xs old)
  latest-append id [] ys old = refl
  latest-append id ((key, out) ∷ xs) ys old = latest-append id xs ys _

  find-assign_if :
      (key id : ModulatorId) (out : O) (outs : List (ModulatorId × O))
      → find id (assign key out outs) ≡ (if bytes_eq key id then some out else find id outs)
  find-assign_if key id out outs = elim (same_or_not key id) [
    | inl same ↦
        subst
          (λ k. find k (assign key out outs) ≡ (if bytes_eq key k then some out else find k outs))
          same (rw (bytes_eq_refl key) (find-assign key out outs))
    | inr ne ↦ rw (different key id ne) (find-assign_ne key id out outs ne)
  ]

  tick_one-last_output :
      (beat : B) (rate : V) (key id : ModulatorId) (o : Option M) (e : ModulatorEngine M O)
      → let (outs, e') = tick_one update_of tick_of beat rate key o e in
        last_output update_of tick_of id e' ≡ latest id outs (last_output update_of tick_of id e)
  unfolding tick_one last_output
  tick_one-last_output beat rate key id none e = refl
  tick_one-last_output beat rate key id (some m) e = find-assign_if key id _ e.last_outputs

  tick_each-last_output :
      (beat : B) (rate : V) (ids : List ModulatorId) (id : ModulatorId) (e : ModulatorEngine M O)
      → let (outs, e') = tick_each update_of tick_of beat rate ids e in
        last_output update_of tick_of id e' ≡ latest id outs (last_output update_of tick_of id e)
  unfolding tick_each
  tick_each-last_output beat rate [] id e = refl
  tick_each-last_output beat rate (key ∷ ids) id e =
      let one = tick_one update_of tick_of beat rate key (find key e.mods) e in
      tick_each-last_output beat rate ids id one.1
      ∙ ap (latest id (tick_each update_of tick_of beat rate ids one.1).0)
          (tick_one-last_output beat rate key id (find key e.mods) e)
      ∙ sym (latest-append id one.0 (tick_each update_of tick_of beat rate ids one.1).0 _)

  -- After a tick the recorded output of each id is the latest that the callback received for it, and
  -- the one recorded before if it received none.
  pub tick-last_output :
      (beat : B) (rate : V) (id : ModulatorId) (e : ModulatorEngine M O)
      → let (outs, e') = tick update_of tick_of beat rate e in
        last_output update_of tick_of id e' ≡ latest id outs (last_output update_of tick_of id e)
  unfolding tick
  tick-last_output beat rate id e = tick_each-last_output beat rate e.tick_order id e
