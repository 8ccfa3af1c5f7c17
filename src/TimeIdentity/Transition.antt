-- ===== src/TimeIdentity/Transition.antt =====
-- The audio thread calls `apply_if_ready` at the beat of each block.
use nomos_rt.Common.{
  ℕ, suc, Bool, true, false, Bool-cases, inl, inr, if◌then◌else◌, none, some, List, [], ◌∷◌, ◌≡◌,
  refl, ap,
}
use nomos_rt.TimeIdentity.{
  Timeline, PendingTransition, TimeIdentity, transition_ready, promote, apply_if_ready,
}

-- Some beat has reached the one of the transition.
abbrev pub reached : {V : Type 0} → (V → V → Bool) → V → List V → Bool
reached le at [] = false
reached le at (beat ∷ beats) = if le at beat then true else reached le at beats

module _ {V K : Type 0} (le : V → V → Bool) where
  -- The calls at some beats in a row: how many of them returned true, and what is left.
  abbrev pub blocks : List V → TimeIdentity V K → ℕ × TimeIdentity V K
  blocks [] t = (0, t)
  blocks (beat ∷ beats) t =
      let (done, t') = apply_if_ready le beat t in
      let (n, t'') = blocks beats t' in ((if done then suc n else n), t'')

  -- Without a transition nothing happens.
  settled :
      (beats : List V) (tl : Timeline V)
      → blocks beats (record { current = tl; pending = none })
        ≡ (0, record { current = tl; pending = none })
  unfolding apply_if_ready transition_ready
  settled [] tl = refl
  settled (beat ∷ beats) tl = settled beats tl

  -- A waiting transition is applied once, at the first block whose beat has reached it, and stays applied; until then the
  -- time line stays.
  pub blocks_lem :
      (beats : List V) (tl : Timeline V) (p : PendingTransition V K)
      → blocks beats (record { current = tl; pending = some p }) ≡ (
          if reached le p.apply_at beats
          then (1, record { current = p.tl; pending = none })
          else (0, record { current = tl; pending = some p }))
  unfolding apply_if_ready transition_ready promote
  blocks_lem [] tl p = refl
  blocks_lem (beat ∷ beats) tl p = elim (Bool-cases (le p.apply_at beat)) [
    | inl ready ↦ rw ready (ap (λ r. (suc r.0, r.1)) (settled beats p.tl))
    | inr early ↦ rw early (blocks_lem beats tl p)
  ]
