-- ===== src/Modulators/Statues/Slots.antt =====
-- What the slots hold.
use nomos_rt.Common.{
  ℕ, zero, suc, replicate, ◌<◌, ◌==◌, if◌then◌else◌, List, [], ◌∷◌, length, set, get_or, ◌≡◌, refl,
  sym, ap, ◌∙◌, length-set, get_or-set_self, get_or-set_ne, arith,
}
use native.Mathlib.Decide.{ℕ_discrete}
use nomos_rt.Edn.{Text}
use nomos_rt.Modulators.Floats.{Floats}
use nomos_rt.Modulators.Sources.{Engine}
use nomos_rt.Modulators.Statues.{Statues, make_statues, address, in_value, tick, update}

module _ (fl : Floats) where
  open fl use {F, lit}

  pub data Call : Type 0 where
    ticked : Engine fl → Call
    updated : Text → F → Call

  unfoldable pub step : Call → Statues fl → Statues fl
  step (ticked engine) s = (tick fl engine s).1
  step (updated key value) s = update fl key value s

  unfoldable pub run : List Call → Statues fl → Statues fl
  run [] s = s
  run (c ∷ calls) s = run calls (step c s)

  -- What the ticks write, with the address of each.
  unfoldable pub written : Call → Statues fl → List (ℕ × F) → List (ℕ × F)
  written (ticked engine) s later = (address fl engine s, in_value fl engine s) ∷ later
  written (updated key value) s later = later

  unfoldable pub writes : List Call → Statues fl → List (ℕ × F)
  unfolding written
  writes [] s = []
  writes (c ∷ calls) s = written c s (writes calls (step c s))

  unfoldable pub latest : ℕ → List (ℕ × F) → F → F
  latest j [] x = x
  latest j ((i, v) ∷ later) x = latest j later (if i == j then v else x)

  update-slots : (key : Text) (value : F) (s : Statues fl) → (update fl key value s).slots ≡ s.slots
  unfolding update
  update-slots key value s = ground arith

  get_or-set :
      (xs : List F) (i j : ℕ) (v z : F)
      → i < length xs
      → get_or (set xs i v) j z ≡ (if i == j then v else get_or xs j z)
  get_or-set xs i j v z h = elim (ℕ_discrete i j) [
    | yes e ↦ ground (arith, ap (λ k. get_or (set xs i v) k z) (sym e) ∙ get_or-set_self xs i v z h)
    | no ne ↦ ground (arith, get_or-set_ne xs i j v z ne)
  ]

  blank_slot : (n j : ℕ) (x : F) → get_or (replicate n x) j x ≡ x
  blank_slot zero j x = refl
  blank_slot (suc n) zero x = refl
  blank_slot (suc n) (suc j) x = blank_slot n j x

  address-lt : (engine : Engine fl) (s : Statues fl) → address fl engine s < 8
  unfolding address
  address-lt engine s = omega arith

  run-slots :
      (calls : List Call) (s : Statues fl) (j : ℕ)
      → length s.slots ≡ 8
      → get_or (run calls s).slots j (lit 0 1)
        ≡ latest j (writes calls s) (get_or s.slots j (lit 0 1))
  unfolding run writes latest step tick
  run-slots [] s j eight = refl
  run-slots (ticked engine ∷ calls) s j eight =
      run-slots calls (tick fl engine s).1 j (length-set s.slots _ _ ∙ eight)
      ∙ ap (latest j (writes calls (tick fl engine s).1)) (
          get_or-set s.slots (address fl engine s) j _ _
            (omega (arith, eight, address-lt engine s)))
  run-slots (updated key value ∷ calls) s j eight =
      run-slots calls (update fl key value s) j (ap length (update-slots key value s) ∙ eight)
      ∙ ap (λ xs. latest j (writes calls (update fl key value s)) (get_or xs j (lit 0 1)))
          (update-slots key value s)

  -- After any ticks and updates from the start, each of the eight slots holds what the latest tick with its address has
  -- written, or 0 where there was none, and addresses are below eight.
  pub slots_hold :
      (in_source addr_source : Text) (calls : List Call) (engine : Engine fl) (j : ℕ)
      → let start = make_statues fl in_source addr_source in
        (get_or (run calls start).slots j (lit 0 1) ≡ latest j (writes calls start) (lit 0 1))
        × ((tick fl engine (run calls start)).0.state < 8)
  unfolding make_statues tick
  slots_hold in_source addr_source calls engine j =
      let start = make_statues fl in_source addr_source in
      (
        run-slots calls start j refl
            ∙ ap (latest j (writes calls start)) (blank_slot 8 j (lit 0 1)),
        address-lt engine (run calls start),
      )
