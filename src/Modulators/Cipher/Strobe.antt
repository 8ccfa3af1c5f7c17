-- ===== src/Modulators/Cipher/Strobe.antt =====
-- The strobe hides the inner register and does not touch it.
use nomos_rt.Common.{
  ℕ, true, false, if◌then◌else◌, List, [], ◌∷◌, ◌++◌, ◌≡◌, refl, sym, ap, ap₂, ◌∙◌,
}
use nomos_rt.Edn.{Text}
use nomos_rt.Modulators.Floats.{Floats}
use nomos_rt.Modulators.Sources.{Engine}
use nomos_rt.Modulators.Cipher.{Cipher, read_gate_level, shifted, strobed, bit_in, tick}

module _ (fl : Floats) where
  open fl use {F}

  unfoldable pub ticks : List (Engine fl) → Cipher fl → Cipher fl
  ticks [] s = s
  ticks (engine ∷ calls) s = ticks calls (tick fl engine s).1

  -- The clock and the inner register alone.
  unfoldable pub shifts : List (Engine fl) → Cipher fl → Cipher fl
  shifts [] s = s
  shifts (engine ∷ calls) s = shifts calls (shifted fl engine s)

  -- The strobe is high at each of the ticks.
  pub data IsHeld (src : Text) (level : F) : List (Engine fl) → Type 0 where
    none_left : IsHeld src level []
    held :
        {engine : Engine fl} {calls : List (Engine fl)}
        → read_gate_level fl engine src level ≡ true
        → IsHeld src level calls
        → IsHeld src level (engine ∷ calls)

  ticks-shifts :
      (calls : List (Engine fl)) (s : Cipher fl) (out : ℕ)
      → record (ticks calls (record s { output_reg = out })) { output_reg = 0 }
        ≡ record (shifts calls s) { output_reg = 0 }
  unfolding ticks shifts tick shifted strobed bit_in
  ticks-shifts [] s out = refl
  ticks-shifts (engine ∷ calls) s out = ticks-shifts calls (shifted fl engine s) (
      if read_gate_level fl engine s.strobe_src s.strobe
      then out
      else (shifted fl engine s).inner_reg)

  ticks-held :
      {src : Text} {level : F} {calls : List (Engine fl)}
      → IsHeld src level calls
      → (s : Cipher fl) → s.strobe_src ≡ src
      → s.strobe ≡ level
      → (ticks calls s).output_reg ≡ s.output_reg
  unfolding ticks tick strobed shifted
  ticks-held none_left s same_src same_level = refl
  ticks-held (held {engine} active later) s same_src same_level =
      ticks-held later (tick fl engine s).1 same_src same_level
      ∙ ap (λ b. if b then s.output_reg else (shifted fl engine s).inner_reg)
          (ap₂ (read_gate_level fl engine) same_src same_level ∙ active)

  ticks-strobe :
      (calls : List (Engine fl)) (s : Cipher fl)
      → ((ticks calls s).strobe_src ≡ s.strobe_src) × ((ticks calls s).strobe ≡ s.strobe)
  unfolding ticks tick strobed shifted
  ticks-strobe [] s = (refl, refl)
  ticks-strobe (engine ∷ calls) s = ticks-strobe calls (tick fl engine s).1

  ticks-later :
      (calls : List (Engine fl)) (engine : Engine fl) (s : Cipher fl)
      → ticks (calls ++ engine ∷ []) s ≡ (tick fl engine (ticks calls s)).1
  unfolding ticks
  ticks-later [] engine s = refl
  ticks-later (e ∷ calls) engine s = ticks-later calls engine (tick fl e s).1

  -- While the strobe is high the output register keeps its value; at the first tick with a low strobe the output is what
  -- the inner register holds after all of these ticks, as if there were no strobe.
  pub strobe_freezes :
      (s : Cipher fl) (calls : List (Engine fl)) (engine : Engine fl)
      → IsHeld s.strobe_src s.strobe calls
      → read_gate_level fl engine s.strobe_src s.strobe ≡ false
      → ((ticks calls s).output_reg ≡ s.output_reg)
        × ((tick fl engine (ticks calls s)).0.state ≡ (shifts (calls ++ engine ∷ []) s).inner_reg)
  unfolding tick strobed
  strobe_freezes s calls engine high low =
      let kept = ticks-strobe calls s in
      let released : read_gate_level fl engine (ticks calls s).strobe_src (ticks calls s).strobe
          ≡ false =
        rw (kept.0, kept.1) low in
      (
        ticks-held high s refl refl,
        ap
              (λ b.
                if b
                then (ticks calls s).output_reg
                else (shifted fl engine (ticks calls s)).inner_reg)
              released
            ∙ ap (λ t. t.inner_reg) (sym (ticks-later calls engine s))
            ∙ ap (λ t. t.inner_reg) (ticks-shifts (calls ++ engine ∷ []) s s.output_reg),
      )
