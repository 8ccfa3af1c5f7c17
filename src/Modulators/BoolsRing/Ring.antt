-- ===== src/Modulators/BoolsRing/Ring.antt =====
-- The ring as its outputs.
use nomos_rt.Common.{
  ℕ, ◌^◌, Bool, true, false, bit_or, if◌then◌else◌, List, [], ◌∷◌, map, ◌≡◌, refl,
}
use nomos_rt.Modulators.Sources.{bit_at}
use nomos_rt.Modulators.BoolsRing.{RingMode, apply_logic, ring_bits, ring}

abbrev kept : ℕ → Bool → ℕ → ℕ
kept i b bitmap = if b then bit_or bitmap (2 ^ i) else bitmap

abbrev pub four : List ℕ
four = 0 ∷ 1 ∷ 2 ∷ 3 ∷ []

bits_back :
    (a b c d : Bool)
    → map (bit_at (kept 3 d (kept 2 c (kept 1 b (kept 0 a 0))))) four ≡ a ∷ b ∷ c ∷ d ∷ []
unfolding bit_at
bits_back true true true true = refl
bits_back true true true false = refl
bits_back true true false true = refl
bits_back true true false false = refl
bits_back true false true true = refl
bits_back true false true false = refl
bits_back true false false true = refl
bits_back true false false false = refl
bits_back false true true true = refl
bits_back false true true false = refl
bits_back false true false true = refl
bits_back false true false false = refl
bits_back false false true true = refl
bits_back false false true false = refl
bits_back false false false true = refl
bits_back false false false false = refl

-- For every mode and every four gates, the bits of the bitmap are the function of the mode applied to each gate and the
-- next, the last gate being followed by the first.
pub ring_outputs :
    (mode : RingMode) (a b c d : Bool)
    → map (bit_at (ring mode (a ∷ b ∷ c ∷ d ∷ []))) four
      ≡ apply_logic mode a b
        ∷ apply_logic mode b c
        ∷ apply_logic mode c d
        ∷ apply_logic mode d a
        ∷ []
unfolding ring_bits
ring_outputs mode a b c d =
    bits_back (apply_logic mode a b) (apply_logic mode b c) (apply_logic mode c d)
      (apply_logic mode d a)
