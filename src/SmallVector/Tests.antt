-- ===== src/SmallVector/Tests.antt =====
-- Runs of the bounded vector, and its theorems at concrete vectors.
use nomos_rt.Common.{List, ℕ, false, [], ◌∷◌, ◌≡◌, refl}
use nomos_rt.SmallVector.{SmallVector, append, contents, is_full, clear}

abbrev two_of_four : SmallVector ℕ
two_of_four = record { elements = 1 ∷ 2 ∷ 8 ∷ 9 ∷ []; size = 2 }

append_too_long : append 4 (3 ∷ 4 ∷ 5 ∷ []) two_of_four ≡ (false, two_of_four)
unfolding append
append_too_long = refl

full_then_cleared : (is_full 4 two_of_four ≡ false) × (contents (clear two_of_four) ≡ [])
unfolding is_full clear
full_then_cleared = (refl, refl)

abbrev three : List ℕ
three = 5 ∷ 6 ∷ 7 ∷ []
