-- ===== src/SmallVector/Laws.antt =====
-- A valid vector is the list of its first `size` elements.
use nomos_rt.Common.{
  replicate, ℕ, suc, ◌+◌, ◌-◌, ◌≤◌, ltb, leb, if◌then◌else◌, List, [], ◌∷◌, ◌++◌, length, set, take,
  length-set, length-replicate, length-take, take-set, take-nil, take-cons, ◌≡◌, refl, ap, sym, ◌∙◌,
  arith, append_assoc, append-nil,
}
use native.Mathlib.Decide.{ℕ_discrete}
use nomos_rt.SmallVector.{
  SmallVector, empty_vector, push_back, copy_from, append, fill_from, of_list, contents,
}

pub record IsValid {ℓ} {A : Type ℓ} (capacity : ℕ) (v : SmallVector A) : Type 0 where
  pub storage : length v.elements ≡ capacity
  pub within : v.size ≤ capacity

module _ {A : Type 0} (capacity : ℕ) where
  pub length-contents : {v : SmallVector A} → IsValid capacity v → length (contents v) ≡ v.size
  length-contents {v} h = omega (arith, length-take v.size v.elements)

  pub empty_vector_lem :
      (blank : A)
      → IsValid capacity (empty_vector capacity blank)
        × (contents (empty_vector capacity blank) ≡ [])
  unfolding empty_vector
  empty_vector_lem blank = ground (arith, length-replicate capacity blank)

  -- `push_back` adds the element at the end, or, if the vector is full, returns false and changes
  -- nothing; it keeps the vector valid.
  pub push_back_lem :
      (x : A) {v : SmallVector A}
      → IsValid capacity v
      → let (done, w) = push_back capacity x v in
        IsValid capacity w
        × (done ≡ ltb v.size capacity)
        × (contents w ≡ (if done then contents v ++ x ∷ [] else contents v))
  unfolding push_back
  push_back_lem x {v} h =
      ground (arith, length-set v.elements v.size x, take-set v.elements v.size x)

  length-copy_from :
      (src : List A) (at : ℕ) (xs : List A) → length (copy_from src at xs) ≡ length xs
  unfolding copy_from
  length-copy_from [] at xs = refl
  length-copy_from (x ∷ src) at xs =
      length-copy_from src (suc at) (set xs at x) ∙ length-set xs at x

  take-copy_from :
      (src : List A) (at : ℕ) (xs : List A)
      → at + length src ≤ length xs
      → take (at + length src) (copy_from src at xs) ≡ take at xs ++ src
  unfolding copy_from
  take-copy_from [] at xs h = ap (λ n. take n xs) (plus_zero at) ∙ sym (append-nil (take at xs))
    where
      plus_zero : (n : ℕ) → n + 0 ≡ n
      plus_zero n = omega arith
  take-copy_from (x ∷ src) at xs h =
      ap (λ n. take n (copy_from src (suc at) (set xs at x))) (plus_suc at (length src))
      ∙ take-copy_from src (suc at) (set xs at x) (omega (arith, length-set xs at x))
      ∙ ap (λ ys. ys ++ src) (take-set xs at x (omega arith))
      ∙ append_assoc (take at xs) (x ∷ []) src
    where
      plus_suc : (m n : ℕ) → m + suc n ≡ suc m + n
      plus_suc m n = omega arith

  -- `append` adds all of the elements at the end if they fit, and otherwise returns false and
  -- changes nothing; it keeps the vector valid.
  pub append_lem :
      (src : List A) {v : SmallVector A}
      → IsValid capacity v
      → let (done, w) = append capacity src v in
        IsValid capacity w
        × (done ≡ leb (v.size + length src) capacity)
        × (contents w ≡ (if done then contents v ++ src else contents v))
  unfolding append
  append_lem src {v} h =
      ground (arith, length-copy_from src v.size v.elements, take-copy_from src v.size v.elements)

  fill_from_lem :
      (init : List A) {v : SmallVector A}
      → IsValid capacity v
      → IsValid capacity (fill_from capacity init v)
        × (contents (fill_from capacity init v) ≡ contents v ++ take (capacity - v.size) init)
  unfolding fill_from
  fill_from_lem [] {v} h =
      (h, ground (arith, append-nil (contents v), take-nil A (capacity - v.size)))
  fill_from_lem (x ∷ init) {v} h =
      let w : SmallVector A = record { elements = set v.elements v.size x; size = v.size + 1 } in
      elim (ℕ_discrete v.size capacity) [
        | yes e ↦ ground (arith, append-nil (contents v))
        | no ne ↦ ground (
          arith,
          fill_from_lem init {v = w},
          length-set v.elements v.size x,
          take-set v.elements v.size x,
          take-cons (capacity - v.size) x init,
          append_assoc (contents v) (x ∷ []) (take (capacity - (v.size + 1)) init),
        )
      ]

  -- The initializer-list constructor keeps the first `Capacity` elements of the list.
  pub of_list_lem :
      (blank : A) (init : List A)
      → IsValid capacity (of_list capacity blank init)
        × (contents (of_list capacity blank init) ≡ take capacity init)
  unfolding of_list
  of_list_lem blank init =
      ground (arith, fill_from_lem init {v = empty_vector capacity blank}, empty_vector_lem blank)

module _ {A : Type 0} where
  copy_from-suc :
      (src : List A) (at : ℕ) (p : A) (xs : List A)
      → copy_from src (suc at) (p ∷ xs) ≡ p ∷ copy_from src at xs
  unfolding copy_from
  copy_from-suc [] at p xs = refl
  copy_from-suc (x ∷ src) at p xs = copy_from-suc src (suc at) p (set xs at x)

  -- A copy starts past what it skips, and overwrites as many elements as it copies.
  pub copy_from-append :
      (src pre xs : List A) → copy_from src (length pre) (pre ++ xs) ≡ pre ++ copy_from src 0 xs
  copy_from-append src [] xs = refl
  copy_from-append src (p ∷ pre) xs =
      copy_from-suc src (length pre) p (pre ++ xs) ∙ ap (◌∷◌ p) (copy_from-append src pre xs)

  pub copy_from-replicate :
      (src : List A) (k : ℕ) (b : A)
      → copy_from src 0 (replicate (length src + k) b) ≡ src ++ replicate k b
  unfolding copy_from
  copy_from-replicate [] k b = ap (λ n. replicate n b) (zero_plus k)
    where
      zero_plus : (n : ℕ) → 0 + n ≡ n
      zero_plus n = omega arith
  copy_from-replicate (x ∷ src) k b =
      ap (λ n. copy_from (x ∷ src) 0 (replicate n b)) (suc_plus (length src) k)
      ∙ copy_from-suc src 0 x (replicate (length src + k) b)
      ∙ ap (◌∷◌ x) (copy_from-replicate src k b)
    where
      suc_plus : (m n : ℕ) → suc m + n ≡ suc (m + n)
      suc_plus m n = omega arith
