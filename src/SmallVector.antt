-- ===== src/SmallVector.antt =====
-- include/nomos/rt/small_vector.hpp: a bounded vector with its elements in place. `blank` is the
-- value that the array starts with.
pub mod Laws
mod Tests
use nomos_rt.Common.{
  ℕ, suc, ◌+◌, ◌-◌, Bool, true, false, ◌==◌, ltb, if◌then◌else◌, List, [], ◌∷◌, length, replicate,
  set, take,
}

pub record SmallVector {ℓ} (A : Type ℓ) : Type ℓ where
  pub elements : List A
  pub size : ℕ

module _ {A : Type 0} where
  -- The loop of `append`: `data_[size_ + i] = src[i]`, from the slot `at` on.
  unfoldable pub copy_from : List A → ℕ → List A → List A
  copy_from [] at elements = elements
  copy_from (x ∷ src) at elements = copy_from src (suc at) (set elements at x)

  unfoldable pub clear : SmallVector A → SmallVector A
  clear v = record v { size = 0 }

  -- What `begin()` to `end()` spans.
  abbrev pub contents : SmallVector A → List A
  contents v = take v.size v.elements

module _ {A : Type 0} (capacity : ℕ) where
  unfoldable pub empty_vector : A → SmallVector A
  empty_vector blank = record { elements = replicate capacity blank; size = 0 }

  unfoldable pub push_back : A → SmallVector A → Bool × SmallVector A
  push_back x v =
      if v.size == capacity
      then (false, v)
      else (true, record { elements = set v.elements v.size x; size = v.size + 1 })

  unfoldable pub append : List A → SmallVector A → Bool × SmallVector A
  unfolding copy_from
  append src v =
      if ltb (capacity - v.size) (length src)
      then (false, v)
      else (true, record { elements = copy_from src v.size v.elements; size = v.size + length src })

  -- The initializer-list constructor stops at the capacity.
  unfoldable pub fill_from : List A → SmallVector A → SmallVector A
  fill_from [] v = v
  fill_from (x ∷ init) v =
      let rest =
        fill_from init (record { elements = set v.elements v.size x; size = v.size + 1 }) in
      if v.size == capacity then v else rest

  unfoldable pub of_list : A → List A → SmallVector A
  unfolding fill_from empty_vector
  of_list blank init = fill_from init (empty_vector blank)

  unfoldable pub is_full : SmallVector A → Bool
  is_full v = v.size == capacity
