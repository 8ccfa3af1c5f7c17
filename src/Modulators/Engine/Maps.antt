-- ===== src/Modulators/Engine/Maps.antt =====
-- The laws of the maps and of the removal from the vector.
use nomos_rt.Common.{
  ℕ, suc, ◌+◌, false, Bool-cases, inl, inr, if◌then◌else◌, none, some, List, [], ◌∷◌, ◌++◌,
  bytes_eq, bytes_eq_refl, eq_of_bytes_eq, ◌≡◌, ◌≢◌, refl, ap, sym, ◌∙◌, arith,
}
use nomos_rt.Modulators.Engine.{ModulatorId, find, assign, erase, remove}

-- The test is false on ids that differ.
pub different : (a b : ModulatorId) → a ≢ b → bytes_eq a b ≡ false
different a b ne = elim (Bool-cases (bytes_eq a b)) [
  | inl same ↦ absurd (ne (eq_of_bytes_eq a b same))
  | inr other ↦ other
]

module _ {A : Type 0} where
  pub find-assign :
      (id : ModulatorId) (a : A) (m : List (ModulatorId × A)) → find id (assign id a m) ≡ some a
  unfolding find assign
  find-assign id a [] = rw (bytes_eq_refl id) refl
  find-assign id a ((key, b) ∷ m) = elim (Bool-cases (bytes_eq key id)) [
    | inl same ↦ rw same (rw same refl)
    | inr other ↦ rw other (rw other (find-assign id a m))
  ]

  pub find-assign_ne :
      (id other : ModulatorId) (a : A) (m : List (ModulatorId × A))
      → id ≢ other
      → find other (assign id a m) ≡ find other m
  unfolding find assign
  find-assign_ne id other a [] ne = rw (different id other ne) refl
  find-assign_ne id other a ((key, b) ∷ m) ne = elim (Bool-cases (bytes_eq key id)) [
    | inl same ↦
        let apart = different key other (λ e. ne (sym (eq_of_bytes_eq key id same) ∙ e)) in
        rw (same, apart) refl
    | inr kept ↦
        rw kept
          (ap (λ r. if bytes_eq key other then some b else r) (find-assign_ne id other a m ne))
  ]

  pub find-erase : (id : ModulatorId) (m : List (ModulatorId × A)) → find id (erase id m) ≡ none
  unfolding find erase
  find-erase id [] = refl
  find-erase id ((key, b) ∷ m) = elim (Bool-cases (bytes_eq key id)) [
    | inl same ↦ rw same (find-erase id m)
    | inr other ↦ rw other (rw other (find-erase id m))
  ]

  pub find-erase_ne :
      (id other : ModulatorId) (m : List (ModulatorId × A))
      → id ≢ other
      → find other (erase id m) ≡ find other m
  unfolding find erase
  find-erase_ne id other [] ne = refl
  find-erase_ne id other ((key, b) ∷ m) ne = elim (Bool-cases (bytes_eq key id)) [
    | inl same ↦
        let apart = different key other (λ e. ne (sym (eq_of_bytes_eq key id same) ∙ e)) in
        rw (same, apart) (find-erase_ne id other m ne)
    | inr kept ↦
        rw kept (ap (λ r. if bytes_eq key other then some b else r) (find-erase_ne id other m ne))
  ]

-- How often an id stands in a list.
abbrev pub count : ModulatorId → List ModulatorId → ℕ
count id [] = 0
count id (key ∷ ids) = if bytes_eq key id then suc (count id ids) else count id ids

pub count-append :
    (id : ModulatorId) (xs ys : List ModulatorId) → count id (xs ++ ys) ≡ count id xs + count id ys
count-append id [] ys = omega arith
count-append id (x ∷ xs) ys = ground (arith, count-append id xs ys)

pub count-remove : (id : ModulatorId) (xs : List ModulatorId) → count id (remove id xs) ≡ 0
unfolding remove
count-remove id [] = refl
count-remove id (x ∷ xs) = elim (Bool-cases (bytes_eq x id)) [
  | inl same ↦ rw same (count-remove id xs)
  | inr other ↦ rw other (rw other (count-remove id xs))
]

pub count-remove_ne :
    (id other : ModulatorId) (xs : List ModulatorId)
    → id ≢ other
    → count other (remove id xs) ≡ count other xs
unfolding remove
count-remove_ne id other [] ne = refl
count-remove_ne id other (x ∷ xs) ne = elim (Bool-cases (bytes_eq x id)) [
  | inl same ↦
      let apart = different x other (λ e. ne (sym (eq_of_bytes_eq x id same) ∙ e)) in
      rw (same, apart) (count-remove_ne id other xs ne)
  | inr kept ↦
      rw kept (ap (λ n. if bytes_eq x other then suc n else n) (count-remove_ne id other xs ne))
]
