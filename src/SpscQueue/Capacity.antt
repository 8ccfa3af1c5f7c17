-- ===== src/SpscQueue/Capacity.antt =====
-- The two static assertions on `Capacity`, and what they make of `& mask_`.
use native.Mathlib.Nat.{pow-suc, mod-eq_of_lt}
use mathlib.Core.WellFounded as WF
use nomos_rt.Common.{
  ℕ, zero, suc, ◌+◌, ◌-◌, ◌/◌, ◌*◌, ◌%◌, ◌^◌, ◌≤◌, ◌<◌, bit_and, ◌≡◌, arith, ◌==◌, leb,
  if◌then◌else◌, ◌≢◌, ◌∙◌,
}
use native.Mathlib.Decide.{ℕ_discrete, dec_le}
use nomos_rt.SpscQueue.{next_index, size_mod}
use nomos_rt.Common.Bits.{bit_and_step, bit_and_mask, lt_wf, two_pow_multiple}

-- `Capacity & (Capacity - 1)` is zero and `Capacity` is at least 2; an array of that many slots has
-- an index below `2 ^ 63`.
pub record IsCapacity (c : ℕ) : Type 0 where
  pub one_bit : bit_and c (c - 1) ≡ 0
  pub two_slots : 2 ≤ c
  pub fits : c ≤ 2 ^ 63

bit_and_self : (a : ℕ) → bit_and a a ≡ a
bit_and_self a = WF.induction lt_wf {C = λ k. bit_and k k ≡ k} a step
  where
    step : (n : ℕ) → ((m : ℕ) → m < n → bit_and m m ≡ m) → bit_and n n ≡ n
    step zero ih = omega (arith, bit_and_step 0 0)
    step (suc n) ih = omega (arith, bit_and_step (suc n) (suc n), ih (suc n / 2) (omega arith))

abbrev IsPower : ℕ → Type 0
IsPower c = (k : ℕ) × (c ≡ 2 ^ k)

half_pred_even : (c : ℕ) → c % 2 ≡ 0 → 0 < c → (c - 1) / 2 ≡ c / 2 - 1
half_pred_even c even pos = omega arith

half_pred_odd : (c : ℕ) → c % 2 ≢ 0 → (c - 1) / 2 ≡ c / 2
half_pred_odd c odd = omega arith

IsPower-double : (c : ℕ) → c % 2 ≡ 0 → IsPower (c / 2) → IsPower c
IsPower-double c even (k, e) = (suc k, omega (arith, pow-suc 2 k))

-- A number with one bit set is a power of two.
one_bit_IsPower : (c : ℕ) → 0 < c → bit_and c (c - 1) ≡ 0 → IsPower c
one_bit_IsPower c = WF.induction lt_wf {C = λ c. 0 < c → bit_and c (c - 1) ≡ 0 → IsPower c} c step
  where
    step :
        (c : ℕ)
        → ((m : ℕ) → m < c → 0 < m → bit_and m (m - 1) ≡ 0 → IsPower m)
        → 0 < c
        → bit_and c (c - 1) ≡ 0
        → IsPower c
    step c ih pos h = elim (ℕ_discrete (c % 2) 0) [
      | yes even ↦ IsPower-double c even (
          ih (c / 2) (omega arith) (omega arith)
            (ground (arith, bit_and_step c (c - 1), half_pred_even c even)))
      | no odd ↦
          (0, ground (arith, bit_and_step c (c - 1), half_pred_odd c odd, bit_and_self (c / 2)))
    ]

-- So the mask keeps the remainder by the capacity.
pub and_mask : {c : ℕ} → IsCapacity c → (a : ℕ) → bit_and a (c - 1) ≡ a % c
and_mask {c} v a = let p : IsPower c = one_bit_IsPower c (omega arith) v.one_bit in masked p
  where
    masked : IsPower c → bit_and a (c - 1) ≡ a % c
    masked (k, e) = rw e (bit_and_mask k a)

wrap_mod : (c : ℕ) → c % c ≡ 0
wrap_mod c = grind arith

step_mod : (c i : ℕ) → i < c → (i + 1) % c ≡ (if suc i == c then 0 else suc i)
step_mod c i h = elim (ℕ_discrete (suc i) c) [
  | yes e ↦ rw (← e) (ground (arith, wrap_mod (suc i)))
  | no ne ↦ ground (arith, mod-eq_of_lt {n = i + 1} {m = c} (omega arith))
]

-- The next slot, going round at the capacity.
pub next_index_lem :
    {c : ℕ} → IsCapacity c → (i : ℕ) → i < c → next_index c i ≡ (if suc i == c then 0 else suc i)
unfolding next_index
next_index_lem {c} v i h = ground (
  arith,
  and_mask v ((i + 1) % size_mod),
  step_mod c i h,
  mod-eq_of_lt {n = i + 1} {m = size_mod} (omega arith),
)

-- The range of `size_t` is a multiple of the capacity, so a difference that wraps keeps its remainder.
word_multiple : {c : ℕ} → IsCapacity c → (m : ℕ) × (size_mod ≡ m * c)
word_multiple {c} v = let (k, e) = one_bit_IsPower c (omega arith) v.one_bit in multiple k e
  where
    multiple : (k : ℕ) → c ≡ 2 ^ k → (m : ℕ) × (size_mod ≡ m * c)
    multiple k e = rw e (two_pow_multiple 64 k (rw (← e) (omega arith)))

multiple_minus : (m c d : ℕ) → 0 < d → d < c → 0 < m → (m * c - d) % c ≡ c - d
multiple_minus m c d hd hc hm = grind arith

ahead : (h t : ℕ) → t ≤ h → h < size_mod → (h + size_mod - t) % size_mod ≡ h - t
ahead h t le lt = omega arith

wrapped : (h t : ℕ) → h < t → t < size_mod → (h + size_mod - t) % size_mod ≡ size_mod - (t - h)
wrapped h t lt ht = omega arith

behind :
    {c : ℕ}
    → IsCapacity c
    → (h t : ℕ) → h < c
    → t < c
    → h < t
    → (h + size_mod - t) % size_mod % c ≡ h + c - t
behind {c} v h t hh ht lt =
    let (m, e) = word_multiple v in
    rw (wrapped h t lt (omega arith), e)
      (multiple_minus m c (t - h) (omega arith) (omega arith) (positive m e) ∙ omega arith)
  where
    positive : (m : ℕ) → size_mod ≡ m * c → 0 < m
    positive zero e = absurd (omega (arith, e))
    positive (suc m) e = omega arith

pub difference_mod :
    {c : ℕ}
    → IsCapacity c
    → (h t : ℕ) → h < c
    → t < c
    → (h + size_mod - t) % size_mod % c ≡ (if leb t h then h - t else h + c - t)
difference_mod {c} v h t hh ht = elim (dec_le t h) [
  | yes le ↦
      ground (arith, ahead h t le (omega arith), mod-eq_of_lt {n = h - t} {m = c} (omega arith))
  | no gt ↦ ground (arith, behind v h t hh ht (omega arith))
]
