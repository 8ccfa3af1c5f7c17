-- ===== src/Common/Bits.antt =====
-- `&`, `|` and `^` of words as arithmetic: one equation for the lowest digit, masks, and powers of two.
use Prim.Native.Nat.{
  ℕ, zero, suc, ◌+◌, ◌*◌, ◌-◌, ◌/◌, ◌%◌, ◌^◌, ◌≤◌, ◌<◌, min, max, digits, bit_and, bit_or,
  bit_and-bitwise, bit_or-bitwise, bit_xor, bit_xor-bitwise, differ,
}
use mathlib.Core.Path.{◌≡◌, refl, ap}
use mathlib.Core.WellFounded as WF
use native.Mathlib.Decide.{ℕ_discrete}
use mathlib.Core.WellFounded.{Acc, WellFounded}
use native.Mathlib.Nat.{pow-suc}
use native.Mathlib.Omega.{arith}

below_Acc : (k n : ℕ) → n < k → Acc ◌<◌ n
below_Acc zero n h = absurd (omega arith)
below_Acc (suc k) n h = Acc.intro n (λ m hm. below_Acc k m (omega arith))

pub lt_wf : WellFounded ◌<◌
lt_wf = record { apply = λ n. below_Acc (suc n) n (omega arith) }

-- The digits of `x` need no more fuel than `x`.
module _ (last : ℕ → ℕ) (digit : ℕ → ℕ → ℕ) where
  fuel_beyond : (y x k l : ℕ) → x ≤ k → x ≤ l → digits last digit k x y ≡ digits last digit l x y
  fuel_beyond y zero zero zero hk hl = refl
  fuel_beyond y zero (suc k) zero hk hl = refl
  fuel_beyond y zero zero (suc l) hk hl = refl
  fuel_beyond y zero (suc k) (suc l) hk hl = refl
  fuel_beyond y (suc x) (suc k) (suc l) hk hl =
      ap (λ t. t * 2 + digit (suc x % 2) (y % 2))
        (fuel_beyond (y / 2) (suc x / 2) k l (omega arith) (omega arith))
  fuel_beyond y (suc x) (suc k) zero hk hl = absurd (omega arith)
  fuel_beyond y (suc x) zero l hk hl = absurd (omega arith)

-- One equation for the lowest digit.
pub bit_or_step : (x y : ℕ) → bit_or x y ≡ bit_or (x / 2) (y / 2) * 2 + max (x % 2) (y % 2)
bit_or_step zero y = omega (arith, bit_or-bitwise 0 y, bit_or-bitwise 0 (y / 2))
bit_or_step (suc x) y =
    let half =
      fuel_beyond (λ d. d) max (y / 2) (suc x / 2) x (suc x / 2) (omega arith) (omega arith) in
    omega (arith, half, bit_or-bitwise (suc x) y, bit_or-bitwise (suc x / 2) (y / 2))

pub bit_and_step : (x y : ℕ) → bit_and x y ≡ bit_and (x / 2) (y / 2) * 2 + min (x % 2) (y % 2)
bit_and_step zero y = omega (arith, bit_and-bitwise 0 y, bit_and-bitwise 0 (y / 2))
bit_and_step (suc x) y =
    let half =
      fuel_beyond (λ d. 0) min (y / 2) (suc x / 2) x (suc x / 2) (omega arith) (omega arith) in
    omega (arith, half, bit_and-bitwise (suc x) y, bit_and-bitwise (suc x / 2) (y / 2))

differ_self : (d : ℕ) → differ d d ≡ 0
differ_self zero = refl
differ_self (suc d) = differ_self d

differ_bounds : (a b : ℕ) → a < 2 → b < 2 → differ a b < 2
differ_bounds zero b ha hb = hb
differ_bounds (suc a) zero ha hb = ha
differ_bounds (suc a) (suc b) ha hb = differ_bounds a b (omega arith) (omega arith)

pub bit_xor_step : (x y : ℕ) → bit_xor x y ≡ bit_xor (x / 2) (y / 2) * 2 + differ (x % 2) (y % 2)
bit_xor_step zero y = omega (arith, bit_xor-bitwise 0 y, bit_xor-bitwise 0 (y / 2))
bit_xor_step (suc x) y =
    let half =
      fuel_beyond (λ d. d) differ (y / 2) (suc x / 2) x (suc x / 2) (omega arith) (omega arith) in
    omega (arith, half, bit_xor-bitwise (suc x) y, bit_xor-bitwise (suc x / 2) (y / 2))

pub bit_xor_self : (x : ℕ) → bit_xor x x ≡ 0
bit_xor_self x = WF.induction lt_wf {C = λ n. bit_xor n n ≡ 0} x λ n ih. elim (ℕ_discrete n 0) [
  | yes none_left ↦ rw none_left refl
  | no more ↦ omega (arith, bit_xor_step n n, ih (n / 2) (omega arith), differ_self (n % 2))
]

-- Words of `k` bits stay words of `k` bits.
pub bit_xor_bounds : (k x y : ℕ) → x < 2 ^ k → y < 2 ^ k → bit_xor x y < 2 ^ k
bit_xor_bounds zero x y hx hy = rw (zero_of x hx, zero_of y hy) (omega arith)
  where
    zero_of : (n : ℕ) → n < 2 ^ 0 → n ≡ 0
    zero_of n h = omega arith
bit_xor_bounds (suc k) x y hx hy = omega (
  arith,
  bit_xor_step x y,
  pow-suc 2 k,
  differ_bounds (x % 2) (y % 2),
  bit_xor_bounds k (x / 2) (y / 2) (omega (arith, pow-suc 2 k)) (omega (arith, pow-suc 2 k)),
)

pub bit_and-zero : (x : ℕ) → bit_and x 0 ≡ 0
bit_and-zero x = WF.induction lt_wf {C = λ n. bit_and n 0 ≡ 0} x λ n ih. elim (ℕ_discrete n 0) [
  | yes none_left ↦ rw none_left refl
  | no more ↦ omega (arith, bit_and_step n 0, ih (n / 2) (omega arith))
]

pub bit_or-zero : (x : ℕ) → bit_or x 0 ≡ x
bit_or-zero x = WF.induction lt_wf {C = λ n. bit_or n 0 ≡ n} x λ n ih. elim (ℕ_discrete n 0) [
  | yes none_left ↦ rw none_left refl
  | no more ↦ omega (arith, bit_or_step n 0, ih (n / 2) (omega arith))
]

pub bit_and-one : (a : ℕ) → bit_and a 1 ≡ a % 2
bit_and-one a = omega (arith, bit_and_step a 1, bit_and-zero (a / 2))

half_even : (a : ℕ) → a * 2 / 2 ≡ a
half_even a = omega arith

-- Setting the lowest bit of an even number.
pub bit_or-even : (a b : ℕ) → b < 2 → bit_or (a * 2) b ≡ a * 2 + b
bit_or-even a zero h = rw bit_or-zero (omega arith)
bit_or-even a (suc zero) h = ground (arith, bit_or_step (a * 2) 1, bit_or-zero a, half_even a)
bit_or-even a (suc (suc b)) h = absurd (omega arith)

pub two_pow_pos : (k : ℕ) → 0 < 2 ^ k
two_pow_pos zero = omega arith
two_pow_pos (suc k) = omega (arith, pow-suc 2 k, two_pow_pos k)

-- `a % 2 ^ k` from the halves.
pub mod_halves : (m a : ℕ) → 0 < m → a % (2 * m) ≡ 2 * (a / 2 % m) + a % 2
mod_halves m a h = grind arith

half_mask : (m : ℕ) → 0 < m → (2 * m - 1) / 2 ≡ m - 1
half_mask m h = omega arith

-- A mask of `k` ones keeps the remainder by `2 ^ k`.
pub bit_and_mask : (k a : ℕ) → bit_and a (2 ^ k - 1) ≡ a % 2 ^ k
bit_and_mask zero a = rw bit_and-zero (omega arith)
bit_and_mask (suc k) a = ground (
  arith,
  bit_and_step a (2 ^ suc k - 1),
  pow-suc 2 k,
  two_pow_pos k,
  half_mask (2 ^ k),
  bit_and_mask k (a / 2),
  mod_halves (2 ^ k) a,
)

-- A power of two divides any larger one.
pub two_pow_multiple : (n k : ℕ) → 2 ^ k ≤ 2 ^ n → (m : ℕ) × (2 ^ n ≡ m * 2 ^ k)
two_pow_multiple n zero h = (2 ^ n, omega arith)
two_pow_multiple zero (suc k) h = absurd (omega (arith, pow-suc 2 k, two_pow_pos k))
two_pow_multiple (suc n) (suc k) h =
    let (m, e) = two_pow_multiple n k (omega (arith, pow-suc 2 k, pow-suc 2 n)) in
    (m, omega (arith, pow-suc 2 n, pow-suc 2 k, e, ap (λ (t : ℕ). m * t) (pow-suc 2 k)))
