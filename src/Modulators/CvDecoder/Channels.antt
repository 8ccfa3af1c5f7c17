-- ===== src/Modulators/CvDecoder/Channels.antt =====
-- The bits of the bitmap.
use nomos_rt.Common.{
  ℕ, zero, suc, ◌+◌, ◌/◌, ◌%◌, ◌^◌, ◌≤◌, ◌<◌, max, Bool, true, bit_or, ltb, leb, ◌==◌, ◌&&◌, ◌||◌,
  if◌then◌else◌, ◌≡◌, refl, sym, ap, ap₂, not, ◌∙◌, passes, test_of_passes, arith,
}
use nomos_rt.Common.Bits.{bit_or_step, bit_and-one}
use native.Mathlib.Nat.{pow-suc, div-div-eq-div-mul}
use nomos_rt.Modulators.Sources.{bit_at}
use nomos_rt.Modulators.CvDecoder.{channels_from}

bit_or-half : (x y : ℕ) → bit_or x y / 2 ≡ bit_or (x / 2) (y / 2)
bit_or-half x y = omega (arith, bit_or_step x y)

bit_or-low : (x y : ℕ) → bit_or x y % 2 ≡ max (x % 2) (y % 2)
bit_or-low x y = omega (arith, bit_or_step x y)

whole : (z : ℕ) → z / 2 ^ 0 ≡ z
whole z = omega arith

bit_or_shift : (k x y : ℕ) → bit_or x y / 2 ^ k ≡ bit_or (x / 2 ^ k) (y / 2 ^ k)
bit_or_shift zero x y = omega (arith, ap₂ bit_or (whole x) (whole y))
bit_or_shift (suc k) x y =
    halved (bit_or x y)
    ∙ ap (λ z. z / 2 ^ k) (bit_or-half x y)
    ∙ bit_or_shift k (x / 2) (y / 2)
    ∙ sym (ap₂ bit_or (halved x) (halved y))
  where
    halved : (z : ℕ) → z / 2 ^ suc k ≡ z / 2 / 2 ^ k
    halved z =
        ap (λ m. z / m) (pow-suc 2 k)
        ∙ ap (λ m. z / m) (omega arith)
        ∙ sym (div-div-eq-div-mul z 2 (2 ^ k))

bit_at-mod : (x k : ℕ) → bit_at x k ≡ (x / 2 ^ k % 2 == 1)
unfolding bit_at
bit_at-mod x k = ap (λ n. n == 1) (bit_and-one (x / 2 ^ k))

bit_at-or : (x y k : ℕ) → bit_at (bit_or x y) k ≡ bit_at x k || bit_at y k
bit_at-or x y k =
    bit_at-mod (bit_or x y) k
    ∙ ap (λ n. n % 2 == 1) (bit_or_shift k x y)
    ∙ either (x / 2 ^ k) (y / 2 ^ k)
    ∙ sym (ap₂ ◌||◌ (bit_at-mod x k) (bit_at-mod y k))
  where
    either : (a b : ℕ) → (bit_or a b % 2 == 1) ≡ (a % 2 == 1) || (b % 2 == 1)
    either a b = ground (arith, bit_or-low a b)

abbrev agree : Bool → Bool → Bool
agree a b = if a then b else not b

power_row : ℕ → Bool
unfolding passes bit_at
power_row j = passes (λ k. agree (bit_at (2 ^ j) k) (j == k)) 8

power_table : passes power_row 8 ≡ true
unfolding passes power_row bit_at
power_table = refl

bit_at-power : (j k : ℕ) → j < 8 → k < 8 → bit_at (2 ^ j) k ≡ (j == k)
unfolding power_row
bit_at-power j k hj hk = agree_eq (bit_at (2 ^ j) k) (j == k) (
    test_of_passes (λ k. agree (bit_at (2 ^ j) k) (j == k)) 8
      (test_of_passes power_row 8 power_table j hj) k hk)
  where
    agree_eq : (a b : Bool) → agree a b ≡ true → a ≡ b
    agree_eq a b h = ground (arith, h)

-- One turn of the loop sets the bit of its channel.
channel_bit :
    (active : ℕ → Bool) (i bitmap k : ℕ)
    → i < 8
    → k < 8
    → bit_at (if active i then bit_or bitmap (2 ^ i) else bitmap) k
      ≡ bit_at bitmap k || (active i && i == k)
channel_bit active i bitmap k hi hk =
    ground (arith, bit_at-or bitmap (2 ^ i) k, bit_at-power i k hi hk)

channels_from-bit :
    (active : ℕ → Bool) (n i bitmap k : ℕ)
    → i + n ≤ 8
    → k < 8
    → bit_at (channels_from active i n bitmap) k
      ≡ bit_at bitmap k || (leb i k && ltb k (i + n) && active k)
unfolding channels_from
channels_from-bit active zero i bitmap k hi hk = ground arith
channels_from-bit active (suc n) i bitmap k hi hk =
    channels_from-bit active n (suc i) _ k (omega arith) hk
    ∙ ap (λ b. b || (leb (suc i) k && ltb k (suc i + n) && active k))
        (channel_bit active i bitmap k (omega arith) hk)
    ∙ ground (arith, λ (e : i ≡ k). ap active e)

-- The bitmap has the bits of the channels that are active.
pub bitmap-bit :
    (active : ℕ → Bool) (n k : ℕ)
    → n ≤ 8
    → k < 8
    → bit_at (channels_from active 0 n 0) k ≡ (ltb k n && active k)
bitmap-bit active n k hn hk =
    channels_from-bit active n 0 0 k (omega arith) hk ∙ ground (arith, bit_at-mod 0 k)
