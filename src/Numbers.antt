-- ===== src/Numbers.antt =====
-- Floating point numbers, which the model takes as parameters: doubles, floats, and the operations on them that the code
-- uses. An int64 is its pattern of 64 bits; an int that is computed with is an integer.
use nomos_rt.Common.{ℕ, zero, suc, ◌-◌, ◌%◌, min, Bool}

-- `negsuc n` is -(n + 1).
pub data ℤ : Type 0 where
  pos : ℕ → ℤ
  negsuc : ℕ → ℤ

-- a - b
abbrev pub difference : ℕ → ℕ → ℤ
difference a zero = pos a
difference zero (suc b) = negsuc b
difference (suc a) (suc b) = difference a b

-- `i % n`, which has the sign of `i`.
unfoldable pub signed_rem : ℤ → ℕ → ℤ
signed_rem (pos a) n = pos (a % n)
signed_rem (negsuc a) n = difference 0 (suc a % n)

-- `std::max(0, std::min(high, i))`
unfoldable pub clamp_between : ℕ → ℤ → ℕ
clamp_between high (pos n) = min n high
clamp_between high (negsuc n) = 0

-- `std::max(0, i - 1)`
unfoldable pub pred_or_zero : ℤ → ℤ
pred_or_zero (pos n) = pos (n - 1)
pred_or_zero (negsuc n) = pos 0

pub record Doubles : Type 1 where
  pub D : Type 0
  pub F : Type 0
  -- `lit n d` is the literal n / d.
  pub lit : ℕ → ℕ → D
  pub of_int64 : ℕ → D
  pub of_int : ℤ → D
  pub add : D → D → D
  pub sub : D → D → D
  pub mul : D → D → D
  pub div : D → D → D
  pub lt : D → D → Bool
  pub pow : D → D → D
  pub log2 : D → D
  -- `static_cast<int>(std::round(x))`
  pub rounded : D → ℤ
  -- `static_cast<int>(x)`, a pattern of 32 bits, and `static_cast<float>(x)`.
  pub truncated : D → ℕ
  pub to_float : D → F
  pub float_lit : ℕ → ℕ → F
  pub float_of_int64 : ℕ → F
  pub truncated_float : F → ℕ
  -- The 32 bits of a float.
  pub float_bits : F → ℕ
