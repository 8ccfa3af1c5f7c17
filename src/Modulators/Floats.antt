-- ===== src/Modulators/Floats.antt =====
-- What the modulators compute with: floats, which are parameters, and include/nomos/rt/abstract_modulator.hpp, the output
-- of a modulator.
use nomos_rt.Common.{ℕ, Bool, false, if◌then◌else◌, List, replicate}
use nomos_rt.Numbers.{ℤ}

pub record Floats : Type 1 where
  -- Doubles and floats.
  pub D : Type 0
  pub F : Type 0
  pub to_float : D → F
  pub of_int64 : ℕ → F
  -- `lit n d` is the literal n / d, and `of_word` the float of a uint32_t.
  pub lit : ℕ → ℕ → F
  pub of_word : ℕ → F
  -- `static_cast<int>(x)`, which may be any int, also where the value of `x` is none.
  pub truncated : F → ℤ
  -- `static_cast<int>(std::round(x))`
  pub rounded : F → ℤ
  pub add : F → F → F
  pub sub : F → F → F
  pub mul : F → F → F
  pub div : F → F → F
  pub neg : F → F
  pub lt : F → F → Bool
  pub le : F → F → Bool
  pub exp : F → F
  pub sin : F → F
  pub cos : F → F
  pub abs : F → F
  pub floor : F → F
  pub fmod : F → F → F

abbrev pub max_outputs : ℕ
max_outputs = 16

-- `modulator_output`
pub record ModulatorOutput (F : Type 0) : Type 0 where
  pub cv : F
  pub aux : F
  pub gate : Bool
  pub gate2 : Bool
  pub state : ℕ
  pub outputs : List F

module _ (fl : Floats) where
  open fl use {F, lit, lt}

  unfoldable pub blank_output : ModulatorOutput F
  blank_output = record {
    cv = lit 0 1;
    aux = lit 0 1;
    gate = false;
    gate2 = false;
    state = 0;
    outputs = replicate max_outputs (lit 0 1);
  }

  -- `std::clamp`, `std::min` and `std::max`.
  unfoldable pub clamp : F → F → F → F
  clamp v low high = if lt v low then low else if lt high v then high else v

  unfoldable pub lesser : F → F → F
  lesser a b = if lt b a then b else a

  unfoldable pub greater : F → F → F
  greater a b = if lt a b then b else a
