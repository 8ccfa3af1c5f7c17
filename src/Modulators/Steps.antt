-- ===== src/Modulators/Steps.antt =====
-- Numbers in steps of 1/24, for runs of the modulators.
use nomos_rt.Common.{ℕ, ◌+◌, ◌-◌, ◌*◌, ◌/◌, ◌%◌, ltb, leb}
use nomos_rt.Numbers.{pos}
use nomos_rt.Modulators.Floats.{Floats}

abbrev pub steps : Floats
steps = record {
  D = ℕ;
  F = ℕ;
  to_float = λ x. x;
  of_int64 = λ n. n * 24;
  lit = λ n d. n * 24 / d;
  of_word = λ n. n * 24;
  truncated = λ x. pos (x / 24);
  rounded = λ x. pos ((x + 12) / 24);
  add = λ a b. a + b;
  sub = λ a b. a - b;
  mul = λ a b. a * b / 24;
  div = λ a b. a * 24 / b;
  neg = λ a. a;
  lt = ltb;
  le = leb;
  exp = λ a. a;
  sin = λ a. a;
  cos = λ a. a;
  abs = λ a. a;
  floor = λ a. a / 24 * 24;
  fmod = λ a b. a % b;
}
