-- ===== src/Osc/Encode.antt =====
-- include/nomos/rt/osc_encode.hpp: `encode` and its helpers. A byte is a number below 256. An int32
-- stands as its bit pattern, a number below 2 ^ 32, and so does a float32, which the code copies bit
-- for bit.
use nomos_rt.Common.{
  ℕ, zero, suc, ◌+◌, ◌-◌, ◌*◌, ◌/◌, ◌%◌, ◌^◌, Bool, true, false, ◌==◌, ltb, if◌then◌else◌, List, [],
  ◌∷◌, length,
}
use nomos_rt.SmallVector
use nomos_rt.SmallVector.{SmallVector}

-- `tag` says which of the other fields counts; the code takes any tag.
pub record Arg : Type 0 where
  pub tag : ℕ
  pub i : ℕ
  pub f : ℕ
  pub s : List ℕ

unfoldable pub make_i : ℕ → Arg
make_i v = record { tag = b'i'; i = v; f = 0; s = [] }

unfoldable pub make_f : ℕ → Arg
make_f v = record { tag = b'f'; i = 0; f = v; s = [] }

unfoldable pub make_s : List ℕ → Arg
make_s v = record { tag = b's'; i = 0; f = 0; s = v }

-- Code that writes to `out` and says whether it went well.
abbrev pub Writer : Type 0
Writer = SmallVector ℕ → Bool × SmallVector ℕ

-- `if (!first) return false;` before the second.
infixr 5 ◌>>◌
unfoldable pub ◌>>◌ : Writer → Writer → Writer
◌>>◌ first second out =
    let (done, out') = first out in elim done [ true ↦ second out' | false ↦ (false, out') ]

-- The end of a function that returns true.
unfoldable pub succeed : Writer
succeed out = (true, out)

unfoldable pub tags : List Arg → List ℕ
tags [] = []
tags (a ∷ args) = a.tag % 2 ^ 8 ∷ tags args

unfoldable pub padded_length : ℕ → ℕ
padded_length n = (n / 4 + 1) * 4

module _ (capacity : ℕ) where
  -- `for (k = …; k < n; ++k) out.push_back(0);`, which does not look at the results.
  unfoldable pub push_zeros : ℕ → SmallVector ℕ → SmallVector ℕ
  push_zeros zero out = out
  push_zeros (suc n) out = push_zeros n (SmallVector.push_back capacity 0 out).1

  unfoldable pub append_osc_string : List ℕ → Writer
  append_osc_string s out =
      let padded = padded_length (length s) in
      if ltb (capacity - out.size) padded
      then (false, out)
      else (true, push_zeros (padded - length s) (SmallVector.append capacity s out).1)

  unfoldable pub append_u32_be : ℕ → Writer
  append_u32_be v out =
      SmallVector.append capacity
        (v / 2 ^ 24 % 2 ^ 8 ∷ v / 2 ^ 16 % 2 ^ 8 ∷ v / 2 ^ 8 % 2 ^ 8 ∷ v % 2 ^ 8 ∷ []) out

  -- `if (!out.push_back(b)) return false;` for each byte.
  unfoldable pub push_all : List ℕ → Writer
  push_all [] = succeed
  push_all (b ∷ bs) = SmallVector.push_back capacity b >> push_all bs

  unfoldable pub push_padding : ℕ → Writer
  push_padding zero = succeed
  push_padding (suc n) = SmallVector.push_back capacity 0 >> push_padding n

  unfoldable pub append_arg : Arg → Writer
  append_arg a out =
      if a.tag == b'i'
      then append_u32_be a.i out
      else if a.tag == b'f'
      then append_u32_be a.f out
      else if a.tag == b's'
      then append_osc_string a.s out
      else (false, out)

  unfoldable pub append_args : List Arg → Writer
  append_args [] = succeed
  append_args (a ∷ args) = append_arg a >> append_args args

  unfoldable pub encode : List ℕ → List Arg → Writer
  encode address args out =
      let tags_length = length args + 1 in
      let body : Writer = do
        append_osc_string address
        SmallVector.push_back capacity b','
        push_all (tags args)
        push_padding (padded_length tags_length - tags_length)
        append_args args
      in body (SmallVector.clear out)
