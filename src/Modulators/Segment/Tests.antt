-- ===== src/Modulators/Segment/Tests.antt =====
-- A modulator of three segments, run in steps of 1/24.
use nomos_rt.Common.{
  leb→le, le→leb, ◌≤◌, ◌/◌, leb, ltb, true, arith, ℕ, ◌*◌, List, [], ◌∷◌, false, ◌≡◌, refl, ◌<◌,
  length, get_or, codes, min, max,
}
use nomos_rt.Modulators.Steps.{steps}
use nomos_rt.Modulators.Floats.{clamp}
use nomos_rt.Modulators.Segment.{
  SegmentDef, ramp, step, alt, make_segment_modulator, update, set_segment, segment_key,
  split_at_sep, tick, advanced, played, entered, def_at, segment_output, index_from, set_field,
  default_def,
}
use nomos_rt.Modulators.Segment.Run.{
  Call, ticked, updated, run, segment_kinds, is_steady, run-cur_seg,
}
use nomos_rt.Modulators.Segment.Range.{FloatLaws}
use nomos_rt.Numbers.{ℤ, pos, signed_rem}
use native.Mathlib.Nat.{div-le_of_le-mul, mul-le-mul, mul-le-mul_right}

abbrev three : List (SegmentDef ℕ)
three =
    record { kind = ramp; primary = 24; secondary = 0; loop = false }
    ∷ record { kind = step; primary = 6; secondary = 0; loop = false }
    ∷ record { kind = alt; primary = 12; secondary = 18; loop = false }
    ∷ []

abbrev calls : List (Call steps)
calls =
    ticked (48 * 24)
    ∷ updated (codes "segment_1_primary") 30
    ∷ updated (codes "rate") 24
    ∷ ticked 48
    ∷ []

scaled : (n : ℕ) → n ≤ 36 → n * 24 ≤ 864
scaled n h = omega arith

three_steady : is_steady steps calls (make_segment_modulator steps three) ≡ true
unfolding make_segment_modulator run is_steady tick update advanced played entered def_at
    segment_output signed_rem set_segment segment_key split_at_sep index_from set_field clamp
three_steady = refl

-- The laws hold of numbers in steps of 1/24 too.
steps-FloatLaws : FloatLaws steps
steps-FloatLaws = record {
  le_trans = λ (a b c : ℕ) (h : leb a b ≡ true) (k : leb b c ≡ true). ground arith;
  le_self = λ (a b : ℕ) (h : leb a b ≡ true). (ground arith, ground arith);
  le_of_not_lt =
      λ (a b : ℕ) (h : leb a a ≡ true) (k : leb b b ≡ true) (l : ltb a b ≡ false). ground arith;
  le_of_not_le =
      λ (a b : ℕ) (h : leb a a ≡ true) (k : leb b b ≡ true) (l : leb a b ≡ false). ground arith;
  zero_small = refl;
  small_one = refl;
  one_hundred = refl;
  add_within = λ (p q : ℕ) h k. (ground arith, ground (arith, h.1, k.1));
  dec_within = λ (x : ℕ) h. (ground arith, ground (arith, h.0, h.1));
  div_within = λ (a b : ℕ) h p k.
      (ground arith, le→leb _ _ (div-le_of_le-mul b (mul-le-mul_right 24 (leb→le a b k))));
  mul_within = λ (p n : ℕ) h k.
      (ground arith, le→leb _ _ (div-le_of_le-mul 24 (mul-le-mul (leb→le p 24 h.1) (scaled n k))));
  cast_within = λ (x : ℕ) h. (x / 24, refl);
}

run-cur_seg_example :
    let s = make_segment_modulator steps three in
    let t = run steps calls s in
    (t.n_defs ≡ min (max (length three) 1) 36)
    × (segment_kinds steps t ≡ segment_kinds steps s)
    × (i : ℕ) × (t.cur_seg ≡ pos i)
    × (i < t.n_defs)
    × (i < length t.defs)
unfolding make_segment_modulator
run-cur_seg_example = run-cur_seg steps steps-FloatLaws three calls three_steady

-- The second tick is at half a period, in the segment that was set.
second_segment : ℤ
second_segment = (run steps calls (make_segment_modulator steps three)).cur_seg

secondary_set :
    get_or
      (update steps (codes "segment_2_secondary") 30 (make_segment_modulator steps three)).defs
      2
      (default_def steps)
    ≡ record { kind = alt; primary = 12; secondary = 24; loop = false }
unfolding make_segment_modulator update set_segment segment_key split_at_sep index_from set_field
    clamp
secondary_set = refl
