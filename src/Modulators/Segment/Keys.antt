-- ===== src/Modulators/Segment/Keys.antt =====
-- The names of the parameters of a segment, and what an update of one sets.
use nomos_rt.Common.{
  ℕ, ◌+◌, ◌/◌, ◌%◌, ◌<◌, none, leb, false, ltb, if◌then◌else◌, some, [], ◌∷◌, ◌++◌, codes, length,
  get_or, set, ◌≡◌, ap, ◌∙◌, arith,
}
use nomos_rt.Edn.{Text}
use nomos_rt.Modulators.Floats.{Floats, clamp}
use nomos_rt.Modulators.Segment.{
  parts_of, with_field, SegmentModulator, split_at_sep, index_from, segment_key, set_field,
  set_segment, update, default_def,
}

-- A number below 100 in decimal.
unfoldable pub decimal : ℕ → Text
decimal n = if ltb n 10 then (48 + n) ∷ [] else (48 + n / 10) ∷ (48 + n % 10) ∷ []

-- `segment_N_field`
unfoldable pub segment_name : ℕ → Text → Text
segment_name n field = codes "segment_" ++ decimal n ++ 95 ∷ field

split-decimal :
    (n : ℕ) (field : Text)
    → n < 100
    → split_at_sep (decimal n ++ 95 ∷ field) ≡ some (decimal n, field)
unfolding decimal split_at_sep
split-decimal n field h = ground arith

index-decimal : (n : ℕ) → n < 100 → index_from 0 (decimal n) ≡ some n
unfolding decimal index_from
index-decimal n h = ground arith

segment_key-prefix :
    (rest : Text) (parts : Text × Text)
    → split_at_sep rest ≡ some parts
    → segment_key (codes "segment_" ++ rest) ≡ parts_of (some parts)
unfolding segment_key split_at_sep
segment_key-prefix [] parts e = ground (arith, e)
segment_key-prefix (c ∷ cs) parts e =
    let long : leb (length (codes "segment_" ++ c ∷ cs)) 8 ≡ false = ground arith in
    ap (λ b. if b then none else parts_of (split_at_sep (c ∷ cs))) long ∙ ap parts_of e

segment_key-segment_name :
    (n : ℕ) (field : Text) → n < 100 → segment_key (segment_name n field) ≡ some (n, field)
unfolding segment_name
segment_key-segment_name n field h =
    segment_key-prefix (decimal n ++ 95 ∷ field) (decimal n, field) (split-decimal n field h)
    ∙ ap (with_field field) (index-decimal n h)

module _ (fl : Floats) where
  open fl use {F, lit}

  set_segment-below :
      (n : ℕ) (field : Text) (value : F) (s : SegmentModulator fl)
      → n < 100
      → set_segment fl (some (n, field)) value s ≡ (
          if ltb n s.n_defs
          then record s {
            defs = set s.defs n (
                set_field fl field
                  (clamp fl value (lit 0 1) (lit 1 1))
                  (get_or s.defs n (default_def fl)));
          }
          else s)
  unfolding set_segment
  set_segment-below n field value s h = ground arith

  -- The parameters `segment_N_primary` and `segment_N_secondary` of an index below the number of segments set that value
  -- of segment N, clamped to [0, 1], and nothing else; the parameters of other indices, and other fields, change nothing.
  pub update-segment_name :
      (n : ℕ) (field : Text) (value : F) (s : SegmentModulator fl)
      → n < 100
      → update fl (segment_name n field) value s ≡ (
          if ltb n s.n_defs
          then record s {
            defs = set s.defs n (
                set_field fl field
                  (clamp fl value (lit 0 1) (lit 1 1))
                  (get_or s.defs n (default_def fl)));
          }
          else s)
  unfolding update segment_name
  update-segment_name n field value s h =
      ap (λ at. set_segment fl at value s) (segment_key-segment_name n field h)
      ∙ set_segment-below n field value s h
