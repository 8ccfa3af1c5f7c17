-- ===== src/Modulators/Segment/Run.antt =====
-- Ticks and updates of a segment modulator, in any order.
use nomos_rt.Common.{
  Bool, true, ◌&&◌, ℕ, zero, suc, ◌<◌, leb, ◌||◌, ◌^◌, codes, bytes_eq, List, [], ◌∷◌, ◌++◌, length,
  length-set, if_lem, length-take, length-append, length-replicate, replicate, map, Option, none,
  some, get_or, set, min, max, ◌≡◌, refl, ap, ◌∙◌, arith,
}
use nomos_rt.Edn.{Text}
use nomos_rt.Modulators.Floats.{Floats, ModulatorOutput, clamp}
use nomos_rt.Modulators.Segment.{
  SegmentType, SegmentDef, SegmentModulator, make_segment_modulator, advanced, entered, played,
  tick, set_field, set_segment, update, segment_key, default_def,
}
use nomos_rt.Numbers.{ℤ, pos, signed_rem}
use nomos_rt.Modulators.Segment.Range.{
  FloatLaws, IsInRange, is_in_time, tick-IsInRange, update-IsInRange, zero_zero, zero_one,
}

both : (a b : Bool) → (a && b) ≡ true → (a ≡ true) × (b ≡ true)
both a b h = ground (arith, h)

module _ (fl : Floats) where
  open fl use {F, lit}

  pub data Call : Type 0 where
    ticked : F → Call
    updated : Text → F → Call

  unfoldable pub run : List Call → SegmentModulator fl → SegmentModulator fl
  unfolding tick update
  run [] s = s
  run (ticked rate ∷ calls) s = run calls (tick fl rate s).1
  run (updated key value ∷ calls) s = run calls (update fl key value s)

  abbrev pub segment_kinds : SegmentModulator fl → List SegmentType
  segment_kinds s = map (λ (d : SegmentDef F). d.kind) s.defs

  -- What every call leaves: the number of the segments and their kinds.
  pub record IsNextOf (before after : SegmentModulator fl) : Type 0 where
    pub same_number : after.n_defs ≡ before.n_defs
    pub same_length : length after.defs ≡ length before.defs
    pub same_kinds : segment_kinds after ≡ segment_kinds before

  advanced-IsNextOf : (rate : F) (s : SegmentModulator fl) → IsNextOf s (advanced fl rate s)
  unfolding advanced
  advanced-IsNextOf rate s = record {
    same_number = ground arith;
    same_length = ground arith;
    same_kinds = ground arith;
  }

  entered-IsNextOf : (new_seg : ℤ) (s : SegmentModulator fl) → IsNextOf s (entered fl new_seg s)
  unfolding entered
  entered-IsNextOf new_seg s = record {
    same_number = ground arith;
    same_length = ground arith;
    same_kinds = ground arith;
  }

  played-IsNextOf : (s : SegmentModulator fl) → IsNextOf s (played fl s)
  unfolding played
  played-IsNextOf s =
      let r =
        entered-IsNextOf (signed_rem (fl.truncated (fl.mul s.phase (fl.of_word s.n_defs))) s.n_defs)
          s in
      record { same_number = r.same_number; same_length = r.same_length; same_kinds = r.same_kinds }

  no_change : (s : SegmentModulator fl) → IsNextOf s s
  no_change s = record { same_number = refl; same_length = refl; same_kinds = refl }

  retuned :
      (depth rate : F) (s : SegmentModulator fl)
      → IsNextOf s (record s { depth = depth; rate = rate })
  retuned depth rate s = record { same_number = refl; same_length = refl; same_kinds = refl }

  next_next : (r s t : SegmentModulator fl) → IsNextOf r s → IsNextOf s t → IsNextOf r t
  next_next r s t a b = record {
    same_number = b.same_number ∙ a.same_number;
    same_length = b.same_length ∙ a.same_length;
    same_kinds = b.same_kinds ∙ a.same_kinds;
  }

  tick-IsNextOf : (rate : F) (s : SegmentModulator fl) → IsNextOf s (tick fl rate s).1
  unfolding tick
  tick-IsNextOf rate s =
      if_lem (λ (r : ModulatorOutput F × SegmentModulator fl). IsNextOf s r.1)
        (fl.le rate (fl.lit 0 1)) (no_change s)
        (next_next _ _ _ (advanced-IsNextOf rate s) (played-IsNextOf (advanced fl rate s)))

  set_field-kind :
      (field : Text) (v : F) (d : SegmentDef F) → (set_field fl field v d).kind ≡ d.kind
  unfolding set_field
  set_field-kind field v d = ground arith

  kinds-set :
      (defs : List (SegmentDef F)) (i : ℕ) (field : Text) (v : F)
      → map
          (λ (d : SegmentDef F). d.kind)
          (set defs i (set_field fl field v (get_or defs i (default_def fl))))
        ≡ map (λ (d : SegmentDef F). d.kind) defs
  kinds-set [] i field v = refl
  kinds-set (d ∷ defs) zero field v =
      ap (λ k. k ∷ map (λ (e : SegmentDef F). e.kind) defs) (set_field-kind field v d)
  kinds-set (d ∷ defs) (suc i) field v = ap (λ ks. d.kind ∷ ks) (kinds-set defs i field v)

  set_segment-IsNextOf :
      (at : Option (ℕ × Text)) (value : F) (s : SegmentModulator fl)
      → IsNextOf s (set_segment fl at value s)
  unfolding set_segment
  set_segment-IsNextOf none value s = no_change s
  set_segment-IsNextOf (some (idx, field)) value s =
      if_lem (IsNextOf s) (leb (2 ^ 31) idx || leb s.n_defs idx) (no_change s) (record {
        same_number = refl;
        same_length = length-set s.defs idx _;
        same_kinds = kinds-set s.defs idx field _;
      })

  update-IsNextOf :
      (key : Text) (value : F) (s : SegmentModulator fl) → IsNextOf s (update fl key value s)
  unfolding update
  update-IsNextOf key value s =
      if_lem (IsNextOf s) (bytes_eq key (codes "depth"))
        (retuned (clamp fl value (lit 0 1) (lit 1 1)) s.rate s)
        (if_lem (IsNextOf s) (bytes_eq key (codes "rate"))
          (retuned s.depth (clamp fl value (lit 1 1000) (lit 100 1)) s)
          (set_segment-IsNextOf (segment_key key) value s))

  run-IsNextOf : (calls : List Call) (s : SegmentModulator fl) → IsNextOf s (run calls s)
  unfolding run
  run-IsNextOf [] s = no_change s
  run-IsNextOf (ticked rate ∷ calls) s =
      next_next _ _ _ (tick-IsNextOf rate s) (run-IsNextOf calls (tick fl rate s).1)
  run-IsNextOf (updated key value ∷ calls) s =
      next_next _ _ _ (update-IsNextOf key value s) (run-IsNextOf calls (update fl key value s))

  -- No tick comes less often than the modulator has periods at that time, and no update has a NaN.
  unfoldable pub is_steady : List Call → SegmentModulator fl → Bool
  is_steady [] s = true
  is_steady (ticked rate ∷ calls) s = is_in_time fl rate s && is_steady calls (tick fl rate s).1
  is_steady (updated key value ∷ calls) s =
      fl.le value value && is_steady calls (update fl key value s)

  run-IsInRange :
      (laws : FloatLaws fl) (calls : List Call) (s : SegmentModulator fl)
      → is_steady calls s ≡ true
      → IsInRange fl s
      → IsInRange fl (run calls s)
  unfolding run is_steady
  run-IsInRange laws [] s h r = r
  run-IsInRange laws (ticked rate ∷ calls) s h r =
      let (now, later) = both (is_in_time fl rate s) _ h in
      run-IsInRange laws calls (tick fl rate s).1 later (tick-IsInRange fl laws rate s now r)
  run-IsInRange laws (updated key value ∷ calls) s h r =
      let (now, later) = both (fl.le value value) _ h in
      run-IsInRange laws calls (update fl key value s) later
        (update-IsInRange fl laws key value s now r)

  made-IsInRange :
      (laws : FloatLaws fl) (segments : List (SegmentDef F))
      → IsInRange fl (make_segment_modulator fl segments)
  unfolding make_segment_modulator
  made-IsInRange laws segments = record {
    some_defs = omega arith;
    few_defs = omega arith;
    phase_range = (zero_zero fl laws, zero_one fl laws);
    rate_range = (zero_one fl laws, laws.one_hundred);
    index = 0;
    cur_seg_index = refl;
    index_below = omega arith;
  }

  full : (segments : List (SegmentDef F)) → length (make_segment_modulator fl segments).defs ≡ 36
  unfolding make_segment_modulator
  full segments =
      let all = segments ++ replicate 36 (default_def fl) in
      length-take 36 all
      ∙ omega (
        arith,
        length-append segments (replicate 36 (default_def fl)),
        length-replicate 36 (default_def fl),
      )

  -- On floats that obey the laws of IEEE 754, after updates with values that are no NaN and ticks of at least as many in a
  -- second as the modulator has periods at that time, and ticks that it ignores, the index of the segment that plays is
  -- one of the segments and of the places of the list: its remainder is not negative. The number of the segments, at
  -- least one and at most 36, and their kinds are those that the modulator was made with.
  pub run-cur_seg :
      (laws : FloatLaws fl) (segments : List (SegmentDef F)) (calls : List Call)
      → is_steady calls (make_segment_modulator fl segments) ≡ true
      → let s = make_segment_modulator fl segments in
        let t = run calls s in
        (t.n_defs ≡ min (max (length segments) 1) 36)
        × (segment_kinds t ≡ segment_kinds s)
        × (i : ℕ) × (t.cur_seg ≡ pos i)
        × (i < t.n_defs)
        × (i < length t.defs)
  unfolding make_segment_modulator
  run-cur_seg laws segments calls steady =
      let s = make_segment_modulator fl segments in
      let n = run-IsNextOf calls s in
      let r = run-IsInRange laws calls s steady (made-IsInRange laws segments) in
      (
        n.same_number,
        n.same_kinds,
        r.index,
        r.cur_seg_index,
        r.index_below,
        omega (arith, r.index_below, n.same_number, n.same_length, full segments),
      )
