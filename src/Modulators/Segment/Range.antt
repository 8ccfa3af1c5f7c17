-- ===== src/Modulators/Segment/Range.antt =====
-- The phase of a segment modulator and the index that it gives, on floats that obey IEEE 754.
use nomos_rt.Common.{
  ℕ, ◌%◌, ◌≤◌, ◌<◌, Bool, true, false, if_cases, ◌≡◌, refl, sym, ap, ◌∙◌, subst, codes, bytes_eq,
  leb, ◌||◌, ◌^◌, Option, none, some, if_lem,
}
use nomos_rt.Edn.{Text}
use nomos_rt.Numbers.{pos, signed_rem}
use nomos_rt.Modulators.Floats.{Floats, ModulatorOutput, clamp}
use nomos_rt.Modulators.Segment.{
  SegmentModulator, advanced, entered, played, tick, set_segment, segment_key, update, same_int,
}
use native.Mathlib.Nat.{mod-lt}

module _ (fl : Floats) where
  open fl use {F, lit, lt, le}

  -- A number from `low` to `high`, and so no NaN.
  abbrev pub IsWithin : F → F → F → Type 0
  IsWithin low high x = (le low x ≡ true) × (le x high ≡ true)

  -- Orders and monotone operations of IEEE 754, each on a range on which nothing overflows.
  pub record FloatLaws : Type 0 where
    pub le_trans : (a b c : F) → le a b ≡ true → le b c ≡ true → le a c ≡ true
    -- What compares is no NaN, and what is no NaN is equal to itself.
    pub le_self : (a b : F) → le a b ≡ true → (le a a ≡ true) × (le b b ≡ true)
    pub le_of_not_lt : (a b : F) → le a a ≡ true → le b b ≡ true → lt a b ≡ false → le b a ≡ true
    pub le_of_not_le : (a b : F) → le a a ≡ true → le b b ≡ true → le a b ≡ false → le b a ≡ true
    pub zero_small : le (lit 0 1) (lit 1 1000) ≡ true
    pub small_one : le (lit 1 1000) (lit 1 1) ≡ true
    pub one_hundred : le (lit 1 1) (lit 100 1) ≡ true
    pub add_within :
        (p q : F)
        → IsWithin (lit 0 1) (lit 1 1) p
        → IsWithin (lit 0 1) (lit 1 1) q
        → IsWithin (lit 0 1) (lit 2 1) (fl.add p q)
    pub dec_within :
        (x : F) → IsWithin (lit 1 1) (lit 2 1) x → IsWithin (lit 0 1) (lit 1 1) (fl.sub x (lit 1 1))
    pub div_within :
        (a b : F)
        → IsWithin (lit 0 1) (lit 100 1) a
        → le b (lit 0 1) ≡ false
        → le a b ≡ true
        → IsWithin (lit 0 1) (lit 1 1) (fl.div a b)
    pub mul_within :
        (p : F) (n : ℕ)
        → IsWithin (lit 0 1) (lit 1 1) p
        → n ≤ 36
        → IsWithin (lit 0 1) (lit 36 1) (fl.mul p (fl.of_word n))
    pub cast_within : (x : F) → IsWithin (lit 0 1) (lit 36 1) x → (k : ℕ) × (fl.truncated x ≡ pos k)

  pub record IsInRange (s : SegmentModulator fl) : Type 0 where
    pub some_defs : 0 < s.n_defs
    pub few_defs : s.n_defs ≤ 36
    pub phase_range : IsWithin (lit 0 1) (lit 1 1) s.phase
    pub rate_range : IsWithin (lit 0 1) (lit 100 1) s.rate
    pub index : ℕ
    pub cur_seg_index : s.cur_seg ≡ pos index
    pub index_below : index < s.n_defs

  phase_set :
      (s : SegmentModulator fl) {phase : F} {cycle_count : ℕ}
      → IsInRange s
      → IsWithin (lit 0 1) (lit 1 1) phase
      → IsInRange (record s { phase = phase; cycle_count = cycle_count })
  phase_set s r h = record {
    some_defs = r.some_defs;
    few_defs = r.few_defs;
    phase_range = h;
    rate_range = r.rate_range;
    index = r.index;
    cur_seg_index = r.cur_seg_index;
    index_below = r.index_below;
  }

  retuned :
      (depth : F) (s : SegmentModulator fl) {rate : F}
      → IsWithin (lit 0 1) (lit 100 1) rate
      → IsInRange s
      → IsInRange (record s { depth = depth; rate = rate })
  retuned depth s h r = record {
    some_defs = r.some_defs;
    few_defs = r.few_defs;
    phase_range = r.phase_range;
    rate_range = h;
    index = r.index;
    cur_seg_index = r.cur_seg_index;
    index_below = r.index_below;
  }

  set_segment-IsInRange :
      (at : Option (ℕ × Text)) (value : F) (s : SegmentModulator fl)
      → IsInRange s
      → IsInRange (set_segment fl at value s)
  unfolding set_segment
  set_segment-IsInRange none value s r = r
  set_segment-IsInRange (some (idx, field)) value s r =
      if_lem IsInRange (leb (2 ^ 31) idx || leb s.n_defs idx) r (record {
        some_defs = r.some_defs;
        few_defs = r.few_defs;
        phase_range = r.phase_range;
        rate_range = r.rate_range;
        index = r.index;
        cur_seg_index = r.cur_seg_index;
        index_below = r.index_below;
      })

  -- A tick that the modulator ignores, or one of at least as many in a second as the modulator has periods.
  abbrev pub is_in_time : F → SegmentModulator fl → Bool
  is_in_time rate s = le rate (lit 0 1) || le s.rate rate

  module _ (laws : FloatLaws) where
    open laws use {le_trans, le_of_not_lt, le_of_not_le, le_self}

    pub zero_one : le (lit 0 1) (lit 1 1) ≡ true
    zero_one = le_trans _ _ _ laws.zero_small laws.small_one

    pub zero_zero : le (lit 0 1) (lit 0 1) ≡ true
    zero_zero = (le_self _ _ laws.zero_small).0

    rate_clamped :
        (v : F)
        → le v v ≡ true
        → IsWithin (lit 0 1) (lit 100 1) (clamp fl v (lit 1 1000) (lit 100 1))
    unfolding clamp
    rate_clamped v number =
        let small_hundred = le_trans _ _ _ laws.small_one laws.one_hundred in
        let small = (le_self _ _ laws.zero_small).1 in
        let hundred = (le_self _ _ laws.one_hundred).1 in
        if_cases (IsWithin (lit 0 1) (lit 100 1)) (lt v (lit 1 1000))
          (λ below. (laws.zero_small, small_hundred))
          (λ above.
            if_cases (IsWithin (lit 0 1) (lit 100 1)) (lt (lit 100 1) v)
              (λ over. (le_trans _ _ _ zero_one laws.one_hundred, hundred))
              (λ under. (
                le_trans _ _ _ laws.zero_small (le_of_not_lt v (lit 1 1000) number small above),
                le_of_not_lt (lit 100 1) v hundred number under,
              )))

    -- The phase goes on by at most one period.
    advanced-IsInRange :
        (rate : F) (s : SegmentModulator fl)
        → le rate (lit 0 1) ≡ false
        → le s.rate rate ≡ true
        → IsInRange s
        → IsInRange (advanced fl rate s)
    unfolding advanced
    advanced-IsInRange rate s positive fast r =
        let phase = fl.add s.phase (fl.div s.rate rate) in
        let on =
          laws.add_within s.phase (fl.div s.rate rate) r.phase_range
            (laws.div_within s.rate rate r.rate_range positive fast) in
        let one = (le_self _ _ zero_one).1 in
        if_cases IsInRange (le (lit 1 1) phase)
          (λ wraps. phase_set s r (laws.dec_within phase (wraps, on.1)))
          (λ stays.
            phase_set s r (on.0, le_of_not_le (lit 1 1) phase one (le_self _ _ on.0).1 stays))

    entered-IsInRange :
        (k : ℕ) (s : SegmentModulator fl)
        → IsInRange s
        → k < s.n_defs
        → IsInRange (entered fl (pos k) s)
    unfolding entered
    entered-IsInRange k s r h = if_lem IsInRange (same_int (pos k) s.cur_seg) r (record {
      some_defs = r.some_defs;
      few_defs = r.few_defs;
      phase_range = r.phase_range;
      rate_range = r.rate_range;
      index = k;
      cur_seg_index = refl;
      index_below = h;
    })

    played-IsInRange : (s : SegmentModulator fl) → IsInRange s → IsInRange (played fl s)
    unfolding played signed_rem
    played-IsInRange s r =
        let seg_phase = fl.mul s.phase (fl.of_word s.n_defs) in
        let (k, cast) =
          laws.cast_within seg_phase (laws.mul_within s.phase s.n_defs r.phase_range r.few_defs) in
        let e : signed_rem (fl.truncated seg_phase) s.n_defs ≡ pos (k % s.n_defs) =
          ap (λ i. signed_rem i s.n_defs) cast in
        let t =
          subst (λ i. IsInRange (entered fl i s)) (sym e)
            (entered-IsInRange (k % s.n_defs) s r (mod-lt k r.some_defs)) in
        record {
          some_defs = t.some_defs;
          few_defs = t.few_defs;
          phase_range = t.phase_range;
          rate_range = t.rate_range;
          index = t.index;
          cur_seg_index = t.cur_seg_index;
          index_below = t.index_below;
        }

    pub tick-IsInRange :
        (rate : F) (s : SegmentModulator fl)
        → is_in_time rate s ≡ true
        → IsInRange s
        → IsInRange (tick fl rate s).1
    unfolding tick
    tick-IsInRange rate s timely r =
        if_cases (λ (p : ModulatorOutput F × SegmentModulator fl). IsInRange p.1)
          (le rate (lit 0 1)) (λ ignored. r)
          (λ runs.
            played-IsInRange (advanced fl rate s) (
              advanced-IsInRange rate s runs (ap (λ b. b || le s.rate rate) (sym runs) ∙ timely) r))

    pub update-IsInRange :
        (key : Text) (value : F) (s : SegmentModulator fl)
        → le value value ≡ true
        → IsInRange s
        → IsInRange (update fl key value s)
    unfolding update
    update-IsInRange key value s number r =
        if_lem IsInRange (bytes_eq key (codes "depth"))
          (retuned (clamp fl value (lit 0 1) (lit 1 1)) s r.rate_range r)
          (if_lem IsInRange (bytes_eq key (codes "rate"))
            (retuned s.depth s (rate_clamped value number) r)
            (set_segment-IsInRange (segment_key key) value s r))
