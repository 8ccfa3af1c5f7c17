-- ===== src/Modulators/Segment.antt =====
-- src/segment_modulator.cpp: segments that run one after the other. A constructor without segments reads past the end of the
-- list; the model gives it a default one, and so does a read with an index that is negative or too large. The index of a
-- key is a number that wraps at 32 bits, where the code's would overflow.
pub mod Keys
pub mod Run
pub mod Range
mod Tests
use nomos_rt.Common.{
  ℕ, zero, suc, ◌+◌, ◌-◌, ◌*◌, ◌%◌, ◌^◌, Bool, true, false, not, ltb, leb, ◌==◌, ◌&&◌, ◌||◌,
  if◌then◌else◌, Option, none, some, List, [], ◌∷◌, ◌++◌, length, take, drop, replicate, get_or,
  set, min, max, codes, bytes_eq,
}
use nomos_rt.Edn.{Text}
use nomos_rt.Numbers.{ℤ, pos, negsuc, signed_rem}
use nomos_rt.Modulators.Floats.{Floats, ModulatorOutput, blank_output, clamp}

pub data SegmentType : Type 0 where
  ramp step hold alt : SegmentType

-- `segment_def`
pub record SegmentDef (F : Type 0) : Type 0 where
  pub kind : SegmentType
  pub primary : F
  pub secondary : F
  pub loop : Bool

abbrev pub max_segments : ℕ
max_segments = 36

-- What stands before the first underscore and what behind it.
abbrev pub add_before : ℕ → Option (Text × Text) → Option (Text × Text)
add_before c none = none
add_before c (some (before, after)) = some (c ∷ before, after)

unfoldable pub split_at_sep : Text → Option (Text × Text)
split_at_sep [] = none
split_at_sep (c ∷ cs) =
    let rest = split_at_sep cs in if c == 95 then some ([], cs) else add_before c rest

-- The loop over the digits.
unfoldable pub index_from : ℕ → Text → Option ℕ
index_from idx [] = some idx
index_from idx (c ∷ cs) =
    let rest = index_from ((idx * 10 + (c - 48)) % 2 ^ 32) cs in
    if ltb c 48 || ltb 57 c then none else rest

abbrev pub with_field : Text → Option ℕ → Option (ℕ × Text)
with_field field none = none
with_field field (some idx) = some (idx, field)

abbrev pub parts_of : Option (Text × Text) → Option (ℕ × Text)
parts_of none = none
parts_of (some (digits, field)) = with_field field (index_from 0 digits)

-- A key `segment_N_field` as the index and the field.
unfoldable pub segment_key : Text → Option (ℕ × Text)
unfolding split_at_sep index_from
segment_key key =
    if leb (length key) 8
    then none
    else if bytes_eq (take 8 key) (codes "segment_")
    then parts_of (split_at_sep (drop 8 key))
    else none

abbrev pub same_int : ℤ → ℤ → Bool
same_int (pos a) (pos b) = a == b
same_int (pos a) (negsuc b) = false
same_int (negsuc a) (pos b) = false
same_int (negsuc a) (negsuc b) = a == b

module _ (fl : Floats) where
  open fl use {F, lit, lt, le}

  abbrev pub default_def : SegmentDef F
  default_def = record { kind = ramp; primary = lit 1 2; secondary = lit 1 2; loop = false }

  pub record SegmentModulator : Type 0 where
    pub defs : List (SegmentDef F)
    pub n_defs : ℕ
    pub depth : F
    pub rate : F
    pub phase : F
    pub cur_seg : ℤ
    pub cycle_count : ℕ
    pub seg_start_val : F
    pub cur_output : F

  unfoldable pub make_segment_modulator : List (SegmentDef F) → SegmentModulator
  make_segment_modulator segments = record {
    defs = take max_segments (segments ++ replicate max_segments default_def);
    n_defs = min (max (length segments) 1) max_segments;
    depth = lit 1 1;
    rate = lit 1 1;
    phase = lit 0 1;
    cur_seg = pos 0;
    cycle_count = 0;
    seg_start_val = lit 0 1;
    cur_output = lit 0 1;
  }

  -- The phase and the number of cycles.
  unfoldable pub advanced : F → SegmentModulator → SegmentModulator
  advanced rate s =
      let phase = fl.add s.phase (fl.div s.rate rate) in
      if le (lit 1 1) phase
      then record s { phase = fl.sub phase (lit 1 1); cycle_count = (s.cycle_count + 1) % 2 ^ 32 }
      else record s { phase = phase }

  unfoldable pub entered : ℤ → SegmentModulator → SegmentModulator
  entered new_seg s =
      if same_int new_seg s.cur_seg
      then s
      else record s { seg_start_val = s.cur_output; cur_seg = new_seg }

  unfoldable pub segment_output : SegmentDef F → SegmentType → F → SegmentModulator → F
  segment_output seg ramp local_p s =
      fl.add s.seg_start_val (fl.mul local_p (fl.sub seg.primary s.seg_start_val))
  segment_output seg step local_p s = seg.primary
  segment_output seg hold local_p s = s.seg_start_val
  segment_output seg alt local_p s = if s.cycle_count % 2 == 0 then seg.primary else seg.secondary

  -- `defs_[static_cast<std::size_t>(seg)]`, behind whose ends the model has a default segment.
  unfoldable pub def_at : List (SegmentDef F) → ℤ → SegmentDef F
  def_at defs (pos i) = get_or defs i default_def
  def_at defs (negsuc i) = default_def

  -- The value of the segment that the phase is in.
  unfoldable pub played : SegmentModulator → SegmentModulator
  unfolding entered
  played s =
      let seg_phase = fl.mul s.phase (fl.of_word s.n_defs) in
      let local_p = fl.sub seg_phase (fl.floor seg_phase) in
      let t = entered (signed_rem (fl.truncated seg_phase) s.n_defs) s in
      let seg = def_at t.defs t.cur_seg in
      record t { cur_output = clamp fl (segment_output seg seg.kind local_p t) (lit 0 1) (lit 1 1) }

  abbrev pub scaled_output : SegmentModulator → ModulatorOutput F
  scaled_output s = record (blank_output fl) { cv = fl.mul s.cur_output s.depth }

  unfoldable pub tick : F → SegmentModulator → ModulatorOutput F × SegmentModulator
  unfolding advanced played
  tick rate s =
      if le rate (lit 0 1)
      then (scaled_output s, s)
      else (let t = played (advanced rate s) in (scaled_output t, t))

  unfoldable pub set_field : Text → F → SegmentDef F → SegmentDef F
  set_field field v def =
      if bytes_eq field (codes "primary")
      then record def { primary = v }
      else if bytes_eq field (codes "secondary")
      then record def { secondary = v }
      else def

  -- The index as an int: a negative one is out of range too.
  unfoldable pub set_segment : Option (ℕ × Text) → F → SegmentModulator → SegmentModulator
  unfolding set_field
  set_segment none value s = s
  set_segment (some (idx, field)) value s =
      if leb (2 ^ 31) idx || leb s.n_defs idx then s else record s {
        defs =
            set s.defs idx (
              set_field field (clamp fl value (lit 0 1) (lit 1 1)) (get_or s.defs idx default_def));
      }

  unfoldable pub update : Text → F → SegmentModulator → SegmentModulator
  unfolding segment_key set_segment
  update key value s =
      if bytes_eq key (codes "depth")
      then record s { depth = clamp fl value (lit 0 1) (lit 1 1) }
      else if bytes_eq key (codes "rate")
      then record s { rate = clamp fl value (lit 1 1000) (lit 100 1) }
      else set_segment (segment_key key) value s
