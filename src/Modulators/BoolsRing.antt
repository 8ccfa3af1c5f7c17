-- ===== src/Modulators/BoolsRing.antt =====
-- src/bools_ring_modulator.cpp: a logic function of each of four gates and its neighbour, with a latch.
pub mod Ring
use nomos_rt.Common.{
  ℕ, zero, suc, ◌+◌, ◌^◌, Bool, true, false, not, xor, bit_and, bit_or, ◌&&◌, ◌||◌, ◌==◌,
  if◌then◌else◌, List, [], ◌∷◌, set, get_or, codes, bytes_eq,
}
use nomos_rt.Edn.{Text}
use nomos_rt.Modulators.Floats.{Floats, ModulatorOutput, blank_output, clamp}
use nomos_rt.Modulators.Sources.{Engine, source_of, gate_or, weighted, total, smoothed}

pub data RingMode : Type 0 where
  xor_mode or_mode and_mode nor_mode nand_mode xnor_mode : RingMode

unfoldable pub apply_logic : RingMode → Bool → Bool → Bool
apply_logic xor_mode a b = xor a b
apply_logic or_mode a b = a || b
apply_logic and_mode a b = a && b
apply_logic nor_mode a b = not (a || b)
apply_logic nand_mode a b = not (a && b)
apply_logic xnor_mode a b = not (xor a b)

-- The loop over the outputs whose indices are listed.
unfoldable pub ring_bits : RingMode → List Bool → List ℕ → ℕ → ℕ
unfolding apply_logic
ring_bits mode ins [] bitmap = bitmap
ring_bits mode ins (i ∷ is) bitmap = ring_bits mode ins is (
    if apply_logic mode (get_or ins i false) (get_or ins (bit_and (i + 1) 3) false)
    then bit_or bitmap (2 ^ i)
    else bitmap)

abbrev pub ring : RingMode → List Bool → ℕ
ring mode ins = ring_bits mode ins (0 ∷ 1 ∷ 2 ∷ 3 ∷ []) 0

module _ (fl : Floats) where
  open fl use {F, lit, lt}

  -- `srcs` and `inputs` have four elements each.
  pub record BoolsRing : Type 0 where
    pub mode : RingMode
    pub srcs : List Text
    pub sample_src : Text
    pub inputs : List F
    pub slew : F
    pub sampled : Bool
    pub sample_pending : Bool
    pub sample_prev : Bool
    pub slew_state : F
    pub latched_out : ℕ

  unfoldable pub make_bools_ring : RingMode → Text → Text → Text → Text → Text → BoolsRing
  make_bools_ring mode src0 src1 src2 src3 sample_src = record {
    mode = mode;
    srcs = src0 ∷ src1 ∷ src2 ∷ src3 ∷ [];
    sample_src = sample_src;
    inputs = lit 0 1 ∷ lit 0 1 ∷ lit 0 1 ∷ lit 0 1 ∷ [];
    slew = lit 0 1;
    sampled = false;
    sample_pending = false;
    sample_prev = false;
    slew_state = lit 0 1;
    latched_out = 0;
  }

  unfoldable pub read_gate : Engine fl → Text → F → Bool
  read_gate engine src fallback = gate_or fl (source_of fl engine src) (lt (lit 1 2) fallback)

  unfoldable pub read_gates : Engine fl → List Text → List F → List Bool
  read_gates engine (src ∷ srcs) (x ∷ xs) = read_gate engine src x ∷ read_gates engine srcs xs
  read_gates engine [] xs = []
  read_gates engine (src ∷ srcs) [] = []

  abbrev pub sample_gate : Engine fl → Text → Bool
  sample_gate engine [] = false
  sample_gate engine (c ∷ src) = read_gate engine (c ∷ src) (lit 0 1)

  -- The sample mode: from the gate of the sample clock and the bitmap to what is put out.
  unfoldable pub latch : Bool → ℕ → BoolsRing → ℕ × BoolsRing
  latch gate bitmap s =
      let edge = (gate && not s.sample_prev) || s.sample_pending in
      let kept = if edge then bitmap else s.latched_out in
      (kept, record s { sample_prev = gate; sample_pending = false; latched_out = kept })

  abbrev pub resolve : Engine fl → BoolsRing → ℕ × BoolsRing
  resolve engine s =
      let bitmap = ring s.mode (read_gates engine s.srcs s.inputs) in
      if s.sampled then latch (sample_gate engine s.sample_src) bitmap s else (bitmap, s)

  abbrev pub step_weights : List F
  step_weights = lit 55 100 ∷ lit 109 100 ∷ lit 219 100 ∷ lit 437 100 ∷ []

  -- `kStepMax`
  abbrev pub step_max : F
  step_max = fl.add (fl.add (fl.add (lit 55 100) (lit 109 100)) (lit 219 100)) (lit 437 100)

  unfoldable pub tick : Engine fl → F → BoolsRing → ModulatorOutput F × BoolsRing
  tick engine rate s =
      let (bits, s') = resolve engine s in
      let step_norm =
        fl.div (weighted fl bits (0 ∷ 1 ∷ 2 ∷ 3 ∷ []) step_weights (lit 0 1)) step_max in
      let slewed = smoothed fl s'.slew rate s'.slew_state step_norm in
      (
        record (blank_output fl) {
          cv = step_norm;
          aux = slewed;
          gate = not (bit_and bits 0x1 == 0);
          gate2 = not (bit_and bits 0x2 == 0);
          state = bits;
        },
        record s' { slew_state = slewed },
      )

  unfoldable pub update : Text → F → BoolsRing → BoolsRing
  update key value s =
      if bytes_eq key (codes "in0")
      then record s { inputs = set s.inputs 0 value }
      else if bytes_eq key (codes "in1")
      then record s { inputs = set s.inputs 1 value }
      else if bytes_eq key (codes "in2")
      then record s { inputs = set s.inputs 2 value }
      else if bytes_eq key (codes "in3")
      then record s { inputs = set s.inputs 3 value }
      else if bytes_eq key (codes "slew")
      then record s { slew = clamp fl value (lit 0 1) (lit 1 1) }
      else if bytes_eq key (codes "sampled")
      then record s { sampled = lt (lit 1 2) value }
      else if bytes_eq key (codes "sample_tick") && lt (lit 1 2) value
      then record s { sample_pending = true }
      else s
