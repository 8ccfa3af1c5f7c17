-- ===== src/Control/Modulators/Types.antt =====
-- src/rt_control_thread.cpp: the modulator that `modulator_start` makes for each type. `none` is a `break` before the
-- call of `start`.
use nomos_rt.Common.{
  ℕ, zero, suc, ◌+◌, ◌%◌, ◌^◌, Bool, true, false, if◌then◌else◌, Option, none, some, List, [], ◌∷◌,
  ◌++◌, codes, bytes_eq, get_elem?,
}
use nomos_rt.Edn.{
  Edn, nil, bool, int, double, keyword, dictionary, entries, Dictionary, Text, as_keyword, as_map,
  as_vector, value_or,
}
use nomos_rt.Control.Host.{
  Host, SlothVariant, torpor, apathy, inertia, triple, Made, slope, segment, slew, shift_register,
  fractal, stochastic, graph, cv_channel_decoder, divine_cmos, statues, cipher, bools_ring,
  sloth_chaos, squid_axon, genie, lets_splosh,
}
use nomos_rt.Control.State.{as_float, get_float}
use nomos_rt.Modulators.CvDecoder.{SourceField, cv_field, aux_field, gate_field}
use nomos_rt.Modulators.Segment.{SegmentType, ramp, step, hold, alt, SegmentDef}
use nomos_rt.Modulators.BoolsRing.{
  RingMode, xor_mode, or_mode, and_mode, nor_mode, nand_mode, xnor_mode,
}
use nomos_rt.Modulators.ShiftRegister.{ShiftMode, lfsr, rungler, turing, open_mode}
use nomos_rt.Modulators.Engine.{assign}
use nomos_rt.Control.Modulators.{
  from_table, keyword_or_empty, numbered, updated, field, first_keyword, get_src, get_in_src,
}

abbrev pub segment_types : List (Text × SegmentType)
segment_types =
    (codes "ramp", ramp) ∷ (codes "step", step) ∷ (codes "hold", hold) ∷ (codes "alt", alt) ∷ []

abbrev pub shift_modes : List (Text × ShiftMode)
shift_modes =
    (codes "lfsr", lfsr)
    ∷ (codes "rungler", rungler)
    ∷ (codes "turing", turing)
    ∷ (codes "open", open_mode)
    ∷ []

abbrev pub ring_modes : List (Text × RingMode)
ring_modes =
    (codes "xor", xor_mode)
    ∷ (codes "or", or_mode)
    ∷ (codes "and", and_mode)
    ∷ (codes "nor", nor_mode)
    ∷ (codes "nand", nand_mode)
    ∷ (codes "xnor", xnor_mode)
    ∷ []

abbrev pub sloth_variants : List (Text × SlothVariant)
sloth_variants =
    (codes "torpor", torpor)
    ∷ (codes "apathy", apathy)
    ∷ (codes "inertia", inertia)
    ∷ (codes "triple", triple)
    ∷ []

-- `field = aux` and `field = gate` by the second keyword of the span.
unfoldable pub source_field : Text → SourceField
source_field name =
    if bytes_eq name (codes "gate")
    then gate_field
    else if bytes_eq name (codes "aux")
    then aux_field
    else cv_field

abbrev pub max_neurons : ℕ
max_neurons = 8

module _ (h : Host) where
  open h use {num, M, make, find_kw}

  -- A modulator that is made and then given its parameters.
  abbrev pub with_params : Made num.D num.F → List (Text × num.F) → Option M
  with_params call params = some (updated h params (make call))

  unfoldable pub make_slope : Dictionary num.D → Option M
  unfolding updated field
  make_slope m = with_params slope (
      field h m (codes "rate") 1 1
      ∷ field h m (codes "shape") 0 1
      ∷ field h m (codes "slope") 0 1
      ∷ field h m (codes "smoothness") 0 1
      ∷ field h m (codes "depth") 1 1
      ∷ field h m (codes "bipolar") 1 1
      ∷ [])

  -- `l && !(l->is_nil() || (l->is<bool>() && !l->get<bool>()))`
  unfoldable pub is_loop : Option (Edn num.D) → Bool
  is_loop none = false
  is_loop (some nil) = false
  is_loop (some (bool b)) = b
  is_loop (some e) = true

  unfoldable pub segment_of : Dictionary num.D → SegmentDef num.F
  unfolding from_table is_loop get_float
  segment_of m = record {
    kind = from_table segment_types (as_keyword (find_kw m (codes "type"))) ramp;
    primary = get_float h m (codes "primary") (num.float_lit 1 2);
    secondary = get_float h m (codes "secondary") (num.float_lit 1 2);
    loop = is_loop (find_kw m (codes "loop"));
  }

  unfoldable pub segments_of : List (Edn num.D) → List (SegmentDef num.F)
  unfolding segment_of
  segments_of [] = []
  segments_of (dictionary m ∷ es) = segment_of (entries m) ∷ segments_of es
  segments_of (e ∷ es) = segments_of es

  -- `if (!defs.empty())`
  unfoldable pub segment_modulator : List (SegmentDef num.F) → Option M
  segment_modulator [] = none
  segment_modulator (d ∷ ds) = some (make (segment (d ∷ ds)))

  unfoldable pub make_segment : Dictionary num.D → Option M
  unfolding segments_of segment_modulator
  make_segment m = elim (as_vector (find_kw m (codes "segments"))) [
    | none ↦ none
    | some es ↦ segment_modulator (segments_of es)
  ]

  unfoldable pub make_slew : Dictionary num.D → Option M
  unfolding updated field
  make_slew m = with_params slew (
      field h m (codes "rise") 1 10
      ∷ field h m (codes "fall") 1 10
      ∷ field h m (codes "cycle") 0 1
      ∷ field h m (codes "depth") 1 1
      ∷ [])

  -- `static_cast<int>(get_f(kw, n))`
  abbrev pub int_field : Dictionary num.D → Text → ℕ → ℕ
  int_field m kw n = num.truncated_float (get_float h m kw (num.float_lit n 1))

  unfoldable pub make_shift_register : Dictionary num.D → Option M
  unfolding updated field from_table get_float
  make_shift_register m =
      with_params
        (shift_register (from_table shift_modes (as_keyword (find_kw m (codes "mode"))) turing)
          (int_field m (codes "length") 16) (int_field m (codes "dac_bits") 3))
        (field h m (codes "clock_rate") 2 1
          ∷ field h m (codes "data") 1 2
          ∷ field h m (codes "param") 1 2
          ∷ field h m (codes "depth") 1 1
          ∷ [])

  unfoldable pub make_fractal : Dictionary num.D → Option M
  unfolding updated field
  make_fractal m = with_params fractal (
      field h m (codes "base_rate") 1 10
      ∷ field h m (codes "octaves") 4 1
      ∷ field h m (codes "lacunarity") 2 1
      ∷ field h m (codes "persistence") 1 2
      ∷ field h m (codes "depth") 1 1
      ∷ [])

  unfoldable pub make_stochastic : Dictionary num.D → Option M
  unfolding updated field
  make_stochastic m = with_params stochastic (
      field h m (codes "rate") 2 1
      ∷ field h m (codes "bias") 1 2
      ∷ field h m (codes "spread") 1 2
      ∷ field h m (codes "deja_vu") 0 1
      ∷ field h m (codes "length") 8 1
      ∷ field h m (codes "depth") 1 1
      ∷ [])

  -- The loop over `params`; an entry that comes again is overwritten.
  unfoldable pub graph_param : Option num.F → Text → List (Text × num.F) → List (Text × num.F)
  graph_param none name params = params
  graph_param (some value) name params = assign name value params

  unfoldable pub graph_params : Dictionary num.D → List (Text × num.F) → List (Text × num.F)
  unfolding graph_param as_float
  graph_params [] params = params
  graph_params ((keyword name, v) ∷ es) params =
      graph_params es (graph_param (as_float h (some v)) name params)
  graph_params ((k, v) ∷ es) params = graph_params es params

  unfoldable pub make_graph : Dictionary num.D → Option M
  unfolding graph_params
  make_graph m = elim (find_kw m (codes "graph")) [
    | none ↦ none
    | some graph_v ↦
        some (
          make
            (graph graph_v (graph_params (value_or (as_map (find_kw m (codes "params"))) []) [])))
  ]

  unfoldable pub channels_of : Option (Edn num.D) → ℕ
  channels_of (some (int n)) = n % 2 ^ 32
  channels_of (some (double x)) = num.truncated x
  channels_of e = 1

  -- A span that is a number.
  unfoldable pub static_span : Option (Edn num.D) → List (Text × num.F)
  unfolding as_float
  static_span v = elim (as_float h v) [ none ↦ [] | some x ↦ (codes "span", x) ∷ [] ]

  unfoldable pub make_cv_channel_decoder : Dictionary num.D → Option M
  unfolding updated field channels_of static_span source_field first_keyword
  make_cv_channel_decoder m =
      let span = find_kw m (codes "span") in
      let second = keyword_or_empty (get_elem? (value_or (as_vector span) []) 1) in
      with_params
        (cv_channel_decoder (channels_of (find_kw m (codes "channels"))) (first_keyword h span)
          (source_field second))
        (field h m (codes "space") 1 1 ∷ field h m (codes "clocked") 0 1 ∷ static_span span)

  -- The first `left` gains, from the number `i` on.
  unfoldable pub gains_of : ℕ → ℕ → List (Edn num.D) → List (Text × num.F)
  unfolding as_float
  gains_of zero i es = []
  gains_of (suc left) i [] = []
  gains_of (suc left) i (e ∷ es) =
      (numbered (codes "gain") i, value_or (as_float h (some e)) (num.float_lit 1 1))
      ∷ gains_of left (i + 1) es

  unfoldable pub make_divine_cmos : Dictionary num.D → Option M
  unfolding updated field get_src gains_of
  make_divine_cmos m =
      with_params (divine_cmos (get_src h m (codes "clock1")) (get_src h m (codes "clock2"))) (
        gains_of 4 0 (value_or (as_vector (find_kw m (codes "gains"))) [])
        ++ field h m (codes "slew") 0 1 ∷ [])

  unfoldable pub make_statues : Dictionary num.D → Option M
  unfolding get_src
  make_statues m = some (make (statues (get_src h m (codes "in")) (get_src h m (codes "addr"))))

  unfoldable pub make_cipher : Dictionary num.D → Option M
  unfolding get_src
  make_cipher m = some (
      make (
        cipher (get_src h m (codes "clock")) (get_src h m (codes "data1"))
          (get_src h m (codes "data2")) (get_src h m (codes "strobe"))))

  unfoldable pub make_bools_ring : Dictionary num.D → Option M
  unfolding updated field from_table get_in_src
  make_bools_ring m =
      with_params
        (bools_ring (from_table ring_modes (as_keyword (find_kw m (codes "mode"))) xor_mode)
          (get_in_src h m (codes "in0")) (get_in_src h m (codes "in1"))
          (get_in_src h m (codes "in2")) (get_in_src h m (codes "in3")) [])
        (field h m (codes "slew") 0 1 ∷ [])

  unfoldable pub make_sloth_chaos : Dictionary num.D → Option M
  unfolding updated field from_table get_src
  make_sloth_chaos m =
      with_params
        (sloth_chaos (from_table sloth_variants (as_keyword (find_kw m (codes "variant"))) torpor)
          (get_src h m (codes "cv")))
        (field h m (codes "knob") 1 2 ∷ [])

  -- `if (m.find_kw("in3"))`
  unfoldable pub patched : Option (Edn num.D) → List (Text × num.F)
  patched none = []
  patched (some e) = (codes "in3_patched", num.float_lit 1 1) ∷ []

  unfoldable pub make_squid_axon : Dictionary num.D → Option M
  unfolding updated get_src patched get_float
  make_squid_axon m =
      with_params
        (squid_axon (get_src h m (codes "clock")) (get_src h m (codes "in1"))
          (get_src h m (codes "in2")) (get_src h m (codes "in3")))
        ((codes "nl_fb", get_float h m (codes "nl-fb") (num.float_lit 0 1))
          ∷ (codes "lin_fb", get_float h m (codes "lin-fb") (num.float_lit 0 1))
          ∷ patched (find_kw m (codes "in3")))

  -- `apply_vec_param`: an item that is no double is left out.
  unfoldable pub vec_params : Text → ℕ → ℕ → List (Edn num.D) → List (Text × num.F)
  vec_params prefix zero i es = []
  vec_params prefix (suc left) i [] = []
  vec_params prefix (suc left) i (double x ∷ es) =
      (numbered prefix i, num.to_float x) ∷ vec_params prefix left (i + 1) es
  vec_params prefix (suc left) i (e ∷ es) = vec_params prefix left (i + 1) es

  unfoldable pub neuron_params : Dictionary num.D → Text → Text → List (Text × num.F)
  unfolding vec_params
  neuron_params m kw prefix =
      vec_params prefix max_neurons 0 (value_or (as_vector (find_kw m kw)) [])

  unfoldable pub make_genie : Dictionary num.D → Option M
  unfolding updated neuron_params get_float
  make_genie m = with_params (genie (int_field m (codes "n") 3)) (
      neuron_params m (codes "gains") (codes "gain")
      ++ (neuron_params m (codes "sense") (codes "sense")
          ++ neuron_params m (codes "response") (codes "response")))

  unfoldable pub make_lets_splosh : Dictionary num.D → Option M
  unfolding get_in_src
  make_lets_splosh m = some (
      make (
        lets_splosh (get_in_src h m (codes "c")) (get_in_src h m (codes "t"))
          (get_in_src h m (codes "n")) (get_in_src h m (codes "b"))))
