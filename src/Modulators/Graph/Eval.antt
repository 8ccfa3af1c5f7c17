-- ===== src/Modulators/Graph/Eval.antt =====
-- src/graph_modulator.cpp: `eval_node` and `tick`. `outputs_of` is the engine's `last_output`; without an engine it gives
-- nothing.
use nomos_rt.Common.{
  ℕ, suc, ◌+◌, ◌-◌, Bool, false, ltb, leb, ◌==◌, ◌&&◌, if◌then◌else◌, Option, none, some, List, [],
  ◌∷◌, length, get_or, set, take, replicate, ◌++◌,
}
use nomos_rt.Numbers.{ℤ, pos, negsuc}
use nomos_rt.Edn.{Text}
use nomos_rt.Modulators.Floats.{
  Floats, ModulatorOutput, max_outputs, blank_output, clamp, lesser, greater,
}
use nomos_rt.Modulators.Engine.{find, assign}
use nomos_rt.Modulators.Graph.{
  NodeKind, const_val, param_ref, mod_ref, beat_in, beat_phase, phasor, tri, saw, square, scale,
  add, mul, neg, abs_val, mix, slew, sample_hold, threshold, comparator, CgNode, ControlGraph,
}

module _ (fl : Floats) where
  open fl use {F, lit, truncated, sub, div, lt, le, floor, fmod}

  -- `vals[idx]` where there is such an index, and 0 otherwise.
  unfoldable pub value_at : List F → Option ℕ → F
  value_at vals none = lit 0 1
  value_at vals (some i) = get_or vals i (lit 0 1)

  -- The lambda `in`.
  unfoldable pub input : CgNode F → List F → ℕ → F
  unfolding value_at
  input n vals slot = value_at vals (get_or n.inputs slot none)

  abbrev pub bit : Bool → F
  bit b = if b then lit 1 1 else lit 0 1

  -- `switch (field)`
  unfoldable pub output_field : ℕ → ModulatorOutput F → F
  output_field field out =
      if field == 1
      then out.aux
      else if field == 2
      then bit out.gate
      else if field == 3
      then bit out.gate2
      else if leb 4 field && ltb field (4 + max_outputs)
      then get_or out.outputs (field - 4) (lit 0 1)
      else out.cv

  unfoldable pub referenced : ℤ → Option (ModulatorOutput F) → F
  unfolding output_field
  referenced field none = lit 0 1
  referenced (pos field) (some out) = output_field field out
  referenced (negsuc field) (some out) = out.cv

  unfoldable pub param_value : Option F → F
  param_value none = lit 0 1
  param_value (some x) = x

  -- The new `cur` of a slew, from its rise and fall.
  unfoldable pub slewed : F → F → F → F → F → F
  slewed target rise fall dt cur =
      if lt cur target
      then (if lt (lit 0 1) rise then lesser fl (fl.add cur (div dt rise)) target else target)
      else (if lt (lit 0 1) fall then greater fl (sub cur (div dt fall)) target else target)

  module _ (params : List (Text × F)) (outputs_of : Text → Option (ModulatorOutput F))
      (beat dt : F) where
    -- The value of a node of each kind and its state after the call; `in` reads the slots.
    unfoldable pub eval_kind : NodeKind → (ℕ → F) → CgNode F → F × CgNode F
    unfolding referenced param_value slewed
    eval_kind const_val in_ n = (n.arg, n)
    eval_kind param_ref in_ n = (param_value (find n.param_key params), n)
    eval_kind mod_ref in_ n = (referenced (truncated n.arg) (outputs_of n.param_key), n)
    eval_kind beat_in in_ n = (beat, n)
    eval_kind beat_phase in_ n =
        (if le (in_ 0) (lit 0 1) then lit 0 1 else fmod (div beat (in_ 0)) (lit 1 1), n)
    eval_kind phasor in_ n =
        let ph = fl.add n.state0 (fl.mul (in_ 0) dt) in
        (n.state0, record n { state0 = if le (lit 1 1) ph then sub ph (floor ph) else ph })
    eval_kind NodeKind.sin in_ n = (fl.sin (fl.mul (in_ 0) (lit 6283185307 1000000000)), n)
    eval_kind NodeKind.cos in_ n = (fl.cos (fl.mul (in_ 0) (lit 6283185307 1000000000)), n)
    eval_kind tri in_ n =
        let p = in_ 0 in
        (
          if lt p (lit 1 2)
              then sub (fl.mul (lit 4 1) p) (lit 1 1)
              else sub (lit 3 1) (fl.mul (lit 4 1) p),
          n,
        )
    eval_kind saw in_ n = (sub (fl.mul (in_ 0) (lit 2 1)) (lit 1 1), n)
    eval_kind square in_ n = (if lt (in_ 0) (in_ 1) then lit 1 1 else fl.neg (lit 1 1), n)
    eval_kind scale in_ n = (fl.add (in_ 1) (fl.mul (in_ 0) (sub (in_ 2) (in_ 1))), n)
    eval_kind NodeKind.clamp in_ n = (clamp fl (in_ 0) (in_ 1) (in_ 2), n)
    eval_kind add in_ n = (fl.add (in_ 0) (in_ 1), n)
    eval_kind mul in_ n = (fl.mul (in_ 0) (in_ 1), n)
    eval_kind neg in_ n = (fl.neg (in_ 0), n)
    eval_kind abs_val in_ n = (fl.abs (in_ 0), n)
    eval_kind mix in_ n =
        let t = clamp fl (in_ 2) (lit 0 1) (lit 1 1) in
        (fl.add (fl.mul (in_ 0) (sub (lit 1 1) t)) (fl.mul (in_ 1) t), n)
    eval_kind slew in_ n =
        let cur = slewed (in_ 0) (in_ 1) (in_ 2) dt n.state0 in (cur, record n { state0 = cur })
    eval_kind sample_hold in_ n =
        let held = if lt (lit 1 2) (in_ 1) && le n.state1 (lit 1 2) then in_ 0 else n.state0 in
        (held, record n { state0 = held; state1 = in_ 1 })
    eval_kind threshold in_ n = (bit (lt (in_ 1) (in_ 0)), n)
    eval_kind comparator in_ n = (bit (lt (in_ 1) (in_ 0)), n)

    unfoldable pub eval_node : CgNode F → List F → F × CgNode F
    eval_node n vals = eval_kind n.type (input n vals) n

    -- The loop of `tick` over the nodes from the index `i` on: the nodes and the values after it.
    unfoldable pub eval_nodes : ℕ → List (CgNode F) → List F → List (CgNode F) × List F
    eval_nodes i [] vals = ([], vals)
    eval_nodes i (n ∷ nodes) vals =
        let (x, n') = eval_node n vals in
        let (nodes', vals') = eval_nodes (suc i) nodes (set vals i x) in (n' ∷ nodes', vals')

  -- `resize(n, 0.0f)`
  unfoldable pub resized : ℕ → List F → List F
  resized n vals = take n vals ++ replicate (n - length vals) (lit 0 1)

  -- What an output that is a node changes.
  unfoldable pub routed : Option ℕ → List F → Option F
  routed none vals = none
  routed (some i) vals = some (get_or vals i (lit 0 1))

  abbrev pub or_zero : Option F → F
  or_zero none = lit 0 1
  or_zero (some x) = x

  abbrev pub above_half : Option F → Bool
  above_half none = false
  above_half (some x) = lt (lit 1 2) x

  unfoldable pub output_of : ControlGraph F → List F → ModulatorOutput F
  unfolding routed blank_output
  output_of g vals = record (blank_output fl) {
    cv = or_zero (routed g.out_cv vals);
    aux = or_zero (routed g.out_aux vals);
    gate = above_half (routed g.out_gate vals);
    gate2 = above_half (routed g.out_gate2 vals);
  }

  -- `graph_modulator`: the graph and the scratch buffer.
  pub record GraphModulator : Type 0 where
    pub graph : ControlGraph F
    pub values : List F

  unfoldable pub make_graph_modulator : ControlGraph F → GraphModulator
  make_graph_modulator g = record { graph = g; values = replicate (length g.nodes) (lit 0 1) }

  -- `beat` is the beat as a float.
  unfoldable pub tick :
      (Text → Option (ModulatorOutput F))
      → F
      → F
      → GraphModulator
      → ModulatorOutput F × GraphModulator
  tick outputs_of beat rate s =
      let dt = if lt (lit 0 1) rate then div (lit 1 1) rate else lit 0 1 in
      let g = s.graph in
      let (nodes, vals) =
        eval_nodes g.params outputs_of beat dt 0 g.nodes (resized (length g.nodes) s.values) in
      let g' = record g { nodes = nodes } in
      (output_of g' vals, record { graph = g'; values = vals })

  unfoldable pub update : Text → F → GraphModulator → GraphModulator
  update key value s = record s {
    graph = record (s.graph) { params = assign key value s.graph.params };
  }
