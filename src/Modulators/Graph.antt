-- ===== src/Modulators/Graph.antt =====
-- src/graph_modulator.hpp and the parser of src/graph_modulator.cpp: a control graph from an EDN expression. A node index
-- is a number, and -1 is `none`.
pub mod Order
pub mod Eval
pub mod Fresh
use nomos_rt.Common.{
  ℕ, zero, suc, ◌+◌, Option, none, some, List, [], ◌∷◌, ◌++◌, length, codes, bytes_eq,
  if◌then◌else◌,
}
use nomos_rt.Edn.{
  Edn, int, double, keyword, vector, dictionary, nil, bool, string, tagged, untagged, other, Items,
  end, item, Dictionary, Text, entries,
}
use nomos_rt.Modulators.Floats.{Floats}

pub data NodeKind : Type 0 where
  const_val param_ref mod_ref beat_in beat_phase phasor sin cos tri saw square scale : NodeKind
  clamp add mul neg abs_val mix slew sample_hold threshold comparator : NodeKind

-- `cg_node`; of `args` the code uses the first. An input that is not listed is -1.
pub record CgNode (F : Type 0) : Type 0 where
  pub type : NodeKind
  pub inputs : List (Option ℕ)
  pub arg : F
  pub param_key : Text
  pub state0 : F
  pub state1 : F

pub record ControlGraph (F : Type 0) : Type 0 where
  pub nodes : List (CgNode F)
  pub params : List (Text × F)
  pub out_cv : Option ℕ
  pub out_aux : Option ℕ
  pub out_gate : Option ℕ
  pub out_gate2 : Option ℕ

-- `child(i)` and `child_or_const(i, def)`
pub data Slot (F : Type 0) : Type 0 where
  child : Slot F
  child_or_const : F → Slot F

module _ (fl : Floats) where
  open fl use {D, F, to_float, of_int64, lit}

  abbrev pub plain : NodeKind → CgNode F
  plain kind = record {
    type = kind;
    inputs = [];
    arg = lit 0 1;
    param_key = [];
    state0 = lit 0 1;
    state1 = lit 0 1;
  }

  abbrev pub const_node : F → CgNode F
  const_node x = record (plain const_val) { arg = x }

  -- The operators with sub-expressions, and the slots that each fills in order.
  abbrev pub operators : List (Text × (NodeKind × List (Slot F)))
  operators =
      (codes "beat", (beat_in, []))
      ∷ (codes "beat-phase", (beat_phase, child_or_const (lit 1 1) ∷ []))
      ∷ (codes "phasor", (phasor, child_or_const (lit 1 1) ∷ []))
      ∷ (codes "sin", (sin, child ∷ []))
      ∷ (codes "cos", (cos, child ∷ []))
      ∷ (codes "tri", (tri, child ∷ []))
      ∷ (codes "saw", (saw, child ∷ []))
      ∷ (codes "square", (square, child ∷ child_or_const (lit 1 2) ∷ []))
      ∷ (codes "scale", (scale, child ∷ child_or_const (lit 0 1) ∷ child_or_const (lit 1 1) ∷ []))
      ∷ (codes "clamp", (clamp, child ∷ child_or_const (lit 0 1) ∷ child_or_const (lit 1 1) ∷ []))
      ∷ (codes "add", (add, child ∷ child ∷ []))
      ∷ (codes "mul", (mul, child ∷ child ∷ []))
      ∷ (codes "neg", (neg, child ∷ []))
      ∷ (codes "abs", (abs_val, child ∷ []))
      ∷ (codes "mix", (mix, child ∷ child ∷ child_or_const (lit 1 2) ∷ []))
      ∷ (codes "slew", (slew, child ∷ child_or_const (lit 1 100) ∷ child_or_const (lit 1 100) ∷ []))
      ∷ (codes "sample-hold", (sample_hold, child ∷ child ∷ []))
      ∷ (codes "threshold", (threshold, child ∷ child_or_const (lit 1 2) ∷ []))
      ∷ (codes "comparator", (comparator, child ∷ child ∷ []))
      ∷ []

  unfoldable pub operator_in :
      List (Text × (NodeKind × List (Slot F))) → Text → Option (NodeKind × List (Slot F))
  operator_in [] op = none
  operator_in ((name, shape) ∷ table) op =
      if bytes_eq op name then some shape else operator_in table op

  -- The operators that take no sub-expression but a value or names behind them.
  unfoldable pub const_arg : Items D → F
  const_arg (item (double x) es) = to_float x
  const_arg es = lit 0 1

  unfoldable pub key_of : Items D → Text
  key_of (item (keyword name) es) = name
  key_of es = []

  unfoldable pub rest_of : Items D → Items D
  rest_of end = end
  rest_of (item e es) = es

  unfoldable pub field_of : Text → F
  field_of name =
      if bytes_eq name (codes "aux")
      then lit 1 1
      else if bytes_eq name (codes "gate")
      then lit 2 1
      else if bytes_eq name (codes "gate2")
      then lit 3 1
      else lit 0 1

  unfoldable pub leaf_of : Text → Items D → Option (CgNode F)
  unfolding const_arg key_of rest_of field_of
  leaf_of op es =
      if bytes_eq op (codes "const")
      then some (const_node (const_arg es))
      else if bytes_eq op (codes "param")
      then some (record (plain param_ref) { param_key = key_of es })
      else if bytes_eq op (codes "mod-out")
      then some
          (record (plain mod_ref) { param_key = key_of es; arg = field_of (key_of (rest_of es)) })
      else none

  -- The nodes with one more behind them, and its index.
  unfoldable pub append_node : CgNode F → List (CgNode F) → Option ℕ × List (CgNode F)
  append_node n nodes = (some (length nodes), nodes ++ n ∷ [])

  -- A slot without an item.
  unfoldable pub missing : Slot F → List (CgNode F) → Option ℕ × List (CgNode F)
  unfolding append_node
  missing child nodes = (none, nodes)
  missing (child_or_const x) nodes = append_node (const_node x) nodes

  unfoldable pub missing_all : List (Slot F) → List (CgNode F) → List (Option ℕ) × List (CgNode F)
  unfolding missing
  missing_all [] nodes = ([], nodes)
  missing_all (s ∷ slots) nodes =
      let (i, nodes') = missing s nodes in
      let (is, nodes'') = missing_all slots nodes' in (i ∷ is, nodes'')

  -- The node of an operator, behind those of its sub-expressions; `args` parses them.
  unfoldable pub operator_node :
      Option (CgNode F)
      → Option (NodeKind × List (Slot F))
      → (List (Slot F) → List (CgNode F) → List (Option ℕ) × List (CgNode F))
      → List (CgNode F)
      → Option ℕ × List (CgNode F)
  unfolding append_node
  operator_node (some leaf) shape args nodes = append_node leaf nodes
  operator_node none none args nodes = (none, nodes)
  operator_node none (some (kind, slots)) args nodes =
      let (is, nodes') = args slots nodes in
      append_node (record (plain kind) { inputs = is }) nodes'

  unfoldable mutual
    pub parse_node : Edn D → List (CgNode F) → Option ℕ × List (CgNode F)
    parse_node (double x) nodes = append_node (const_node (to_float x)) nodes
    parse_node (int n) nodes = append_node (const_node (of_int64 n)) nodes
    parse_node (vector es) nodes = parse_vector es nodes
    parse_node nil nodes = (none, nodes)
    parse_node (bool b) nodes = (none, nodes)
    parse_node (string s) nodes = (none, nodes)
    parse_node (keyword k) nodes = (none, nodes)
    parse_node (dictionary m) nodes = (none, nodes)
    parse_node (tagged tag v) nodes = (none, nodes)
    parse_node (untagged tag) nodes = (none, nodes)
    parse_node (other n) nodes = (none, nodes)

    pub parse_vector : Items D → List (CgNode F) → Option ℕ × List (CgNode F)
    parse_vector (item (keyword op) es) nodes =
        operator_node (leaf_of op es) (operator_in operators op) (parse_args es) nodes
    parse_vector es nodes = (none, nodes)

    pub parse_args : Items D → List (Slot F) → List (CgNode F) → List (Option ℕ) × List (CgNode F)
    parse_args end slots nodes = missing_all slots nodes
    parse_args (item e es) [] nodes = ([], nodes)
    parse_args (item e es) (s ∷ slots) nodes =
        let (i, nodes') = parse_node e nodes in
        let (is, nodes'') = parse_args es slots nodes' in (i ∷ is, nodes'')

  -- `parse_out`
  unfoldable pub parse_out : Option (Edn D) → List (CgNode F) → Option ℕ × List (CgNode F)
  parse_out none nodes = (none, nodes)
  parse_out (some v) nodes = parse_node v nodes

  module _ (find_kw : Dictionary D → Text → Option (Edn D)) where
    unfoldable pub parse_outputs : Dictionary D → List (Text × F) → ControlGraph F
    unfolding parse_out
    parse_outputs m params =
        let (cv, nodes1) = parse_out (find_kw m (codes "cv")) [] in
        let (aux, nodes2) = parse_out (find_kw m (codes "aux")) nodes1 in
        let (gate, nodes3) = parse_out (find_kw m (codes "gate")) nodes2 in
        let (gate2, nodes4) = parse_out (find_kw m (codes "gate2")) nodes3 in
        record {
          nodes = nodes4;
          params = params;
          out_cv = cv;
          out_aux = aux;
          out_gate = gate;
          out_gate2 = gate2;
        }

    unfoldable pub parse_single : Edn D → List (Text × F) → ControlGraph F
    parse_single e params =
        let (cv, nodes) = parse_node e [] in
        record {
          nodes = nodes;
          params = params;
          out_cv = cv;
          out_aux = none;
          out_gate = none;
          out_gate2 = none;
        }

    unfoldable pub parse_control_graph : Edn D → List (Text × F) → ControlGraph F
    unfolding parse_outputs parse_single
    parse_control_graph (dictionary m) params = parse_outputs (entries m) params
    parse_control_graph e params = parse_single e params
