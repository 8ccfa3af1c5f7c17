-- ===== src/Modulators/Graph/Order.antt =====
-- The nodes of a parsed graph stand in topological order.
use nomos_rt.Common.{
  All, ℕ, suc, ◌+◌, ◌≤◌, ◌<◌, ◌≡◌, refl, sym, subst, Option, none, some, List, [], ◌∷◌, ◌++◌,
  length, length-append, Bool-cases, inl, inr, codes, bytes_eq, arith,
}
use nomos_rt.Edn.{
  Edn, int, double, keyword, vector, dictionary, nil, bool, string, tagged, untagged, other, Items,
  end, item, Dictionary, Text, entries,
}
use nomos_rt.Modulators.Floats.{Floats}
use nomos_rt.Modulators.Graph.{
  CgNode, ControlGraph, Slot, NodeKind, child, child_or_const, const_node, operators, operator_in,
  leaf_of, append_node, missing, missing_all, operator_node, parse_node, parse_vector, parse_args,
  parse_out, parse_outputs, parse_single, parse_control_graph,
}

-- An index that is -1, or below a bound.
abbrev pub Below : ℕ → Option ℕ → Type 0
Below n none = Unit {0}
Below n (some i) = i < n

-- The inputs of each node stand before it; the first node has the index `k`.
abbrev pub IsOrderedFrom : {F : Type 0} → ℕ → List (CgNode F) → Type 0
IsOrderedFrom k [] = Unit {0}
IsOrderedFrom k (n ∷ nodes) = All (Below k) n.inputs × IsOrderedFrom (suc k) nodes

-- The nodes are in order, and the outputs are nodes.
pub record IsOrdered {F : Type 0} (g : ControlGraph F) : Type 0 where
  pub nodes_ordered : IsOrderedFrom 0 g.nodes
  pub cv_inside : Below (length g.nodes) g.out_cv
  pub aux_inside : Below (length g.nodes) g.out_aux
  pub gate_inside : Below (length g.nodes) g.out_gate
  pub gate2_inside : Below (length g.nodes) g.out_gate2

Below-mono : {m n : ℕ} (i : Option ℕ) → m ≤ n → Below m i → Below n i
Below-mono none h b = tt
Below-mono (some i) h b = omega arith

All-Below : {m n : ℕ} (is : List (Option ℕ)) → m ≤ n → All (Below m) is → All (Below n) is
All-Below [] h b = tt
All-Below (i ∷ is) h (b, bs) = (Below-mono i h b, All-Below is h bs)

module _ {F : Type 0} where
  IsOrderedFrom-append :
      (k : ℕ) (nodes : List (CgNode F)) (n : CgNode F)
      → IsOrderedFrom k nodes
      → All (Below (k + length nodes)) n.inputs
      → IsOrderedFrom k (nodes ++ n ∷ [])
  IsOrderedFrom-append k [] n o b = (All-Below n.inputs (omega arith) b, tt)
  IsOrderedFrom-append k (m ∷ nodes) n (bm, o) b =
      (bm, IsOrderedFrom-append (suc k) nodes n o (All-Below n.inputs (omega arith) b))

  -- What a call of the parser does to nodes in order: it only adds to them, they stay in order, and the index that it
  -- returns is one of theirs.
  abbrev Grows : List (CgNode F) → Option ℕ × List (CgNode F) → Type 0
  Grows nodes r = (length nodes ≤ length r.1) × IsOrderedFrom 0 r.1 × Below (length r.1) r.0

  abbrev GrowsAll : List (CgNode F) → List (Option ℕ) × List (CgNode F) → Type 0
  GrowsAll nodes r =
      (length nodes ≤ length r.1) × IsOrderedFrom 0 r.1 × All (Below (length r.1)) r.0

  abbrev HasNoInputs : Option (CgNode F) → Type 0
  HasNoInputs none = Unit {0}
  HasNoInputs (some n) = n.inputs ≡ []

module _ (fl : Floats) where
  open fl use {D, F}

  append_node-Grows :
      (n : CgNode F) (nodes : List (CgNode F))
      → IsOrderedFrom 0 nodes
      → All (Below (length nodes)) n.inputs
      → Grows nodes (append_node fl n nodes)
  unfolding append_node
  append_node-Grows n nodes o b = (
    omega (arith, length-append nodes (n ∷ [])),
    IsOrderedFrom-append 0 nodes n o (All-Below n.inputs (omega arith) b),
    omega (arith, length-append nodes (n ∷ [])),
  )

  missing-Grows :
      (s : Slot F) (nodes : List (CgNode F))
      → IsOrderedFrom 0 nodes
      → Grows nodes (missing fl s nodes)
  unfolding missing
  missing-Grows child nodes o = (omega arith, o, tt)
  missing-Grows (child_or_const x) nodes o = append_node-Grows (const_node fl x) nodes o tt

  -- One slot, and then the others.
  then_all :
      (nodes : List (CgNode F)) (r : Option ℕ × List (CgNode F))
      (s : List (Option ℕ) × List (CgNode F))
      → Grows nodes r
      → GrowsAll r.1 s
      → GrowsAll nodes (r.0 ∷ s.0, s.1)
  then_all nodes (i, nodes') (is, nodes'') (l, o, b) (l', o', b') =
      (omega (arith, l, l'), o', (Below-mono i l' b, b'))

  missing_all-GrowsAll :
      (slots : List (Slot F)) (nodes : List (CgNode F))
      → IsOrderedFrom 0 nodes
      → GrowsAll nodes (missing_all fl slots nodes)
  unfolding missing_all
  missing_all-GrowsAll [] nodes o = (omega arith, o, tt)
  missing_all-GrowsAll (s ∷ slots) nodes o =
      let r = missing-Grows s nodes o in
      then_all nodes (missing fl s nodes) (missing_all fl slots (missing fl s nodes).1) r
        (missing_all-GrowsAll slots (missing fl s nodes).1 r.1)

  leaf_of-HasNoInputs : (op : Text) (es : Items D) → HasNoInputs (leaf_of fl op es)
  unfolding leaf_of
  leaf_of-HasNoInputs op es = elim (Bool-cases (bytes_eq op (codes "const"))) [
    | inl const ↦ rw const refl
    | inr other_op ↦ rw other_op (elim (Bool-cases (bytes_eq op (codes "param"))) [
      | inl param ↦ rw param refl
      | inr another ↦ rw another (elim (Bool-cases (bytes_eq op (codes "mod-out"))) [
        | inl source ↦ rw source refl
        | inr unknown ↦ rw unknown tt
      ])
    ])
  ]

  operator_node-Grows :
      (leaf : Option (CgNode F)) (shape : Option (NodeKind × List (Slot F)))
      (args : List (Slot F) → List (CgNode F) → List (Option ℕ) × List (CgNode F))
      (nodes : List (CgNode F))
      → HasNoInputs leaf
      → ((slots : List (Slot F)) → GrowsAll nodes (args slots nodes))
      → IsOrderedFrom 0 nodes
      → Grows nodes (operator_node fl leaf shape args nodes)
  unfolding operator_node
  operator_node-Grows (some leaf) shape args nodes bare grows o =
      append_node-Grows leaf nodes o (subst (All (Below (length nodes))) (sym bare) tt)
  operator_node-Grows none none args nodes bare grows o = (omega arith, o, tt)
  operator_node-Grows none (some (kind, slots)) args nodes bare grows o =
      let g = grows slots in
      let r = append_node-Grows _ (args slots nodes).1 g.1 g.2 in
      (omega (arith, g.0, r.0), r.1, r.2)

  mutual
    unfolding parse_node parse_vector parse_args

    parse_node-Grows :
        (e : Edn D) (nodes : List (CgNode F))
        → IsOrderedFrom 0 nodes
        → Grows nodes (parse_node fl e nodes)
    parse_node-Grows (double x) nodes o = append_node-Grows _ nodes o tt
    parse_node-Grows (int n) nodes o = append_node-Grows _ nodes o tt
    parse_node-Grows (vector es) nodes o = parse_vector-Grows es nodes o
    parse_node-Grows nil nodes o = (omega arith, o, tt)
    parse_node-Grows (bool b) nodes o = (omega arith, o, tt)
    parse_node-Grows (string s) nodes o = (omega arith, o, tt)
    parse_node-Grows (keyword k) nodes o = (omega arith, o, tt)
    parse_node-Grows (dictionary m) nodes o = (omega arith, o, tt)
    parse_node-Grows (tagged tag v) nodes o = (omega arith, o, tt)
    parse_node-Grows (untagged tag) nodes o = (omega arith, o, tt)
    parse_node-Grows (other n) nodes o = (omega arith, o, tt)

    parse_vector-Grows :
        (es : Items D) (nodes : List (CgNode F))
        → IsOrderedFrom 0 nodes
        → Grows nodes (parse_vector fl es nodes)
    parse_vector-Grows end nodes o = (omega arith, o, tt)
    parse_vector-Grows (item (keyword op) es) nodes o =
        operator_node-Grows (leaf_of fl op es) (operator_in fl (operators fl) op) (parse_args fl es)
          nodes (leaf_of-HasNoInputs op es) (λ slots. parse_args-GrowsAll es slots nodes o) o
    parse_vector-Grows (item nil es) nodes o = (omega arith, o, tt)
    parse_vector-Grows (item (bool b) es) nodes o = (omega arith, o, tt)
    parse_vector-Grows (item (int n) es) nodes o = (omega arith, o, tt)
    parse_vector-Grows (item (double x) es) nodes o = (omega arith, o, tt)
    parse_vector-Grows (item (string s) es) nodes o = (omega arith, o, tt)
    parse_vector-Grows (item (vector v) es) nodes o = (omega arith, o, tt)
    parse_vector-Grows (item (dictionary m) es) nodes o = (omega arith, o, tt)
    parse_vector-Grows (item (tagged tag v) es) nodes o = (omega arith, o, tt)
    parse_vector-Grows (item (untagged tag) es) nodes o = (omega arith, o, tt)
    parse_vector-Grows (item (other n) es) nodes o = (omega arith, o, tt)

    parse_args-GrowsAll :
        (es : Items D) (slots : List (Slot F)) (nodes : List (CgNode F))
        → IsOrderedFrom 0 nodes
        → GrowsAll nodes (parse_args fl es slots nodes)
    parse_args-GrowsAll end slots nodes o = missing_all-GrowsAll slots nodes o
    parse_args-GrowsAll (item e es) [] nodes o = (omega arith, o, tt)
    parse_args-GrowsAll (item e es) (s ∷ slots) nodes o =
        let r = parse_node-Grows e nodes o in
        then_all nodes (parse_node fl e nodes) (parse_args fl es slots (parse_node fl e nodes).1) r
          (parse_args-GrowsAll es slots (parse_node fl e nodes).1 r.1)

  parse_out-Grows :
      (o : Option (Edn D)) (nodes : List (CgNode F))
      → IsOrderedFrom 0 nodes
      → Grows nodes (parse_out fl o nodes)
  unfolding parse_out
  parse_out-Grows none nodes ordered = (omega arith, ordered, tt)
  parse_out-Grows (some v) nodes ordered = parse_node-Grows v nodes ordered

  module _ (find_kw : Dictionary D → Text → Option (Edn D)) where
    parse_outputs-IsOrdered :
        (m : Dictionary D) (params : List (Text × F))
        → IsOrdered (parse_outputs fl find_kw m params)
    unfolding parse_outputs
    parse_outputs-IsOrdered m params =
        let a = parse_out-Grows (find_kw m (codes "cv")) [] tt in
        let b = parse_out-Grows (find_kw m (codes "aux")) _ a.1 in
        let c = parse_out-Grows (find_kw m (codes "gate")) _ b.1 in
        let d = parse_out-Grows (find_kw m (codes "gate2")) _ c.1 in
        record {
          nodes_ordered = d.1;
          cv_inside = Below-mono _ d.0 (Below-mono _ c.0 (Below-mono _ b.0 a.2));
          aux_inside = Below-mono _ d.0 (Below-mono _ c.0 b.2);
          gate_inside = Below-mono _ d.0 c.2;
          gate2_inside = d.2;
        }

    parse_single-IsOrdered :
        (e : Edn D) (params : List (Text × F)) → IsOrdered (parse_single fl find_kw e params)
    unfolding parse_single
    parse_single-IsOrdered e params =
        let a = parse_node-Grows e [] tt in
        record {
          nodes_ordered = a.1;
          cv_inside = a.2;
          aux_inside = tt;
          gate_inside = tt;
          gate2_inside = tt;
        }

    -- The graph of any expression, whether it parses or not, has each node behind the nodes that it reads, and its outputs
    -- are nodes or -1.
    pub parse_control_graph-IsOrdered :
        (e : Edn D) (params : List (Text × F)) → IsOrdered (parse_control_graph fl find_kw e params)
    unfolding parse_control_graph
    parse_control_graph-IsOrdered (dictionary m) params = parse_outputs-IsOrdered (entries m) params
    parse_control_graph-IsOrdered (double x) params = parse_single-IsOrdered _ params
    parse_control_graph-IsOrdered (int n) params = parse_single-IsOrdered _ params
    parse_control_graph-IsOrdered (vector es) params = parse_single-IsOrdered _ params
    parse_control_graph-IsOrdered nil params = parse_single-IsOrdered _ params
    parse_control_graph-IsOrdered (bool b) params = parse_single-IsOrdered _ params
    parse_control_graph-IsOrdered (string s) params = parse_single-IsOrdered _ params
    parse_control_graph-IsOrdered (keyword k) params = parse_single-IsOrdered _ params
    parse_control_graph-IsOrdered (tagged tag v) params = parse_single-IsOrdered _ params
    parse_control_graph-IsOrdered (untagged tag) params = parse_single-IsOrdered _ params
    parse_control_graph-IsOrdered (other n) params = parse_single-IsOrdered _ params
