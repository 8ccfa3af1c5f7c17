-- ===== src/Modulators/Graph/Fresh.antt =====
-- A tick does not see what an earlier tick left in the scratch buffer.
use nomos_rt.Common.{
  if◌then◌else◌, All, ℕ, zero, suc, ◌+◌, ◌-◌, ◌≤◌, ◌<◌, ◌≡◌, refl, sym, subst, ap, ◌∙◌, Option,
  none, some, List, [], ◌∷◌, length, get_or, set, take, replicate, length-set, length-append,
  length-take, length-replicate, get_or-set_self, get_or-set_ne, arith,
}
use mathlib.Core.Path.{fun_ext}
use native.Mathlib.Decide.{ℕ_discrete}
use nomos_rt.Edn.{Text}
use nomos_rt.Modulators.Floats.{Floats, ModulatorOutput}
use nomos_rt.Modulators.Graph.{NodeKind, phasor, slew, sample_hold, CgNode, ControlGraph}
use nomos_rt.Modulators.Graph.Order.{Below, IsOrderedFrom, IsOrdered}
use nomos_rt.Modulators.Graph.Eval.{
  value_at, input, eval_kind, eval_node, eval_nodes, resized, routed, output_of, tick,
}

inputs-Below :
    (k : ℕ) (is : List (Option ℕ)) (slot : ℕ) → All (Below k) is → Below k (get_or is slot none)
inputs-Below k [] slot b = tt
inputs-Below k (i ∷ is) zero b = b.0
inputs-Below k (i ∷ is) (suc slot) b = inputs-Below k is slot b.1

plus_zero : (k : ℕ) → k ≡ k + 0
plus_zero k = omega arith

zero_plus : (k : ℕ) → 0 + k ≡ k
zero_plus k = omega arith

suc_plus : (k n : ℕ) → suc k + n ≡ k + suc n
suc_plus k n = omega arith

module _ (fl : Floats) where
  open fl use {F, lit, lt, div}

  -- Two buffers of the same size with the same values at the indices below `k`.
  pub record Agree (k size : ℕ) (vals vals' : List F) : Type 0 where
    pub length_left : length vals ≡ size
    pub length_right : length vals' ≡ size
    pub same : (j : ℕ) → j < k → get_or vals j (lit 0 1) ≡ get_or vals' j (lit 0 1)

  up_to :
      {k l size : ℕ} {vals vals' : List F}
      → k ≡ l
      → Agree k size vals vals'
      → Agree l size vals vals'
  up_to {size = size} {vals = vals} {vals' = vals'} e a = subst (λ m. Agree m size vals vals') e a

  value_at-Agree :
      {k size : ℕ} {vals vals' : List F} (i : Option ℕ)
      → Agree k size vals vals'
      → Below k i
      → value_at fl vals i ≡ value_at fl vals' i
  unfolding value_at
  value_at-Agree none a b = refl
  value_at-Agree (some i) a b = a.same i b

  set-Agree :
      {k size : ℕ} {vals vals' : List F} (x : F)
      → Agree k size vals vals'
      → k < size
      → Agree (suc k) size (set vals k x) (set vals' k x)
  set-Agree {k} {size} {vals} {vals'} x a room = record {
    length_left = length-set vals k x ∙ a.length_left;
    length_right = length-set vals' k x ∙ a.length_right;
    same = λ j below. elim (ℕ_discrete k j) [
      | yes e ↦
          subst (λ t. get_or (set vals k x) t (lit 0 1) ≡ get_or (set vals' k x) t (lit 0 1)) e
            (get_or-set_self vals k x (lit 0 1) (omega (arith, a.length_left))
              ∙ sym (get_or-set_self vals' k x (lit 0 1) (omega (arith, a.length_right))))
      | no ne ↦
          get_or-set_ne vals k j x (lit 0 1) ne
          ∙ a.same j (omega arith)
          ∙ sym (get_or-set_ne vals' k j x (lit 0 1) ne)
    ];
  }

  module _ (params : List (Text × F)) (outputs_of : Text → Option (ModulatorOutput F))
      (beat dt : F) where
    eval_node-Agree :
        {k size : ℕ} {vals vals' : List F} (n : CgNode F)
        → Agree k size vals vals'
        → All (Below k) n.inputs
        → eval_node fl params outputs_of beat dt n vals
          ≡ eval_node fl params outputs_of beat dt n vals'
    unfolding eval_node input
    eval_node-Agree {k} n a b =
        ap (λ in_. eval_kind fl params outputs_of beat dt n.type in_ n)
          (fun_ext
            (λ slot. value_at-Agree (get_or n.inputs slot none) a (inputs-Below k n.inputs slot b)))

    eval_nodes-Agree :
        (k size : ℕ) (nodes : List (CgNode F)) (vals vals' : List F)
        → Agree k size vals vals'
        → IsOrderedFrom k nodes
        → k + length nodes ≤ size
        → let r = eval_nodes fl params outputs_of beat dt k nodes vals in
          let r' = eval_nodes fl params outputs_of beat dt k nodes vals' in
          (r.0 ≡ r'.0) × Agree (k + length nodes) size r.1 r'.1
    unfolding eval_nodes
    eval_nodes-Agree k size [] vals vals' a o room = (refl, up_to (plus_zero k) a)
    eval_nodes-Agree k size (n ∷ nodes) vals vals' a (b, o) room =
        let e = eval_node-Agree n a b in
        let x = (eval_node fl params outputs_of beat dt n vals).0 in
        let rest =
          eval_nodes-Agree (suc k) size nodes (set vals k x) (set vals' k x)
            (set-Agree x a (omega arith)) o (omega arith) in
        rw (← e) (
          ap (λ ns. (eval_node fl params outputs_of beat dt n vals).1 ∷ ns) rest.0,
          up_to (suc_plus k (length nodes)) rest.1,
        )

    -- The call of a node changes its state only.
    eval_kind-inputs :
        (kind : NodeKind) (in_ : ℕ → F) (n : CgNode F)
        → (eval_kind fl params outputs_of beat dt kind in_ n).1.inputs ≡ n.inputs
    unfolding eval_kind
    eval_kind-inputs phasor in_ n = refl
    eval_kind-inputs slew in_ n = refl
    eval_kind-inputs sample_hold in_ n = refl
    eval_kind-inputs _ in_ n = refl

    eval_nodes-IsOrderedFrom :
        (k : ℕ) (nodes : List (CgNode F)) (vals : List F)
        → IsOrderedFrom k nodes
        → let r = eval_nodes fl params outputs_of beat dt k nodes vals in
          IsOrderedFrom k r.0 × (length r.0 ≡ length nodes)
    unfolding eval_nodes eval_node
    eval_nodes-IsOrderedFrom k [] vals o = (tt, refl)
    eval_nodes-IsOrderedFrom k (n ∷ nodes) vals (b, o) =
        let rest = eval_nodes-IsOrderedFrom (suc k) nodes (set vals k _) o in
        (
          (subst (All (Below k)) (sym (eval_kind-inputs n.type (input fl n vals) n)) b, rest.0),
          ap suc rest.1,
        )

  length-resized : (n : ℕ) (vals : List F) → length (resized fl n vals) ≡ n
  unfolding resized
  length-resized n vals = omega (
    arith,
    length-append (take n vals) (replicate (n - length vals) (lit 0 1)),
    length-take n vals,
    length-replicate (n - length vals) (lit 0 1),
  )

  routed-Agree :
      {k size : ℕ} {vals vals' : List F} (o : Option ℕ)
      → Agree k size vals vals'
      → Below k o
      → routed fl o vals ≡ routed fl o vals'
  unfolding routed
  routed-Agree none a b = refl
  routed-Agree (some i) a b = ap some (a.same i b)

  module _ (outputs_of : Text → Option (ModulatorOutput F)) (beat rate : F) (g : ControlGraph F)
      (ordered : IsOrdered g) (vals vals' : List F) where
    -- On a graph in topological order, a tick gives the same output and leaves the same graph whatever stands in the
    -- scratch buffer, and the graph stays in order.
    pub tick-IsOrdered :
        let r = tick fl outputs_of beat rate (record { graph = g; values = vals }) in
        let r' = tick fl outputs_of beat rate (record { graph = g; values = vals' }) in
        (r.0 ≡ r'.0) × (r.1.graph ≡ r'.1.graph) × IsOrdered r.1.graph
    unfolding tick output_of
    tick-IsOrdered =
        let dt = if lt (lit 0 1) rate then div (lit 1 1) rate else lit 0 1 in
        let n = length g.nodes in
        let start : Agree 0 n (resized fl n vals) (resized fl n vals') = record {
          length_left = length-resized n vals;
          length_right = length-resized n vals';
          same = λ j below. absurd (omega arith);
        } in
        let r =
          eval_nodes-Agree g.params outputs_of beat dt 0 n g.nodes _ _ start ordered.nodes_ordered
            (omega arith) in
        let a = up_to (zero_plus n) r.1 in
        let kept =
          eval_nodes-IsOrderedFrom g.params outputs_of beat dt 0 g.nodes (resized fl n vals)
            ordered.nodes_ordered in
        (
          rw (
            routed-Agree g.out_cv a ordered.cv_inside,
            routed-Agree g.out_aux a ordered.aux_inside,
            routed-Agree g.out_gate a ordered.gate_inside,
            routed-Agree g.out_gate2 a ordered.gate2_inside,
          ),
          ap (λ ns. record g { nodes = ns }) r.0,
          record {
            nodes_ordered = kept.0;
            cv_inside = subst (λ m. Below m g.out_cv) (sym kept.1) ordered.cv_inside;
            aux_inside = subst (λ m. Below m g.out_aux) (sym kept.1) ordered.aux_inside;
            gate_inside = subst (λ m. Below m g.out_gate) (sym kept.1) ordered.gate_inside;
            gate2_inside = subst (λ m. Below m g.out_gate2) (sym kept.1) ordered.gate2_inside;
          },
        )
