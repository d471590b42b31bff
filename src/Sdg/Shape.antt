-- ===== src/Sdg/Shape.antt =====
-- SDG.cpp, `runOnModule`: the shape of the graph that is built.
use programslicer.Common.{
  ℕ, ◌≡◌, refl, Bool, true, false, Option, some, List, ◌==◌, ◌||◌, ◌&&◌, arith, Ok-some, Bool-cases,
  inl, inr, sym, ◌∙◌,
}
use programslicer.Common.Maps.{Map}
use programslicer.DirectedGraph.{DirectedGraph, insert, succ_edge, IsValid}
use programslicer.DirectedGraph.Laws.{insert-IsValid, succ_edge-insert}
use programslicer.Ir.{Module}
use programslicer.Sdg.Edge.{control, flow, call, param_in, param_out}
use programslicer.Sdg.Node.{
  Place, Placement, inst_node, entry_node, callee_input, callee_output, caller_input, caller_output,
}
use programslicer.Sdg.State.{SdgState}
use programslicer.Sdg.Build.{Analyses, run_on_module}
use programslicer.Sdg.Keeps.{
  ControlEdges, CallEdges, DataEdges, Holds, Sources, Sources-redefine, run_on_module-keeps,
}

-- Which attribute an edge between two nodes may have.
unfoldable pub edge_kind : Place → Place → ℕ → Bool
edge_kind (inst_node i) (inst_node j) attr = attr == control || attr == flow
edge_kind (inst_node i) (entry_node f) attr = attr == call
edge_kind (inst_node i) (caller_input c v) attr = attr == control
edge_kind (inst_node i) (caller_output c v) attr = attr == control
edge_kind (inst_node i) (callee_output f) attr = attr == flow
edge_kind (entry_node f) (inst_node j) attr = attr == control
edge_kind (entry_node f) (callee_input a) attr = attr == control
edge_kind (entry_node f) (callee_output g) attr = attr == control
edge_kind (callee_input a) (inst_node j) attr = attr == flow
edge_kind (caller_output c v) (inst_node j) attr = attr == flow
edge_kind (caller_input c v) (callee_input a) attr = attr == param_in
edge_kind (callee_output f) (caller_output c v) attr = attr == param_out
edge_kind _ _ attr = false

-- An edge is of a kind that its ends allow.
abbrev pub Kind : Placement → ℕ → ℕ → ℕ → Type 0
Kind p src dst attr =
    (a b : Place) × (src ≡ p.addr a) × (dst ≡ p.addr b) × (edge_kind a b attr ≡ true)

-- Every edge of a graph has an edge object, and is of such a kind.
abbrev pub Kinds : Placement → DirectedGraph ℕ → Type 0
Kinds p g =
    (x y : ℕ) (e : Option ℕ)
    → succ_edge g x y ≡ some e
    → (attr : ℕ) × (e ≡ some attr) × Kind p x y attr

abbrev pub IsInst : Placement → ℕ → Type 0
IsInst p src = (n : ℕ) × (src ≡ p.addr (inst_node n))

abbrev pub Shape : Placement → DirectedGraph ℕ → Map (List ℕ) → Type 0
Shape p g defs = IsValid g × Kinds p g × Sources (IsInst p) defs

Kinds-insert :
    (p : Placement) (src dst attr : ℕ) (g : DirectedGraph ℕ)
    → Kind p src dst attr
    → Kinds p g
    → Kinds p (insert src dst (some attr) g)
Kinds-insert p src dst attr g (a, b, at_a, at_b, fits) ks x y e h =
    elim (Bool-cases (src == x && dst == y)) [
      | inl new ↦
          let ends : (src ≡ x) × (dst ≡ y) = ground arith in
          (
            attr,
            ground (arith, succ_edge-insert src dst x y (some attr) g),
            (a, b, sym ends.0 ∙ at_a, sym ends.1 ∙ at_b, fits),
          )
      | inr old ↦ ks x y e (ground (arith, succ_edge-insert src dst x y (some attr) g))
    ]

module _ (p : Placement) where
  control_edges : ControlEdges p (Kind p)
  unfolding edge_kind
  control_edges = record {
    terminator = λ i j. (inst_node i, inst_node j, refl, refl, refl);
    from_entry = λ f j. (entry_node f, inst_node j, refl, refl, refl);
    to_argument = λ f a. (entry_node f, callee_input a, refl, refl, refl);
    to_result = λ f g. (entry_node f, callee_output g, refl, refl, refl);
  }

  call_edges : CallEdges p (Kind p)
  unfolding edge_kind
  call_edges = record {
    to_entry = λ i f. (inst_node i, entry_node f, refl, refl, refl);
    to_actual = λ i c v. (inst_node i, caller_input c v, refl, refl, refl);
    to_formal = λ c v a. (caller_input c v, callee_input a, refl, refl, refl);
    to_return = λ i c v. (inst_node i, caller_output c v, refl, refl, refl);
    returned = λ f c v. (callee_output f, caller_output c v, refl, refl, refl);
  }

  data_edges : DataEdges p (Kind p)
  unfolding edge_kind
  data_edges = record {
    def_use = λ i j. (inst_node i, inst_node j, refl, refl, refl);
    argument_use = λ a j. (callee_input a, inst_node j, refl, refl, refl);
    return_value = λ i f. (inst_node i, callee_output f, refl, refl, refl);
    call_value = λ c v j. (caller_output c v, inst_node j, refl, refl, refl);
  }

  pointer_edges : (src i : ℕ) → IsInst p src → Kind p src (p.addr (inst_node i)) flow
  unfolding edge_kind
  pointer_edges src i (n, e) = (inst_node n, inst_node i, e, refl, refl)

  module _ (a : Analyses) (m : Module) (s s' : SdgState) (run : run_on_module p a m s ≡ some s')
      (new : Shape p s.graph s.def_node_map) where
    -- A builder that returns leaves a valid graph, in which every edge has an attribute that its
    -- ends allow, if the graph and the definition map that it began with are such.
    pub run_on_module-Shape : Shape p s'.graph s'.def_node_map
    run_on_module-Shape =
        Ok-some (Holds (Shape p)) (run_on_module p a m s) s'
          (run_on_module-keeps p (Kind p) (Shape p)
            (λ src dst attr g defs k h.
              (insert-IsValid src dst (some attr) g h.0, Kinds-insert p src dst attr g k h.1, h.2))
            control_edges call_edges data_edges
            (λ i n g defs h.
              (h.0, h.1, Sources-redefine (IsInst p) i (p.addr (inst_node n)) defs (n, refl) h.2))
            (IsInst p) pointer_edges (λ g defs h. h.2) a m s new)
          run
