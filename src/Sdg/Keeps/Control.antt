-- ===== src/Sdg/Keeps/Control.antt =====
-- SDG.cpp, step 1: it keeps what its edges keep.
use programslicer.Common.{
  ℕ, some, List, [], ◌∷◌, for_each, Ok, Ok->>=, Ok-if, Ok-for_each, Ok-any, ◌==◌,
}
use programslicer.Common.Maps.{Map}
use programslicer.DirectedGraph.{DirectedGraph, insert, get_node_set, get_pred_set}
use programslicer.Ir.{Instruction, Block, Function, Module}
use programslicer.Cdg.{PostDominatorTree, run_on_function}
use programslicer.Sdg.Edge.{control}
use programslicer.Sdg.Node.{Placement, inst_node, entry_node}
use programslicer.Sdg.State.{SdgState, add_edge, use_entry}
use programslicer.Sdg.Control.{
  control_instructions, control_predecessor, control_block, callee_inputs, callee_aux_nodes,
  control_function, find_block, get_terminator, keys,
}
use programslicer.Sdg.Keeps.Edges.{ControlEdges, Holds}

module _ (p : Placement) (A : ℕ → ℕ → ℕ → Type 0) (P : DirectedGraph ℕ → Map (List ℕ) → Type 0)
    (keep : (src dst attr : ℕ) (g : DirectedGraph ℕ) (defs : Map (List ℕ))
      → A src dst attr
      → P g defs
      → P (insert src dst (some attr) g) defs) where
  module _ (edges : ControlEdges p A) where
    control_instructions-keeps :
        (src : ℕ)
        → ((j : ℕ) → A src (p.addr (inst_node j)) control)
        → (is : List Instruction) (s : SdgState) → Holds P s
        → Holds P (control_instructions p src is s)
    unfolding control_instructions add_edge
    control_instructions-keeps src a [] s h = h
    control_instructions-keeps src a (i ∷ is) s h =
        control_instructions-keeps src a is _ (keep src _ control _ _ (a i.id) h)

    callee_inputs-keeps :
        (f : ℕ) (args : List ℕ) (s : SdgState)
        → Holds P s
        → Holds P (callee_inputs p (p.addr (entry_node f)) args s)
    unfolding callee_inputs add_edge
    callee_inputs-keeps f [] s h = h
    callee_inputs-keeps f (a ∷ args) s h =
        callee_inputs-keeps f args _ (keep _ _ control _ _ (edges.to_argument f a) h)

    module _ (m : Module) where
      control_predecessor-keeps :
          (d : Block) (source : ℕ) (s : SdgState)
          → Holds P s
          → Ok (Holds P) (control_predecessor p m d source s)
      unfolding control_predecessor
      control_predecessor-keeps d source s h =
          Ok-if (Holds P) (source == 0) _ _
            (control_instructions-keeps _ (edges.from_entry d.parent) d.instructions _ h)
            (Ok->>= (λ _. Unit {0}) (Holds P) (find_block source m) _ (Ok-any _)
              (λ block _.
                Ok->>= (λ _. Unit {0}) (Holds P) (get_terminator block.instructions) _ (Ok-any _)
                  (λ last _.
                    control_instructions-keeps _ (edges.terminator last.id) d.instructions _ h)))

      control_block-keeps :
          (g : DirectedGraph ℕ) (d : ℕ) (s : SdgState)
          → Holds P s
          → Ok (Holds P) (control_block p m g d s)
      unfolding control_block
      control_block-keeps g d s h = Ok-if (Holds P) (d == 0) _ _ h (
          Ok->>= (λ _. Unit {0}) (Holds P) (find_block d m) _ (Ok-any _)
            (λ block _.
              Ok-for_each (Holds P) (control_predecessor p m block)
                (control_predecessor-keeps block) (keys (get_pred_set d g).0) s h))

      pub control_function-keeps :
          (pdt : Function → PostDominatorTree) (f : Function) (s : SdgState)
          → Holds P s
          → Ok (Holds P) (control_function p m pdt f s)
      unfolding control_function callee_aux_nodes add_edge
      control_function-keeps pdt f s h = Ok-if (Holds P) f.is_declaration _ _ h (
          Ok->>= (λ _. Unit {0}) (Holds P) (run_on_function (pdt f) f s.cdg) _ (Ok-any _)
            (λ bb_graph _.
              Ok->>= (Holds P) (Holds P)
                (for_each (control_block p m bb_graph) (get_node_set bb_graph)
                  (record s { cdg = bb_graph }))
                _
                (Ok-for_each (Holds P) (control_block p m bb_graph) (control_block-keeps bb_graph)
                  (get_node_set bb_graph) _ h)
                (λ s' h'.
                  keep _ _ control _ _ (edges.to_result f.id f.id)
                    (callee_inputs-keeps f.id f.arguments (use_entry f.id s') h'))))
