-- ===== src/Sdg/Control.antt =====
-- SDG.cpp, step 1 of `runOnModule`: control dependence edges and the nodes of each function's
-- arguments and result.
use programslicer.Common.{
  ℕ, Option, none, some, List, [], ◌∷◌, ◌>>=◌, for_each, ◌==◌, if◌then◌else◌,
}
use programslicer.Common.Maps.{Map}
use programslicer.DirectedGraph.{DirectedGraph, get_node_set, get_pred_set}
use programslicer.Ir.{Instruction, Block, Function, Module}
use programslicer.Cdg.{PostDominatorTree, run_on_function}
use programslicer.Sdg.Edge.{control}
use programslicer.Sdg.Node.{Placement, inst_node, entry_node, callee_input, callee_output}
use programslicer.Sdg.State.{
  SdgState, add_edge, insert_inst, insert_entry, insert_callee_input, insert_callee_output,
  use_entry,
}

-- The block at an address.
unfoldable pub find_in_blocks : ℕ → List Block → Option Block
find_in_blocks b [] = none
find_in_blocks b (block ∷ blocks) = if block.id == b then some block else find_in_blocks b blocks

unfoldable pub find_block : ℕ → Module → Option Block
unfolding find_in_blocks
find_block b [] = none
find_block b (f ∷ fs) = elim (find_in_blocks b f.blocks) [
  | some block ↦ some block
  | none ↦ find_block b fs
]

-- `getTerminator`: the last instruction, null in a block that has none.
unfoldable pub get_terminator : List Instruction → Option Instruction
get_terminator [] = none
get_terminator (i ∷ []) = some i
get_terminator (i ∷ j ∷ is) = get_terminator (j ∷ is)

-- The keys of a map, in the order of its iterator.
unfoldable pub keys : {V : Type 0} → Map V → List ℕ
keys [] = []
keys ((k, v) ∷ entries) = k ∷ keys entries

module _ (p : Placement) where
  -- The loop over the instructions of the dependent block.
  unfoldable pub control_instructions : ℕ → List Instruction → SdgState → SdgState
  unfolding add_edge
  control_instructions src [] s = s
  control_instructions src (i ∷ is) s =
      control_instructions src is
        (add_edge src (p.addr (inst_node i.id)) control (insert_inst i.id s))

  unfoldable pub callee_inputs : ℕ → List ℕ → SdgState → SdgState
  unfolding add_edge
  callee_inputs src [] s = s
  callee_inputs src (a ∷ args) s =
      callee_inputs src args
        (add_edge src (p.addr (callee_input a)) control (insert_callee_input a s))

  unfoldable pub callee_aux_nodes : Function → SdgState → SdgState
  unfolding add_edge callee_inputs
  callee_aux_nodes f s =
      let src = p.addr (entry_node f.id) in
      add_edge src (p.addr (callee_output f.id)) control
        (insert_callee_output f.id (callee_inputs src f.arguments (use_entry f.id s)))

module _ (p : Placement) (m : Module) where
  -- The loop over the blocks that `D` depends on; 0 stands for the entry.
  unfoldable pub control_predecessor : Block → ℕ → SdgState → Option SdgState
  unfolding control_instructions find_block get_terminator
  control_predecessor d source s =
      if source == 0
      then some (
          control_instructions p (p.addr (entry_node d.parent)) d.instructions
            (insert_entry d.parent s))
      else (do
        block ← find_block source m
        last ← get_terminator block.instructions
        some (
            control_instructions p (p.addr (inst_node last.id)) d.instructions
              (insert_inst last.id s)))

  -- The loop over the nodes of the control dependence graph. It runs over a copy, which nothing
  -- else reads, so what `getPredSet` leaves behind there is dropped.
  unfoldable pub control_block : DirectedGraph ℕ → ℕ → SdgState → Option SdgState
  unfolding control_predecessor get_pred_set keys find_block
  control_block bb_graph d s = if d == 0 then some s else (do
    block ← find_block d m
    for_each (control_predecessor block) (keys (get_pred_set d bb_graph).0) s)

  -- The body of step 1. `pdt` gives the post-dominator tree of each function.
  unfoldable pub control_function :
      (Function → PostDominatorTree) → Function → SdgState → Option SdgState
  unfolding control_block callee_aux_nodes run_on_function get_node_set
  control_function pdt f s = if f.is_declaration then some s else (do
    bb_graph ← run_on_function (pdt f) f s.cdg
    s' ← for_each (control_block bb_graph) (get_node_set bb_graph) (record s { cdg = bb_graph })
    some (callee_aux_nodes p f s'))
