-- ===== src/Tests/Cutting.antt =====
-- BackSlice.cpp and ForwardSlice.cpp, `sliceModule` and the second loop of `readInit`: examples.
use programslicer.Common.Sets
use programslicer.Slice.Input.{Criterion, mark_functions, lines_of}
use programslicer.Slice.Input.Marks.{Listed, mark_functions-exact}
use programslicer.Slice.Run.{no_criterion}
use programslicer.Common.{Any, true, ◌↔◌, ◌⊎◌, ℕ, ◌≡◌, refl, false, some, List, [], ◌∷◌, arith}
use programslicer.DirectedGraph.{empty}
use programslicer.Ir.{Opcode, Instruction, Function, Module}
use programslicer.Sdg.Node.{NodeAttr, SdgNode, inst_node, entry_node}
use programslicer.Sdg.State.{SdgState}
use programslicer.Sdg.Calls.{block_instructions, instructions}
use programslicer.Slice.Remove.{all_instructions, back_slice_module, forward_slice_module}
use programslicer.Slice.Remove.Exact.{retain_in_functions}
use programslicer.Slice.Remove.Modules.{
  retain_functions, back_slice_module-exact, forward_slice_module-exact,
}
use programslicer.Tests.Placing.{placement}

abbrev instruction : ℕ → Instruction
instruction i = record { id = i; opcode = Opcode.misc; operands = [] }

abbrev one_block : ℕ → List Instruction → Function
one_block f is = record {
  id = f;
  name = f;
  is_declaration = false;
  arguments = [];
  blocks = record { id = 10; parent = f; instructions = is; successors = [] } ∷ [];
}

-- Functions 1 and 2 have entry nodes, of which that of 1 is marked; 3 has none.
abbrev three_functions : Module
three_functions =
    one_block 1 (instruction 11 ∷ instruction 12 ∷ [])
    ∷ one_block 2 (instruction 21 ∷ [])
    ∷ one_block 3 (instruction 31 ∷ [])
    ∷ []

abbrev node_of : NodeAttr → ℕ → SdgNode
node_of attr v = record { attr = attr; value = v }

abbrev nodes : SdgState
nodes = record {
  graph = empty;
  inst_node_map =
      (11, node_of NodeAttr.instruction 11)
      ∷ (12, node_of NodeAttr.instruction 12)
      ∷ (21, node_of NodeAttr.instruction 21)
      ∷ (31, node_of NodeAttr.instruction 31)
      ∷ [];
  entry_node_map = (1, node_of NodeAttr.entry 1) ∷ (2, node_of NodeAttr.entry 2) ∷ [];
  callee_input_node_map = [];
  caller_input_node_map = [];
  callee_output_node_map = [];
  caller_output_node_map = [];
  def_node_map = [];
  cdg = empty;
}

abbrev marks : List ℕ
marks = placement.addr (entry_node 1) ∷ placement.addr (inst_node 11) ∷ []

back_slice_module-exact_example :
    back_slice_module placement marks nodes three_functions
    ≡ some (
        retain_in_functions placement marks
          (retain_functions placement marks nodes.entry_node_map three_functions))
unfolding all_instructions block_instructions
back_slice_module-exact_example =
    back_slice_module-exact placement marks nodes three_functions
      ((_, refl, refl), ((_, refl, refl), ((_, refl, refl), ((_, refl, refl), tt))))
      ((λ n h. ground arith), ((λ n h. ground arith), ((λ n h. ground arith), tt)))

forward_slice_module-exact_example :
    forward_slice_module placement marks nodes three_functions
    ≡ some (retain_in_functions placement marks three_functions)
unfolding all_instructions block_instructions
forward_slice_module-exact_example =
    forward_slice_module-exact placement marks nodes three_functions
      ((_, refl, refl), ((_, refl, refl), ((_, refl, refl), ((_, refl, refl), tt))))

abbrev second_line : Criterion
second_line = record no_criterion { to_slice_list = (1, 1 ∷ []) ∷ [] }

mark_functions-exact_example :
    (Sets.contains
        (placement.addr (inst_node 12))
        (mark_functions placement true second_line three_functions
          (record { marked_nodes = []; bounds_map = []; state = nodes })).marked_nodes
      ≡ true)
    ↔ ((false ≡ true)
        ⊎ Any
            (λ f.
              Listed placement true second_line
                (placement.addr (inst_node 12))
                (lines_of f.name second_line.to_slice_list)
                0
                (instructions f))
            three_functions)
mark_functions-exact_example =
    mark_functions-exact placement true second_line (placement.addr (inst_node 12)) three_functions
      (record { marked_nodes = []; bounds_map = []; state = nodes })
