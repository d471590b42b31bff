-- ===== src/Slice/Remove.antt =====
-- BackSlice.cpp and ForwardSlice.cpp, `sliceModule`: what is not marked leaves the module. `none`
-- is a failed `assert`. ForwardSlice.cpp has the removal of functions in comments.
pub mod Exact
pub mod Modules
use programslicer.Common.{
  ℕ, Bool, true, false, not, ◌&&◌, ◌||◌, Option, none, some, List, [], ◌∷◌, ◌++◌, ◌==◌,
  if◌then◌else◌, ◌>>=◌,
}
use programslicer.Common.Sets
use programslicer.Common.Maps
use programslicer.Common.Maps.{Map}
use programslicer.Ir.{Instruction, Block, Function, Module}
use programslicer.Sdg.Node.{NodeAttr, SdgNode, Placement, inst_node, entry_node}
use programslicer.Sdg.State.{SdgState}
use programslicer.Sdg.Calls.{instructions}

-- `node->getAttr() == …`.
abbrev pub is_entry : SdgNode → Bool
is_entry node = elim node.attr [ NodeAttr.entry ↦ true | _ ↦ false ]

abbrev pub is_instruction : SdgNode → Bool
is_instruction node = elim node.attr [ NodeAttr.instruction ↦ true | _ ↦ false ]

module _ (p : Placement) (marked : List ℕ) where
  -- The first loop. A function that the entry map does not hold stays.
  unfoldable pub functions_to_remove : Map SdgNode → Module → Option (List ℕ)
  functions_to_remove entry_map [] = some []
  functions_to_remove entry_map (f ∷ fs) = do
    rest ← functions_to_remove entry_map fs
    elim (Maps.lookup f.id entry_map) [
      | none ↦ some rest
      | some node ↦
          if is_entry node
          then some (if Sets.contains (p.addr (entry_node f.id)) marked then rest else f.id ∷ rest)
          else none
    ]

  -- The third loop. `instMap[I]` makes a node where there is none, and the assertion rejects it.
  unfoldable pub instructions_to_remove : Map SdgNode → List Instruction → Option (List ℕ)
  instructions_to_remove inst_map [] = some []
  instructions_to_remove inst_map (i ∷ is) = do
    rest ← instructions_to_remove inst_map is
    elim (Maps.lookup i.id inst_map) [
      | none ↦ none
      | some node ↦
          if is_instruction node
          then some (if Sets.contains (p.addr (inst_node i.id)) marked then rest else i.id ∷ rest)
          else none
    ]

unfoldable pub all_instructions : Module → List Instruction
all_instructions [] = []
all_instructions (f ∷ fs) = instructions f ++ all_instructions fs

-- `removeFromParent`, for every function and every instruction of a list.
unfoldable pub remove_functions : List ℕ → Module → Module
remove_functions ids [] = []
remove_functions ids (f ∷ fs) =
    if Sets.contains f.id ids then remove_functions ids fs else f ∷ remove_functions ids fs

unfoldable pub remove_from_block : List ℕ → List Instruction → List Instruction
remove_from_block ids [] = []
remove_from_block ids (i ∷ is) =
    if Sets.contains i.id ids then remove_from_block ids is else i ∷ remove_from_block ids is

unfoldable pub remove_from_blocks : List ℕ → List Block → List Block
unfolding remove_from_block
remove_from_blocks ids [] = []
remove_from_blocks ids (b ∷ bs) =
    record b { instructions = remove_from_block ids b.instructions } ∷ remove_from_blocks ids bs

unfoldable pub remove_instructions : List ℕ → Module → Module
unfolding remove_from_blocks
remove_instructions ids [] = []
remove_instructions ids (f ∷ fs) =
    record f { blocks = remove_from_blocks ids f.blocks } ∷ remove_instructions ids fs

module _ (p : Placement) (marked : List ℕ) where
  -- The last two loops, which both files have.
  unfoldable pub slice_instructions : SdgState → Module → Option Module
  unfolding instructions_to_remove all_instructions remove_instructions
  slice_instructions s m = do
    ids ← instructions_to_remove p marked s.inst_node_map (all_instructions m)
    some (remove_instructions ids m)

  -- BackSlice.cpp
  unfoldable pub back_slice_module : SdgState → Module → Option Module
  unfolding functions_to_remove remove_functions slice_instructions
  back_slice_module s m = do
    ids ← functions_to_remove p marked s.entry_node_map m
    slice_instructions s (remove_functions ids m)

  -- ForwardSlice.cpp
  unfoldable pub forward_slice_module : SdgState → Module → Option Module
  unfolding slice_instructions
  forward_slice_module s m = slice_instructions s m
