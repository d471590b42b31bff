-- ===== src/Slice/Remove/Exact.antt =====
-- BackSlice.cpp and ForwardSlice.cpp, `sliceModule`: the module that is left.
use programslicer.Common.{
  ℕ, ◌≡◌, refl, inl, inr, true, false, some, List, [], ◌∷◌, ◌++◌, if◌then◌else◌, All, arith,
  Bool-cases, eq_of_==, ==_refl,
}
use programslicer.Common.Sets
use programslicer.Common.Maps
use programslicer.Common.Maps.{Map}
use programslicer.Ir.{Instruction, Block, Module}
use programslicer.Sdg.Node.{SdgNode, Placement, inst_node}
use programslicer.Sdg.State.{SdgState}
use programslicer.Sdg.Calls.{instructions, block_instructions}
use programslicer.Slice.Remove.{
  is_instruction, instructions_to_remove, all_instructions, remove_from_block, remove_from_blocks,
  remove_instructions, slice_instructions,
}

-- An instruction that has a node, made for an instruction.
abbrev pub HasNode : Map SdgNode → Instruction → Type 0
HasNode inst_map i =
    (node : SdgNode) × (Maps.lookup i.id inst_map ≡ some node) × (is_instruction node ≡ true)

pub All-left : (P : Instruction → Type 0) (is js : List Instruction) → All P (is ++ js) → All P is
All-left P [] js all = tt
All-left P (i ∷ is) js (here, all) = (here, All-left P is js all)

pub All-right : (P : Instruction → Type 0) (is js : List Instruction) → All P (is ++ js) → All P js
All-right P [] js all = all
All-right P (i ∷ is) js (here, all) = All-right P is js all

pub All-join :
    (P : Instruction → Type 0) (is js : List Instruction) → All P is → All P js → All P (is ++ js)
All-join P [] js left right = right
All-join P (i ∷ is) js (here, left) right = (here, All-join P is js left right)

module _ (p : Placement) (marked : List ℕ) where
  -- What is to stay, by the marks alone.
  abbrev pub retain_instructions : List Instruction → List Instruction
  retain_instructions [] = []
  retain_instructions (i ∷ is) =
      if Sets.contains (p.addr (inst_node i.id)) marked
      then i ∷ retain_instructions is
      else retain_instructions is

  abbrev pub retain_blocks : List Block → List Block
  retain_blocks [] = []
  retain_blocks (b ∷ bs) =
      record b { instructions = retain_instructions b.instructions } ∷ retain_blocks bs

  abbrev pub retain_in_functions : Module → Module
  retain_in_functions [] = []
  retain_in_functions (f ∷ fs) =
      record f { blocks = retain_blocks f.blocks } ∷ retain_in_functions fs

  abbrev IsUnmarked : ℕ → Type 0
  IsUnmarked x = Sets.contains (p.addr (inst_node x)) marked ≡ false

  IsUnmarked-cons :
      (y : ℕ) (ids : List ℕ) (is : List Instruction)
      → All (λ i. IsUnmarked i.id → Sets.contains i.id ids ≡ true) is
      → All (λ i. IsUnmarked i.id → Sets.contains i.id (y ∷ ids) ≡ true) is
  IsUnmarked-cons y ids [] full = tt
  IsUnmarked-cons y ids (i ∷ is) (here, full) =
      ((λ u. let inside = here u in ground arith), IsUnmarked-cons y ids is full)

  -- The list of the third loop holds exactly the unmarked instructions.
  listed :
      (inst_map : Map SdgNode) (is : List Instruction)
      → All (HasNode inst_map) is
      → (ids : List ℕ) × (instructions_to_remove p marked inst_map is ≡ some ids)
        × ((x : ℕ) → Sets.contains x ids ≡ true → IsUnmarked x)
        × All (λ i. IsUnmarked i.id → Sets.contains i.id ids ≡ true) is
  unfolding instructions_to_remove
  listed inst_map [] nodes = ([], refl, (λ x h. ground arith), tt)
  listed inst_map (i ∷ is) ((node, at_i, of_kind), nodes) =
      let (ids, runs, sound, full) = listed inst_map is nodes in
      elim (Bool-cases (Sets.contains (p.addr (inst_node i.id)) marked)) [
        | inl marked_i ↦ (ids, ground arith, sound, (ground arith, full))
        | inr unmarked_i ↦ (
          i.id ∷ ids,
          ground arith,
          (λ x h. let below = sound x in ground (arith, eq_of_== x i.id, eq_of_== i.id x)),
          ((λ u. ground (arith, ==_refl i.id)), IsUnmarked-cons i.id ids is full),
        )
      ]

  module _ (ids : List ℕ) (sound : (x : ℕ) → Sets.contains x ids ≡ true → IsUnmarked x) where
    abbrev Listed : Instruction → Type 0
    Listed i = IsUnmarked i.id → Sets.contains i.id ids ≡ true

    remove_from_block-retain :
        (is : List Instruction) → All Listed is → remove_from_block ids is ≡ retain_instructions is
    unfolding remove_from_block
    remove_from_block-retain [] full = refl
    remove_from_block-retain (i ∷ is) (here, full) =
        let rest = remove_from_block-retain is full in
        let only = sound i.id in
        elim (Bool-cases (Sets.contains (p.addr (inst_node i.id)) marked)) [
          | inl marked_i ↦ ground arith
          | inr unmarked_i ↦ let inside = here unmarked_i in ground arith
        ]

    remove_from_blocks-retain :
        (bs : List Block)
        → All Listed (block_instructions bs)
        → remove_from_blocks ids bs ≡ retain_blocks bs
    unfolding remove_from_blocks block_instructions
    remove_from_blocks-retain [] full = refl
    remove_from_blocks-retain (b ∷ bs) full = rw (
      remove_from_block-retain b.instructions
          (All-left Listed b.instructions (block_instructions bs) full),
      remove_from_blocks-retain bs (All-right Listed b.instructions (block_instructions bs) full),
    )

    remove_instructions-retain :
        (m : Module)
        → All Listed (all_instructions m)
        → remove_instructions ids m ≡ retain_in_functions m
    unfolding remove_instructions all_instructions
    remove_instructions-retain [] full = refl
    remove_instructions-retain (f ∷ fs) full = rw (
      remove_from_blocks-retain f.blocks
          (All-left Listed (instructions f) (all_instructions fs) full),
      remove_instructions-retain fs (All-right Listed (instructions f) (all_instructions fs) full),
    )

  pub slice_instructions-exact :
      (s : SdgState) (m : Module)
      → All (HasNode s.inst_node_map) (all_instructions m)
      → slice_instructions p marked s m ≡ some (retain_in_functions m)
  unfolding slice_instructions
  slice_instructions-exact s m nodes =
      let (ids, runs, sound, full) = listed s.inst_node_map (all_instructions m) nodes in
      let same = remove_instructions-retain ids sound m full in ground arith
