-- ===== src/Slice/Remove/Modules.antt =====
-- BackSlice.cpp and ForwardSlice.cpp, `sliceModule`: the module that is left, functions included.
use programslicer.Common.{
  ℕ, ◌≡◌, refl, true, false, none, some, List, [], ◌∷◌, ◌==◌, if◌then◌else◌, All, arith, Bool-cases,
  Option-cases, inl, inr, eq_of_==, ==_refl, ◌⊎◌, subst, sym,
}
use programslicer.Common.Sets
use programslicer.Common.Maps
use programslicer.Common.Maps.{Map}
use programslicer.Ir.{Instruction, Function, Module}
use programslicer.Sdg.Node.{SdgNode, Placement, entry_node}
use programslicer.Sdg.State.{SdgState}
use programslicer.Sdg.Calls.{instructions}
use programslicer.Slice.Remove.{
  is_entry, functions_to_remove, all_instructions, remove_functions, back_slice_module,
  forward_slice_module,
}
use programslicer.Slice.Remove.Exact.{
  HasNode, retain_in_functions, slice_instructions-exact, All-left, All-right, All-join,
}

-- The entry node of a function, if there is one, was made for an entry.
abbrev pub EntryKind : Map SdgNode → Function → Type 0
EntryKind entry_map f =
    (node : SdgNode) → Maps.lookup f.id entry_map ≡ some node → is_entry node ≡ true

module _ (p : Placement) (marked : List ℕ) where
  -- The functions that stay: the marked ones, and those without an entry node.
  abbrev pub retain_functions : Map SdgNode → Module → Module
  retain_functions entry_map [] = []
  retain_functions entry_map (f ∷ fs) =
      let rest = retain_functions entry_map fs in
      elim (Maps.lookup f.id entry_map) [
        | none ↦ f ∷ rest
        | some _ ↦ if Sets.contains (p.addr (entry_node f.id)) marked then f ∷ rest else rest
      ]

  abbrev Goes : Map SdgNode → ℕ → Type 0
  Goes entry_map x =
      (Sets.contains (p.addr (entry_node x)) marked ≡ false)
      × ((node : SdgNode) × (Maps.lookup x entry_map ≡ some node))

  abbrev GoesInto : Map SdgNode → List ℕ → Function → Type 0
  GoesInto entry_map ids f =
      (node : SdgNode)
      → Maps.lookup f.id entry_map ≡ some node
      → Sets.contains (p.addr (entry_node f.id)) marked ≡ false
      → Sets.contains f.id ids ≡ true

  goes-cons :
      (entry_map : Map SdgNode) (y : ℕ) (ids : List ℕ) (m : Module)
      → All (GoesInto entry_map ids) m
      → All (GoesInto entry_map (y ∷ ids)) m
  goes-cons entry_map y ids [] full = tt
  goes-cons entry_map y ids (f ∷ fs) (here, full) = (
    (λ node at_f u. let inside = here node at_f u in ground arith),
    goes-cons entry_map y ids fs full,
  )

  listed :
      (entry_map : Map SdgNode) (m : Module)
      → All (EntryKind entry_map) m
      → (ids : List ℕ) × (functions_to_remove p marked entry_map m ≡ some ids)
        × ((x : ℕ) → Sets.contains x ids ≡ true → Goes entry_map x)
        × All (GoesInto entry_map ids) m
  unfolding functions_to_remove
  listed entry_map [] kinds = ([], refl, (λ x h. ground arith), tt)
  listed entry_map (f ∷ fs) (kind, kinds) =
      let (ids, runs, sound, full) = listed entry_map fs kinds in
      elim (Option-cases (Maps.lookup f.id entry_map)) [
        | inl missing ↦ (ids, ground arith, sound, ((λ node at_f. ground arith), full))
        | inr (node, at_f) ↦
            let is_kind = kind node at_f in
            elim (Bool-cases (Sets.contains (p.addr (entry_node f.id)) marked)) [
              | inl marked_f ↦ (ids, ground arith, sound, ((λ n a. ground arith), full))
              | inr unmarked_f ↦ (
                f.id ∷ ids,
                ground arith,
                (λ x h. elim (Bool-cases (f.id == x)) [
                  | inl same ↦
                      subst (Goes entry_map) (eq_of_== f.id x same) (unmarked_f, (node, at_f))
                  | inr other ↦ sound x (ground arith)
                ]),
                ((λ n a u. ground (arith, ==_refl f.id)), goes-cons entry_map f.id ids fs full),
              )
            ]
      ]

  remove_functions-retain :
      (entry_map : Map SdgNode) (ids : List ℕ)
      → ((x : ℕ) → Sets.contains x ids ≡ true → Goes entry_map x)
      → (m : Module) → All (GoesInto entry_map ids) m
      → remove_functions ids m ≡ retain_functions entry_map m
  unfolding remove_functions
  remove_functions-retain entry_map ids sound [] full = refl
  remove_functions-retain entry_map ids sound (f ∷ fs) (here, full) =
      let rest = remove_functions-retain entry_map ids sound fs full in
      elim (Bool-cases (Sets.contains f.id ids)) [
        | inl inside ↦ let (u, (node, at_f)) = sound f.id inside in ground arith
        | inr outside ↦ elim (Option-cases (Maps.lookup f.id entry_map)) [
          | inl missing ↦ ground arith
          | inr (node, at_f) ↦ elim (Bool-cases (Sets.contains (p.addr (entry_node f.id)) marked)) [
            | inl marked_f ↦ ground arith
            | inr unmarked_f ↦ let inside = here node at_f unmarked_f in ground arith
          ]
        ]
      ]

  retain_functions-cases :
      (entry_map : Map SdgNode) (f : Function) (fs : Module)
      → (retain_functions entry_map (f ∷ fs) ≡ f ∷ retain_functions entry_map fs)
        ⊎ (retain_functions entry_map (f ∷ fs) ≡ retain_functions entry_map fs)
  retain_functions-cases entry_map f fs = elim (Option-cases (Maps.lookup f.id entry_map)) [
    | inl missing ↦ inl (ground arith)
    | inr (node, at_f) ↦ elim (Bool-cases (Sets.contains (p.addr (entry_node f.id)) marked)) [
      | inl marked_f ↦ inl (ground arith)
      | inr unmarked_f ↦ inr (ground arith)
    ]
  ]

  retain_functions-nodes :
      (P : Instruction → Type 0) (entry_map : Map SdgNode) (m : Module)
      → All P (all_instructions m)
      → All P (all_instructions (retain_functions entry_map m))
  unfolding all_instructions
  retain_functions-nodes P entry_map [] all = all
  retain_functions-nodes P entry_map (f ∷ fs) all =
      let rest = All-right P (instructions f) (all_instructions fs) all in
      let tail = retain_functions-nodes P entry_map fs rest in
      let own = All-left P (instructions f) (all_instructions fs) all in
      let kept = all_instructions (retain_functions entry_map fs) in
      elim (retain_functions-cases entry_map f fs) [
        | inl e ↦
            subst (λ n. All P (all_instructions n)) (sym e)
              (All-join P (instructions f) kept own tail)
        | inr e ↦ subst (λ n. All P (all_instructions n)) (sym e) tail
      ]

  -- If every instruction has a node made for an instruction, and every entry node was made for an
  -- entry, then `sliceModule` of the backward slice meets no failing assertion; it leaves exactly
  -- the functions that are marked or have no entry node, and in these, block by block and in their
  -- order, exactly the marked instructions.
  pub back_slice_module-exact :
      (s : SdgState) (m : Module)
      → All (HasNode s.inst_node_map) (all_instructions m)
      → All (EntryKind s.entry_node_map) m
      → back_slice_module p marked s m
        ≡ some (retain_in_functions p marked (retain_functions s.entry_node_map m))
  unfolding back_slice_module
  back_slice_module-exact s m nodes kinds =
      let (ids, runs, sound, full) = listed s.entry_node_map m kinds in
      let same = remove_functions-retain s.entry_node_map ids sound m full in
      let kept = retain_functions-nodes (HasNode s.inst_node_map) s.entry_node_map m nodes in
      let exact = slice_instructions-exact p marked s (retain_functions s.entry_node_map m) kept in
      rw (runs, same, exact)

  -- If every instruction has a node made for an instruction, then `sliceModule` of the forward slice
  -- meets no failing assertion; it leaves every function, and in these, block by block and in their
  -- order, exactly the marked instructions.
  pub forward_slice_module-exact :
      (s : SdgState) (m : Module)
      → All (HasNode s.inst_node_map) (all_instructions m)
      → forward_slice_module p marked s m ≡ some (retain_in_functions p marked m)
  unfolding forward_slice_module
  forward_slice_module-exact s m nodes = slice_instructions-exact p marked s m nodes
