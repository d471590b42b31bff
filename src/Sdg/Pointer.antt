-- ===== src/Sdg/Pointer.antt =====
-- SDG.cpp, `generateDefNodeMap` and `generatePointerEdges`: data dependence through memory. LLVM's
-- alias set tracker, fed with the blocks of the module, is a parameter: the pointers that stand in
-- one alias set with a pointer. `none` is the failed `assert(isa<Instruction>(val))`.
use programslicer.Common.{ℕ, Option, none, some, List, [], ◌∷◌, ◌++◌, for_each, if◌then◌else◌, ◌==◌}
use programslicer.Common.Sets
use programslicer.Common.Maps
use programslicer.Common.Maps.{Map}
use programslicer.Ir.{Value, address, Instruction, Opcode, Module}
use programslicer.Sdg.Edge.{flow}
use programslicer.Sdg.Node.{Placement, inst_node}
use programslicer.Sdg.State.{SdgState, add_edge, use_inst}
use programslicer.Sdg.Calls.{instructions}

-- `defNodeMap[inst]`.
abbrev pub def_nodes : ℕ → Map (List ℕ) → List ℕ
def_nodes i m = elim (Maps.lookup i m) [ none ↦ [] | some nodes ↦ nodes ]

-- The users of a value that are loads, in module order: an instruction is listed as often as the
-- value is among its operands.
unfoldable pub uses_in : ℕ → ℕ → List Value → List ℕ
uses_in d i [] = []
uses_in d i (v ∷ vs) = if address v == d then i ∷ uses_in d i vs else uses_in d i vs

unfoldable pub load_users_in : ℕ → List Instruction → List ℕ
unfolding uses_in
load_users_in d [] = []
load_users_in d (i ∷ is) =
    elim i.opcode [ Opcode.load ↦ uses_in d i.id i.operands | _ ↦ [] ] ++ load_users_in d is

unfoldable pub load_users : ℕ → Module → List ℕ
unfolding load_users_in
load_users d [] = []
load_users d (f ∷ fs) = load_users_in d (instructions f) ++ load_users d fs

module _ (p : Placement) where
  -- The loop over the alias set; `store` is the node of the store.
  unfoldable pub define : ℕ → Value → SdgState → Option SdgState
  unfolding Sets.insert Maps.set
  define store (Value.instruction i) s = some (record s {
    def_node_map = Maps.set i (Sets.insert store (def_nodes i s.def_node_map)) s.def_node_map;
  })
  define store (Value.argument a) s = none
  define store (Value.other v) s = none

  unfoldable pub define_opcode : (Value → List Value) → ℕ → Opcode → SdgState → Option SdgState
  unfolding define
  define_opcode alias_set i (Opcode.store v is_pointer) s =
      if is_pointer
      then for_each (define (p.addr (inst_node i))) (alias_set v) (use_inst i s)
      else some s
  define_opcode alias_set i Opcode.ret s = some s
  define_opcode alias_set i (Opcode.call callee actuals) s = some s
  define_opcode alias_set i Opcode.load s = some s
  define_opcode alias_set i Opcode.misc s = some s

  unfoldable pub define_store : (Value → List Value) → Instruction → SdgState → Option SdgState
  unfolding define_opcode
  define_store alias_set i = define_opcode alias_set i.id i.opcode

  unfoldable pub generate_def_node_map : (Value → List Value) → Module → SdgState → Option SdgState
  unfolding define_store
  generate_def_node_map alias_set =
      for_each (λ f. for_each (define_store alias_set) (instructions f))

  -- The three loops of `generatePointerEdges`, the innermost first.
  unfoldable pub pointer_uses : ℕ → List ℕ → SdgState → SdgState
  unfolding add_edge
  pointer_uses src [] s = s
  pointer_uses src (i ∷ is) s =
      pointer_uses src is (add_edge src (p.addr (inst_node i)) flow (use_inst i s))

  unfoldable pub pointer_sources : List ℕ → List ℕ → SdgState → SdgState
  unfolding pointer_uses
  pointer_sources users [] s = s
  pointer_sources users (src ∷ srcs) s = pointer_sources users srcs (pointer_uses src users s)

  unfoldable pub pointer_definitions : Module → Map (List ℕ) → SdgState → SdgState
  unfolding pointer_sources load_users
  pointer_definitions m [] s = s
  pointer_definitions m ((d, srcs) ∷ rest) s =
      pointer_definitions m rest (pointer_sources (load_users d m) srcs s)

  unfoldable pub generate_pointer_edges : Module → SdgState → SdgState
  unfolding pointer_definitions
  generate_pointer_edges m s = pointer_definitions m s.def_node_map s
