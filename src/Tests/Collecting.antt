-- ===== src/Tests/Collecting.antt =====
-- andersen/lib/ConstraintCollect.cpp: examples.
use programslicer.Common.{
  ℕ, ◌≡◌, ◌↔◌, inl, inr, refl, true, false, Option, none, some, List, [], ◌∷◌, for_each,
}
use programslicer.Common.Maps
use programslicer.NodeFactory.{
  null_object_index, plain, create_value_node, create_object_node, create_return_node,
  create_vararg_node, get_value_node_for, get_value_node_for_constant, get_object_node_for,
  get_object_node_for_constant, global_value,
}
use programslicer.Andersen.Constraint
use programslicer.Andersen.Constraint.{AndersConstraint, constraint, addr_of, copy}
use programslicer.Andersen.Constraint.Meaning.{Satisfies}
use programslicer.Andersen.Constraint.Derives.{Derives, Among}
use programslicer.Andersen.Solve.{SolverState, solve_constraints}
use programslicer.Andersen.Solve.Exact.{PointsTo}
use programslicer.Andersen.Code.{
  Module, Function, Instruction, GlobalVariable, pointer, alloca, call, ret, load, store,
}
use programslicer.Andersen.Collect.{Collector, add, valid, value_node}
use programslicer.Andersen.Collect.Names.{
  noop_funcs, malloc_funcs, realloc_funcs, ret_arg0_funcs, ret_arg1_funcs, ret_arg2_funcs,
  memcpy_funcs, convert_funcs, lookup_name,
}
use programslicer.Andersen.Collect.Library.{
  result_node, is_posix_memalign, allocate, by_name, add_constraint_for_external_library,
}
use programslicer.Andersen.Collect.Calls.{call_external, call_direct, add_constraint_for_call}
use programslicer.Andersen.Collect.Instructions.{
  collect_alloca, collect_ret, collect_load, collect_store, collect_opcode,
}
use programslicer.Andersen.Collect.Globals.{
  create_global, create_signature, create_function, initialize_global,
  add_global_initializer_constraints, collect_constraints_for_globals,
}
use programslicer.Andersen.Collect.Whole.{create_instruction, collect_function, collect_constraints}
use programslicer.Andersen.Collect.Valid.{IsValid}
use programslicer.Andersen.Collect.Demands.{Demands, by_store}
use programslicer.Andersen.Collect.Keeps.Whole.{
  new_collector, collect_constraints-IsValid, collect-solve,
}
use programslicer.Andersen.Alias.{AliasResult, no_alias, Analysis, andersen_alias}
use programslicer.Andersen.Collect.Places.{Found}
use programslicer.Andersen.Run.{run_on_module, run_on_module-safe}
use programslicer.Andersen.Collect.Sound.{collect_constraints_complete, collect-solve_sound}

-- `g` is a global variable that points to itself.
abbrev pub g : GlobalVariable
g = record { address = 20; initializer = some (pointer (global_value 20)) }

-- `p = alloca; q = malloc(); *p = q; r = *p; ret r`
abbrev pub reading : Instruction
reading = record { address = 102; is_pointer = true; opcode = load (plain 100) }

abbrev pub storing : Instruction
storing = record {
  address = 103;
  is_pointer = false;
  opcode = store (record { value = plain 101; is_pointer = true }) (plain 100);
}

abbrev pub main_body : List Instruction
main_body =
    record { address = 100; is_pointer = true; opcode = alloca }
    ∷ record { address = 101; is_pointer = true; opcode = call (some 31) [] }
    ∷ storing
    ∷ reading
    ∷ record {
      address = 104;
      is_pointer = false;
      opcode = ret (some (record { value = plain 102; is_pointer = true }));
    }
    ∷ []

abbrev pub main : Function
main = record {
  address = 30;
  name = "main";
  is_declaration = false;
  is_intrinsic = false;
  has_address_taken = false;
  returns_pointer = true;
  is_var_arg = false;
  arguments = [];
  body = main_body;
}

abbrev pub malloc : Function
malloc = record {
  address = 31;
  name = "malloc";
  is_declaration = true;
  is_intrinsic = false;
  has_address_taken = false;
  returns_pointer = true;
  is_var_arg = false;
  arguments = [];
  body = [];
}

abbrev pub program : Module
program = record { globals = g ∷ []; functions = main ∷ malloc ∷ [] }

-- What is collected, if no assertion fails.
abbrev result : Option Collector → Collector
result none = new_collector
result (some s) = s

abbrev collected : Collector
collected = result (collect_constraints program new_collector)

collected-program : collect_constraints program new_collector ≡ some collected
unfolding collect_constraints collect_constraints_for_globals for_each create_global create_function
    create_signature create_value_node create_object_node create_return_node create_vararg_node
    Maps.set add initialize_global get_object_node_for valid add_global_initializer_constraints
    collect_function create_instruction collect_opcode collect_alloca value_node get_value_node_for
    add_constraint_for_call call_direct call_external add_constraint_for_external_library
    lookup_name noop_funcs collect_load collect_ret collect_store allocate by_name result_node
    is_posix_memalign convert_funcs malloc_funcs memcpy_funcs realloc_funcs ret_arg0_funcs
    ret_arg1_funcs ret_arg2_funcs get_object_node_for_constant get_value_node_for_constant
collected-program = refl

-- Nodes 4 and 5 are `g`, 6 is what `main` returns, 7 to 9 are `p`, `q` and `r`, and 10 and 11 are
-- what `p` and `q` point to.
collected_constraints :
    collected.constraints
    ≡ constraint addr_of 0 1
      ∷ constraint Constraint.store 1 1
      ∷ constraint addr_of 2 3
      ∷ constraint addr_of 4 5
      ∷ constraint addr_of 5 5
      ∷ constraint addr_of 7 10
      ∷ constraint addr_of 8 11
      ∷ constraint Constraint.store 7 8
      ∷ constraint Constraint.load 9 7
      ∷ constraint copy 6 9
      ∷ []
unfolding collect_constraints collect_constraints_for_globals for_each create_global create_function
    create_signature create_value_node create_object_node create_return_node create_vararg_node
    Maps.set add initialize_global get_object_node_for valid add_global_initializer_constraints
    collect_function create_instruction collect_opcode collect_alloca value_node get_value_node_for
    add_constraint_for_call call_direct call_external add_constraint_for_external_library
    lookup_name noop_funcs collect_load collect_ret collect_store allocate by_name result_node
    is_posix_memalign convert_funcs malloc_funcs memcpy_funcs realloc_funcs ret_arg0_funcs
    ret_arg1_funcs ret_arg2_funcs get_object_node_for_constant get_value_node_for_constant
collected_constraints = refl

stored : Demands program main collected storing storing.opcode (constraint Constraint.store 7 8)
unfolding collect_constraints collect_constraints_for_globals for_each create_global create_function
    create_signature create_value_node create_object_node create_return_node create_vararg_node
    Maps.set add initialize_global get_object_node_for valid add_global_initializer_constraints
    collect_function create_instruction collect_opcode collect_alloca value_node get_value_node_for
    add_constraint_for_call call_direct call_external add_constraint_for_external_library
    lookup_name noop_funcs collect_load collect_ret collect_store allocate by_name result_node
    is_posix_memalign convert_funcs malloc_funcs memcpy_funcs realloc_funcs ret_arg0_funcs
    ret_arg1_funcs ret_arg2_funcs get_object_node_for_constant get_value_node_for_constant
stored = by_store refl (refl, refl) (refl, refl)

collect_constraints-IsValid_example : IsValid collected
collect_constraints-IsValid_example =
    collect_constraints-IsValid program collected collected-program

collect-solve_example :
    (s : SolverState) × (solve_constraints 1 collected.constraints collected.node_factory []
      ≡ some s)
    × ((n v : ℕ) → PointsTo s n v ↔ Derives (λ i. i) collected.constraints n v)
collect-solve_example = collect-solve program collected collected-program

collect_constraints_complete_example : Among collected.constraints (constraint Constraint.store 7 8)
collect_constraints_complete_example =
    collect_constraints_complete program collected collected-program main (inl refl) refl storing
      (inr (inr (inl refl))) (constraint Constraint.store 7 8) stored

collect-solve_sound_example :
    (s : SolverState) × (solve_constraints 1 collected.constraints collected.node_factory []
      ≡ some s)
    × ((c : AndersConstraint)
        → Demands program main collected storing storing.opcode c
        → Satisfies (λ i. i) (PointsTo s) c)
collect-solve_sound_example =
    collect-solve_sound program collected collected-program main (inl refl) refl storing
      (inr (inr (inl refl)))

p-Found : Found (plain 100) collected 7
unfolding collect_constraints collect_constraints_for_globals for_each create_global create_function
    create_signature create_value_node create_object_node create_return_node create_vararg_node
    Maps.set add initialize_global get_object_node_for valid add_global_initializer_constraints
    collect_function create_instruction collect_opcode collect_alloca value_node get_value_node_for
    add_constraint_for_call call_direct call_external add_constraint_for_external_library
    lookup_name noop_funcs collect_load collect_ret collect_store allocate by_name result_node
    is_posix_memalign convert_funcs malloc_funcs memcpy_funcs realloc_funcs ret_arg0_funcs
    ret_arg1_funcs ret_arg2_funcs get_object_node_for_constant get_value_node_for_constant
p-Found = (refl, refl)

q-Found : Found (plain 101) collected 8
unfolding collect_constraints collect_constraints_for_globals for_each create_global create_function
    create_signature create_value_node create_object_node create_return_node create_vararg_node
    Maps.set add initialize_global get_object_node_for valid add_global_initializer_constraints
    collect_function create_instruction collect_opcode collect_alloca value_node get_value_node_for
    add_constraint_for_call call_direct call_external add_constraint_for_external_library
    lookup_name noop_funcs collect_load collect_ret collect_store allocate by_name result_node
    is_posix_memalign convert_funcs malloc_funcs memcpy_funcs realloc_funcs ret_arg0_funcs
    ret_arg1_funcs ret_arg2_funcs get_object_node_for_constant get_value_node_for_constant
q-Found = (refl, refl)

run_on_module-safe_example :
    (a : Analysis) × (run_on_module 1 program ≡ some a)
    × (r : AliasResult) × (a' : Analysis) × (andersen_alias 1 plain 100 101 a ≡ some (r, a'))
    × (r ≡ no_alias
        → (o : ℕ) → Derives (λ i. i) collected.constraints 7 o
        → Derives (λ i. i) collected.constraints 8 o
        → o ≡ null_object_index)
run_on_module-safe_example =
    run_on_module-safe program collected collected-program plain 100 101 7 8 p-Found q-Found
