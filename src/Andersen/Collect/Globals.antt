-- ===== src/Andersen/Collect/Globals.antt =====
-- andersen/lib/ConstraintCollect.cpp, `collectConstraintsForGlobals` and
-- `addGlobalInitializerConstraints`.
use programslicer.Common.{ℕ, Bool, ◌||◌, Option, none, some, if◌then◌else◌, ◌>>=◌, for_each}
use programslicer.NodeFactory.{
  AndersNodeFactory, constant, global_value, universal_obj_index, null_object_index,
  create_value_node, create_object_node, create_return_node, create_vararg_node,
  get_object_node_for, get_object_node_for_constant,
}
use programslicer.Andersen.Constraint.{addr_of, copy}
use programslicer.Andersen.Code.{
  Module, Function, Argument, GlobalVariable, Initializer, Initializers, pointer, scalar,
  null_value, undefined, aggregate, no_operand, operand,
}
use programslicer.Andersen.Collect.{Collector, add, valid}

-- A pointer and an object for a global value.
unfoldable pub create_global : ℕ → Collector → Option Collector
create_global a s = do
  (val, f₁) ← create_value_node a s.node_factory
  (obj, f₂) ← create_object_node a f₁
  some (add addr_of val obj (record s { node_factory = f₂ }))

abbrev pub create_global_variable : GlobalVariable → Collector → Option Collector
create_global_variable g s = create_global g.address s

-- A step that changes the factory, if a condition holds.
abbrev pub create_if : Bool → Option (ℕ × AndersNodeFactory) → Collector → Option Collector
create_if c m s = do
  (_, factory) ← (if c then m else some (0, s.node_factory))
  some (record s { node_factory = factory })

-- The body of the loop over the formal arguments.
unfoldable pub create_argument : Argument → Collector → Option Collector
create_argument a s = create_if a.is_pointer (create_value_node a.address s.node_factory) s

-- The nodes of a function that is defined.
unfoldable pub create_signature : Function → Collector → Option Collector
create_signature f s = do
  s₁ ← create_if f.returns_pointer (create_return_node f.address s.node_factory) s
  s₂ ← create_if f.is_var_arg (create_vararg_node f.address s₁.node_factory) s₁
  for_each create_argument f.arguments s₂

-- The body of the loop over the functions.
unfoldable pub create_function : Function → Collector → Option Collector
create_function f s = do
  s₁ ← (if f.has_address_taken then create_global f.address s else some s)
  let defined = create_signature f s₁
  if f.is_declaration || f.is_intrinsic then some s₁ else defined

unfoldable mutual
  pub add_global_initializer_constraints : ℕ → Initializer → Collector → Option Collector
  add_global_initializer_constraints obj_node (pointer c) s = do
    found ← get_object_node_for_constant c s.node_factory
    rhs_node ← valid found
    some (add addr_of obj_node rhs_node s)
  add_global_initializer_constraints obj_node scalar s = some s
  add_global_initializer_constraints obj_node null_value s =
      some (add copy obj_node null_object_index s)
  add_global_initializer_constraints obj_node undefined s = some s
  add_global_initializer_constraints obj_node (aggregate operands) s =
      add_operands obj_node operands s

  -- The loop over the operands.
  pub add_operands : ℕ → Initializers → Collector → Option Collector
  add_operands obj_node no_operand s = some s
  add_operands obj_node (operand c operands) s = do
    s₁ ← add_global_initializer_constraints obj_node c s
    add_operands obj_node operands s₁

-- The body of the last loop.
unfoldable pub initialize_global : GlobalVariable → Collector → Option Collector
initialize_global g s = do
  found ← get_object_node_for (constant (global_value g.address)) s.node_factory
  obj ← valid found
  elim g.initializer [
    | none ↦ some (add copy obj universal_obj_index s)
    | some c ↦ add_global_initializer_constraints obj c s
  ]

unfoldable pub collect_constraints_for_globals : Module → Collector → Option Collector
collect_constraints_for_globals m s = do
  s₁ ← for_each create_global_variable m.globals s
  s₂ ← for_each create_function m.functions s₁
  for_each initialize_global m.globals s₂
