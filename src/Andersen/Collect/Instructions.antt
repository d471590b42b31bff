-- ===== src/Andersen/Collect/Instructions.antt =====
-- andersen/lib/ConstraintCollect.cpp, `collectConstraintsForInstruction`.
use programslicer.Common.{ℕ, Bool, not, Option, none, some, List, if◌then◌else◌, ◌>>=◌, for_each}
use programslicer.NodeFactory.{
  Value, plain, universal_ptr_index, create_object_node, get_return_node_for, get_vararg_node_for,
}
use programslicer.Andersen.Constraint
use programslicer.Andersen.Constraint.{addr_of, copy}
use programslicer.Andersen.Code.{
  Module, Function, Instruction, Operand, Integer, from_pointer, from_pointer_with_offset,
  any_integer, Opcode, alloca, call, ret, load, store, get_element_ptr, phi, bit_cast, int_to_ptr,
  select, va_arg, extract_or_insert_value, exception_or_atomic, other,
}
use programslicer.Andersen.Collect.{Collector, add, valid, value_node}
use programslicer.Andersen.Collect.Calls.{add_constraint_for_call}

unfoldable pub collect_alloca : Instruction → Collector → Option Collector
collect_alloca inst s = do
  val_node ← value_node (plain inst.address) s
  (obj_node, factory) ← create_object_node inst.address s.node_factory
  some (add addr_of val_node obj_node (record s { node_factory = factory }))

unfoldable pub collect_ret : Function → Option Operand → Collector → Option Collector
collect_ret parent none s = some s
collect_ret parent (some op) s =
    let returned = (do
      ret_index ← valid (get_return_node_for parent.address s.node_factory)
      val_index ← value_node op.value s
      some (add copy ret_index val_index s)) in
    if op.is_pointer then returned else some s

unfoldable pub collect_load : Instruction → Value → Collector → Option Collector
collect_load inst op s = do
  op_index ← value_node op s
  val_index ← value_node (plain inst.address) s
  some (add Constraint.load val_index op_index s)

unfoldable pub collect_store : Operand → Value → Collector → Option Collector
collect_store op to s =
    let stored = (do
      src_index ← value_node op.value s
      dst_index ← value_node to s
      some (add Constraint.store dst_index src_index s)) in
    if op.is_pointer then stored else some s

-- The copy of an operand to the result, as for `getelementptr` and `bitcast`.
unfoldable pub collect_copy : Instruction → Value → Collector → Option Collector
collect_copy inst op s = do
  src_index ← value_node op s
  dst_index ← value_node (plain inst.address) s
  some (add copy dst_index src_index s)

-- The body of the loop over the incoming values.
unfoldable pub collect_incoming : ℕ → Value → Collector → Option Collector
collect_incoming dst_index v s = do
  src_index ← value_node v s
  some (add copy dst_index src_index s)

unfoldable pub collect_phi : Instruction → List Value → Collector → Option Collector
collect_phi inst vs s = do
  dst_index ← value_node (plain inst.address) s
  for_each (collect_incoming dst_index) vs s

unfoldable pub collect_int_to_ptr : Instruction → Integer → Collector → Option Collector
collect_int_to_ptr inst op s = do
  dst_index ← value_node (plain inst.address) s
  elim op [
    | from_pointer v ↦ collect_incoming dst_index v s
    | from_pointer_with_offset v ↦ collect_incoming dst_index v s
    | any_integer ↦ some (add copy dst_index universal_ptr_index s)
  ]

unfoldable pub collect_select : Instruction → Value → Value → Collector → Option Collector
collect_select inst v₁ v₂ s = do
  src_index1 ← value_node v₁ s
  src_index2 ← value_node v₂ s
  dst_index ← value_node (plain inst.address) s
  some (add copy dst_index src_index2 (add copy dst_index src_index1 s))

unfoldable pub collect_va_arg : Function → Instruction → Collector → Option Collector
collect_va_arg parent inst s = do
  dst_index ← value_node (plain inst.address) s
  va_index ← valid (get_vararg_node_for parent.address s.node_factory)
  some (add copy dst_index va_index s)

-- A case for results of pointer type only.
abbrev pub if_pointer : Instruction → Option Collector → Collector → Option Collector
if_pointer inst m s = if inst.is_pointer then m else some s

-- A case that asserts a result of pointer type, or one of another type.
abbrev pub assert_pointer : Bool → Option Collector → Option Collector
assert_pointer b m = if b then m else none

-- An instruction of the function `parent`, by its opcode.
unfoldable pub collect_opcode :
    Module → Function → Instruction → Opcode → Collector → Option Collector
collect_opcode m parent inst alloca s = collect_alloca inst s
collect_opcode m parent inst (call f args) s =
    add_constraint_for_call m
      (record { instruction = inst; parent = parent; called = f; arguments = args }) s
collect_opcode m parent inst (ret op) s = collect_ret parent op s
collect_opcode m parent inst (load op) s = if_pointer inst (collect_load inst op s) s
collect_opcode m parent inst (store op to) s = collect_store op to s
collect_opcode m parent inst (get_element_ptr op) s =
    assert_pointer inst.is_pointer (collect_copy inst op s)
collect_opcode m parent inst (phi vs) s = if_pointer inst (collect_phi inst vs s) s
collect_opcode m parent inst (bit_cast op) s = if_pointer inst (collect_copy inst op s) s
collect_opcode m parent inst (int_to_ptr op) s =
    assert_pointer inst.is_pointer (collect_int_to_ptr inst op s)
collect_opcode m parent inst (select v₁ v₂) s = if_pointer inst (collect_select inst v₁ v₂ s) s
collect_opcode m parent inst va_arg s = if_pointer inst (collect_va_arg parent inst s) s
collect_opcode m parent inst extract_or_insert_value s = if_pointer inst none s
collect_opcode m parent inst exception_or_atomic s = none
collect_opcode m parent inst other s = assert_pointer (not inst.is_pointer) (some s)

abbrev pub collect_constraints_for_instruction :
    Module → Function → Instruction → Collector → Option Collector
collect_constraints_for_instruction m parent inst s = collect_opcode m parent inst inst.opcode s
