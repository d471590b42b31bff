-- ===== src/Andersen/Collect/Demands.antt =====
-- andersen/lib/ConstraintCollect.cpp: what an instruction demands of the constraints.
use programslicer.Common.{
  ℕ, ◌≡◌, ◌⊎◌, true, false, ◌||◌, none, some, List, [], ◌∷◌, ◌==◌, if◌then◌else◌, Any,
}
use programslicer.NodeFactory.{universal_ptr_index, Value, plain}
use programslicer.Andersen.Constraint
use programslicer.Andersen.Constraint.{AndersConstraint, constraint, addr_of, copy}
use programslicer.Andersen.Code.{
  Module, Function, Argument, function_at, Instruction, Operand, Opcode, alloca, call, ret, load,
  store, get_element_ptr, phi, bit_cast, int_to_ptr, select, from_pointer, from_pointer_with_offset,
}
use programslicer.Andersen.Collect.{Collector}
use programslicer.Andersen.Collect.Places.{
  Found, Site, of_value, of_object, of_return, universal, At,
}

-- The address is that of a function that is defined.
abbrev pub Defines : Module → ℕ → Function → Type 0
Defines m a g =
    (function_at m.functions a ≡ some g) × ((g.is_declaration || g.is_intrinsic) ≡ false)

-- The formal argument and the actual one stand at the same place.
abbrev pub Passed : Argument → Operand → List Argument → List Operand → Type 0
Passed formal actual [] ys = ⊥
Passed formal actual (x ∷ xs) [] = ⊥
Passed formal actual (x ∷ xs) (y ∷ ys) = ((x ≡ formal) × (y ≡ actual)) ⊎ Passed formal actual xs ys

-- What is passed for a pointer: the actual argument, and anything if it is no pointer.
abbrev pub passed_from : Operand → Site
passed_from actual = if actual.is_pointer then of_value actual.value else universal

-- The constraints that an instruction demands by its opcode, for the nodes of its operands and of
-- its result.
pub data Demands (m : Module) (f : Function) (s : Collector) (inst : Instruction)
    : Opcode → AndersConstraint → Type 0 where
  by_alloca :
      {d r : ℕ}
      → (inst.address == 0) ≡ false
      → At (of_object inst.address) s r
      → Found (plain inst.address) s d
      → Demands m f s inst alloca (constraint addr_of d r)
  by_result :
      {a : ℕ} {args : List Operand} {d r : ℕ} (g : Function)
      → Defines m a g
      → inst.is_pointer ≡ true
      → At (of_return g.address) s r
      → Found (plain inst.address) s d
      → Demands m f s inst (call (some a) args) (constraint copy d r)
  by_argument :
      {a : ℕ} {args : List Operand} {d r : ℕ} (g : Function)
      → Defines m a g
      → (formal : Argument) (actual : Operand) → Passed formal actual g.arguments args
      → formal.is_pointer ≡ true
      → At (passed_from actual) s r
      → Found (plain formal.address) s d
      → Demands m f s inst (call (some a) args) (constraint copy d r)
  by_indirect :
      {args : List Operand} {d : ℕ}
      → inst.is_pointer ≡ true
      → Found (plain inst.address) s d
      → Demands m f s inst (call none args) (constraint copy d universal_ptr_index)
  by_ret :
      {op : Operand} {d r : ℕ}
      → op.is_pointer ≡ true
      → Found op.value s r
      → At (of_return f.address) s d
      → Demands m f s inst (ret (some op)) (constraint copy d r)
  by_load :
      {op : Value} {d r : ℕ}
      → inst.is_pointer ≡ true
      → Found op s r
      → Found (plain inst.address) s d
      → Demands m f s inst (load op) (constraint Constraint.load d r)
  by_store :
      {op : Operand} {to : Value} {d r : ℕ}
      → op.is_pointer ≡ true
      → Found op.value s r
      → Found to s d
      → Demands m f s inst (store op to) (constraint Constraint.store d r)
  by_element :
      {op : Value} {d r : ℕ}
      → Found op s r
      → Found (plain inst.address) s d
      → Demands m f s inst (get_element_ptr op) (constraint copy d r)
  by_phi :
      {vs : List Value} {d r : ℕ} (v : Value)
      → inst.is_pointer ≡ true
      → Any (λ w. w ≡ v) vs
      → Found v s r
      → Found (plain inst.address) s d
      → Demands m f s inst (phi vs) (constraint copy d r)
  by_cast :
      {op : Value} {d r : ℕ}
      → inst.is_pointer ≡ true
      → Found op s r
      → Found (plain inst.address) s d
      → Demands m f s inst (bit_cast op) (constraint copy d r)
  by_integer :
      {v : Value} {d r : ℕ}
      → Found v s r
      → Found (plain inst.address) s d
      → Demands m f s inst (int_to_ptr (from_pointer v)) (constraint copy d r)
  by_offset :
      {v : Value} {d r : ℕ}
      → Found v s r
      → Found (plain inst.address) s d
      → Demands m f s inst (int_to_ptr (from_pointer_with_offset v)) (constraint copy d r)
  by_first :
      {v w : Value} {d r : ℕ}
      → inst.is_pointer ≡ true
      → Found v s r
      → Found (plain inst.address) s d
      → Demands m f s inst (select v w) (constraint copy d r)
  by_second :
      {v w : Value} {d r : ℕ}
      → inst.is_pointer ≡ true
      → Found w s r
      → Found (plain inst.address) s d
      → Demands m f s inst (select v w) (constraint copy d r)
