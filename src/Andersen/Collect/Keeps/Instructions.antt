-- ===== src/Andersen/Collect/Keeps/Instructions.antt =====
-- andersen/lib/ConstraintCollect.cpp, `collectConstraintsForInstruction`: it keeps the state valid.
use programslicer.Common.{
  ℕ, ◌<◌, not, Option, none, some, List, arith, Yields, fails, yields, Yields->>=, Yields-if,
  Yields-for_each,
}
use programslicer.NodeFactory.{Value, plain, universal_ptr_index}
use programslicer.Andersen.Constraint.{addr_of, copy}
use programslicer.Andersen.Constraint
use programslicer.Andersen.Code.{
  Module, Function, Instruction, Operand, Integer, from_pointer, from_pointer_with_offset,
  any_integer, Opcode, alloca, call, ret, load, store, get_element_ptr, phi, bit_cast, int_to_ptr,
  select, va_arg, extract_or_insert_value, exception_or_atomic, other,
}
use programslicer.Andersen.Collect.{Collector, add, value_node}
use programslicer.Andersen.Collect.Instructions.{
  collect_alloca, collect_ret, collect_load, collect_store, collect_copy, collect_incoming,
  collect_phi, collect_int_to_ptr, collect_select, collect_va_arg, collect_opcode,
}
use programslicer.Andersen.Collect.Valid.{size, Keeps, add-Keeps, value_node-bound, valid-found}
use programslicer.Andersen.Collect.Created.{create_object_node-Created}
use programslicer.Andersen.Collect.Keeps.{Keeps-trans, Keeps-self, added, from_size}
use programslicer.Andersen.Collect.Keeps.Calls.{add_constraint_for_call-Keeps}

pub collect_incoming-Keeps :
    (k : Collector) (d : ℕ)
    → d < size k
    → (v : Value) (s : Collector) → Keeps k s
    → Yields (Keeps k) (collect_incoming d v s)
unfolding collect_incoming
collect_incoming-Keeps k d h v s keeps =
    Yields->>= (value_node-bound v s keeps.0)
      (λ r hr. added copy keeps (omega (arith, h, keeps.1.longer)) hr)

module _ (k : Collector) (inst : Instruction) (s : Collector) (keeps : Keeps k s) where
  own_node : Yields (λ i. i < size s) (value_node (plain inst.address) s)
  own_node = value_node-bound (plain inst.address) s keeps.0

  collect_alloca-Keeps : Yields (Keeps k) (collect_alloca inst s)
  unfolding collect_alloca
  collect_alloca-Keeps = Yields->>= own_node (λ d hd.
      Yields->>= (create_object_node-Created s keeps.0 inst.address) (λ (obj, f) (in_obj, keeps').
        added addr_of (Keeps-trans k s (record s { node_factory = f }) keeps keeps')
          (omega (arith, hd, keeps'.1.longer)) in_obj))

  collect_ret-Keeps : (f : Function) (op : Option Operand) → Yields (Keeps k) (collect_ret f op s)
  unfolding collect_ret
  collect_ret-Keeps f none = yields keeps
  collect_ret-Keeps f (some op) =
      Yields-if op.is_pointer
        (Yields->>= (valid-found (size s) f.address s.node_factory.return_map keeps.0.returns)
          (λ d hd.
            Yields->>= (value_node-bound op.value s keeps.0) (λ r hr. added copy keeps hd hr)))
        (yields keeps)

  collect_load-Keeps : (op : Value) → Yields (Keeps k) (collect_load inst op s)
  unfolding collect_load
  collect_load-Keeps op =
      Yields->>= (value_node-bound op s keeps.0)
        (λ r hr. Yields->>= own_node (λ d hd. added Constraint.load keeps hd hr))

  collect_store-Keeps : (op : Operand) (to : Value) → Yields (Keeps k) (collect_store op to s)
  unfolding collect_store
  collect_store-Keeps op to =
      Yields-if op.is_pointer
        (Yields->>= (value_node-bound op.value s keeps.0) (λ r hr.
          Yields->>= (value_node-bound to s keeps.0) (λ d hd. added Constraint.store keeps hd hr)))
        (yields keeps)

  collect_copy-Keeps : (op : Value) → Yields (Keeps k) (collect_copy inst op s)
  unfolding collect_copy
  collect_copy-Keeps op =
      Yields->>= (value_node-bound op s keeps.0)
        (λ r hr. Yields->>= own_node (λ d hd. added copy keeps hd hr))

  collect_phi-Keeps : (vs : List Value) → Yields (Keeps k) (collect_phi inst vs s)
  unfolding collect_phi
  collect_phi-Keeps vs = Yields->>= own_node (λ d hd.
      from_size keeps (Yields-for_each (collect_incoming-Keeps s d hd) vs s (Keeps-self k s keeps)))

  from_integer :
      (d : ℕ) (op : Integer)
      → d < size s
      → Yields (Keeps k) (elim op [
        | from_pointer v ↦ collect_incoming d v s
        | from_pointer_with_offset v ↦ collect_incoming d v s
        | any_integer ↦ some (add copy d universal_ptr_index s)
      ])
  from_integer d (from_pointer v) hd =
      from_size keeps (collect_incoming-Keeps s d hd v s (Keeps-self k s keeps))
  from_integer d (from_pointer_with_offset v) hd =
      from_size keeps (collect_incoming-Keeps s d hd v s (Keeps-self k s keeps))
  from_integer d any_integer hd = added copy keeps hd (omega (arith, keeps.0.base))

  collect_int_to_ptr-Keeps : (op : Integer) → Yields (Keeps k) (collect_int_to_ptr inst op s)
  unfolding collect_int_to_ptr
  collect_int_to_ptr-Keeps op = Yields->>= own_node (λ d hd. from_integer d op hd)

  collect_select-Keeps : (v₁ v₂ : Value) → Yields (Keeps k) (collect_select inst v₁ v₂ s)
  unfolding collect_select add
  collect_select-Keeps v₁ v₂ = Yields->>= (value_node-bound v₁ s keeps.0) (λ r₁ h₁.
      Yields->>= (value_node-bound v₂ s keeps.0) (λ r₂ h₂.
        Yields->>= own_node (λ d hd. added copy (add-Keeps copy d r₁ k s keeps hd h₁) hd h₂)))

  collect_va_arg-Keeps : (f : Function) → Yields (Keeps k) (collect_va_arg f inst s)
  unfolding collect_va_arg
  collect_va_arg-Keeps f = Yields->>= own_node (λ d hd.
      Yields->>= (valid-found (size s) f.address s.node_factory.vararg_map keeps.0.varargs)
        (λ r hr. added copy keeps hd hr))

  pub collect_opcode-Keeps :
      (m : Module) (f : Function) (op : Opcode) → Yields (Keeps k) (collect_opcode m f inst op s)
  unfolding collect_opcode
  collect_opcode-Keeps m f alloca = collect_alloca-Keeps
  collect_opcode-Keeps m f (call g args) =
      add_constraint_for_call-Keeps k m
        (record { instruction = inst; parent = f; called = g; arguments = args }) s keeps
  collect_opcode-Keeps m f (ret op) = collect_ret-Keeps f op
  collect_opcode-Keeps m f (load op) =
      Yields-if inst.is_pointer (collect_load-Keeps op) (yields keeps)
  collect_opcode-Keeps m f (store op to) = collect_store-Keeps op to
  collect_opcode-Keeps m f (get_element_ptr op) =
      Yields-if inst.is_pointer (collect_copy-Keeps op) fails
  collect_opcode-Keeps m f (phi vs) =
      Yields-if inst.is_pointer (collect_phi-Keeps vs) (yields keeps)
  collect_opcode-Keeps m f (bit_cast op) =
      Yields-if inst.is_pointer (collect_copy-Keeps op) (yields keeps)
  collect_opcode-Keeps m f (int_to_ptr op) =
      Yields-if inst.is_pointer (collect_int_to_ptr-Keeps op) fails
  collect_opcode-Keeps m f (select v₁ v₂) =
      Yields-if inst.is_pointer (collect_select-Keeps v₁ v₂) (yields keeps)
  collect_opcode-Keeps m f va_arg =
      Yields-if inst.is_pointer (collect_va_arg-Keeps f) (yields keeps)
  collect_opcode-Keeps m f extract_or_insert_value = Yields-if inst.is_pointer fails (yields keeps)
  collect_opcode-Keeps m f exception_or_atomic = fails
  collect_opcode-Keeps m f other = Yields-if (not inst.is_pointer) (yields keeps) fails
