-- ===== src/Andersen/Collect/Total/Instructions.antt =====
-- andersen/lib/ConstraintCollect.cpp, `collectConstraintsForInstruction`: it succeeds for an
-- instruction that has what it needs.
use programslicer.Common.{
  ◌==◌, ℕ, ◌≡◌, refl, true, false, Option, none, some, List, if◌then◌else◌, ◌∙◌, All, Any, Gives,
  gives, Gives->>=, Gives-map, Gives-each, Gives-assert, branch,
}
use programslicer.Common.Maps
use programslicer.NodeFactory.{Value, plain, universal_ptr_index}
use programslicer.Andersen.Constraint
use programslicer.Andersen.Constraint.{addr_of, copy}
use programslicer.Andersen.Code.{
  Module, Function, Instruction, Operand, Integer, from_pointer, from_pointer_with_offset,
  any_integer, Opcode, alloca, call, ret, load, store, get_element_ptr, phi, bit_cast, int_to_ptr,
  select, va_arg, extract_or_insert_value, exception_or_atomic, other,
}
use programslicer.Andersen.Collect.{Collector, add, value_node}
use programslicer.Andersen.Collect.Calls.{add_constraint_for_call}
use programslicer.Andersen.Collect.Instructions.{
  collect_alloca, collect_ret, collect_load, collect_store, collect_copy, collect_incoming,
  collect_phi, collect_int_to_ptr, collect_select, collect_va_arg, collect_opcode,
}
use programslicer.Andersen.Collect.Total.Ready.{is_external, Known, ReadyInteger, Ready}
use programslicer.Andersen.Collect.Total.Nodes.{
  HasNode, Adds, add-Adds, Touches, Adds-Touches, Touches-Adds, Knows, value_node-Gives,
  valid-Gives,
}
use programslicer.Andersen.Collect.Total.Library.{create_object_node-Touches}
use programslicer.Andersen.Collect.Total.Calls.{at_later}
use programslicer.Andersen.Collect.Total.Sites.{
  function_at-Any, call_indirect-Gives, call_direct-Gives,
}

module _ (m : Module) (f : Function) (inst : Instruction) (k : Collector) (knows : Knows m f k)
    (own : inst.is_pointer ≡ true → HasNode (plain inst.address) k) where
  knows_node : (v : Value) → Known m f v → Gives (λ i. Unit {0}) (value_node v k)
  knows_node v known = value_node-Gives v k (knows.values v known)

  own_node : inst.is_pointer ≡ true → Gives (λ i. Unit {0}) (value_node (plain inst.address) k)
  own_node p = value_node-Gives (plain inst.address) k (own p)

  collect_load-Gives :
      (op : Value) → inst.is_pointer ≡ true → Known m f op → Gives (Adds k) (collect_load inst op k)
  unfolding collect_load
  collect_load-Gives op p known =
      Gives->>= (knows_node op known)
        (λ r _. Gives->>= (own_node p) (λ d _. gives (add-Adds Constraint.load d r k)))

  collect_copy-Gives :
      (op : Value) → inst.is_pointer ≡ true → Known m f op → Gives (Adds k) (collect_copy inst op k)
  unfolding collect_copy
  collect_copy-Gives op p known =
      Gives->>= (knows_node op known)
        (λ r _. Gives->>= (own_node p) (λ d _. gives (add-Adds copy d r k)))

  collect_store-Gives :
      (op : Operand) (to : Value)
      → (op.is_pointer ≡ true → Known m f op.value × Known m f to)
      → Gives (Adds k) (collect_store op to k)
  unfolding collect_store
  collect_store-Gives op to ready =
      branch (Gives (Adds k)) op.is_pointer
        (λ p. Gives->>= (knows_node op.value (ready p).0) (λ r _.
          Gives->>= (knows_node to (ready p).1) (λ d _. gives (add-Adds Constraint.store d r k))))
        (λ _. gives refl)

  collect_incoming-Gives :
      (d : ℕ) (v : Value)
      → Known m f v
      → (s : Collector) → Adds k s
      → Gives (Adds k) (collect_incoming d v s)
  unfolding collect_incoming
  collect_incoming-Gives d v known s e =
      Gives->>= (value_node-Gives v s (at_later k v s e (knows.values v known)))
        (λ r _. gives (add-Adds copy d r s ∙ e))

  collect_phi-Gives :
      (vs : List Value)
      → inst.is_pointer ≡ true
      → All (λ v. Known m f v) vs
      → Gives (Adds k) (collect_phi inst vs k)
  unfolding collect_phi
  collect_phi-Gives vs p all =
      Gives->>= (own_node p)
        (λ d _. Gives-each (λ v known s e. collect_incoming-Gives d v known s e) vs all k refl)

  from_integer :
      (d : ℕ) (op : Integer)
      → ReadyInteger m f op
      → Gives (Adds k) (elim op [
        | from_pointer v ↦ collect_incoming d v k
        | from_pointer_with_offset v ↦ collect_incoming d v k
        | any_integer ↦ some (add copy d universal_ptr_index k)
      ])
  from_integer d (from_pointer v) known = collect_incoming-Gives d v known k refl
  from_integer d (from_pointer_with_offset v) known = collect_incoming-Gives d v known k refl
  from_integer d any_integer known = gives (add-Adds copy d universal_ptr_index k)

  collect_int_to_ptr-Gives :
      (op : Integer)
      → inst.is_pointer ≡ true
      → ReadyInteger m f op
      → Gives (Adds k) (collect_int_to_ptr inst op k)
  unfolding collect_int_to_ptr
  collect_int_to_ptr-Gives op p ready = Gives->>= (own_node p) (λ d _. from_integer d op ready)

  collect_select-Gives :
      (v w : Value)
      → inst.is_pointer ≡ true
      → Known m f v × Known m f w
      → Gives (Adds k) (collect_select inst v w k)
  unfolding collect_select
  collect_select-Gives v w p (known₁, known₂) = Gives->>= (knows_node v known₁) (λ r₁ _.
      Gives->>= (knows_node w known₂) (λ r₂ _.
        Gives->>= (own_node p)
          (λ d _. gives (add-Adds copy d r₂ (add copy d r₁ k) ∙ add-Adds copy d r₁ k))))

  module _ (nonzero : (inst.address == 0) ≡ false) (in_module : Any (λ h. h ≡ f) m.functions)
      (defined : is_external f ≡ false) where
    collect_ret-Gives :
        (op : Operand)
        → (op.is_pointer ≡ true → Known m f op.value × (f.returns_pointer ≡ true))
        → Gives (Adds k) (collect_ret f (some op) k)
    unfolding collect_ret
    collect_ret-Gives op ready =
        branch (Gives (Adds k)) op.is_pointer
          (λ p.
            Gives->>=
              (valid-Gives f.address k.node_factory.return_map
                (knows.returns f in_module defined (ready p).1))
              (λ d _.
                Gives->>= (knows_node op.value (ready p).0) (λ r _. gives (add-Adds copy d r k))))
          (λ _. gives refl)

    collect_va_arg-Gives :
        inst.is_pointer ≡ true → f.is_var_arg ≡ true → Gives (Adds k) (collect_va_arg f inst k)
    unfolding collect_va_arg
    collect_va_arg-Gives p v = Gives->>= (own_node p) (λ d _.
        Gives->>=
          (valid-Gives f.address k.node_factory.vararg_map (knows.varargs f in_module defined v))
          (λ r _. gives (add-Adds copy d r k)))

    module _ (fresh : Maps.lookup inst.address k.node_factory.obj_node_map ≡ none) where
      collect_alloca-Gives :
          inst.is_pointer ≡ true → Gives (Touches inst.address k) (collect_alloca inst k)
      unfolding collect_alloca
      collect_alloca-Gives p = Gives->>= (own_node p) (λ d _.
          Gives->>= (create_object_node-Touches inst.address k fresh) (λ (r, g) touches.
            let s : Collector = record k { node_factory = g } in
            gives (Touches-Adds inst.address k s _ touches (add-Adds addr_of d r s))))

      add_constraint_for_call-Gives :
          (a : Option ℕ) (args : List Operand)
          → Ready m f inst (call a args)
          → Gives (Touches inst.address k) (
              add_constraint_for_call m
                (record { instruction = inst; parent = f; called = a; arguments = args })
                k)
      unfolding add_constraint_for_call
      add_constraint_for_call-Gives none args (known, all) =
          Gives-map (call_indirect-Gives m _ k knows own nonzero in_module defined known all)
            (λ t e. Adds-Touches inst.address k t e)
      add_constraint_for_call-Gives (some a) args (g, e, (known, ready)) = rw e (
          call_direct-Gives m _ k knows own nonzero in_module defined known fresh g
            (function_at-Any m.functions a g e) ready)

      returns_nothing : Gives (Adds k) (collect_ret f none k)
      unfolding collect_ret
      returns_nothing = gives refl

      adds : {o : Option Collector} → Gives (Adds k) o → Gives (Touches inst.address k) o
      adds p = Gives-map p (λ t e. Adds-Touches inst.address k t e)

      -- A case for results of pointer type only.
      on_pointer :
          {o : Option Collector}
          → (inst.is_pointer ≡ true → Gives (Adds k) o)
          → Gives (Touches inst.address k) (if inst.is_pointer then o else some k)
      on_pointer p = adds (branch (Gives (Adds k)) inst.is_pointer p (λ _. gives refl))

      pub collect_opcode-Gives :
          (op : Opcode)
          → Ready m f inst op
          → Gives (Touches inst.address k) (collect_opcode m f inst op k)
      unfolding collect_opcode
      collect_opcode-Gives alloca p = collect_alloca-Gives p
      collect_opcode-Gives (call a args) ready = add_constraint_for_call-Gives a args ready
      collect_opcode-Gives (ret none) ready = adds returns_nothing
      collect_opcode-Gives (ret (some op)) ready = adds (collect_ret-Gives op ready)
      collect_opcode-Gives (load op) ready = on_pointer (λ p. collect_load-Gives op p (ready p))
      collect_opcode-Gives (store op to) ready = adds (collect_store-Gives op to ready)
      collect_opcode-Gives (get_element_ptr op) (p, known) =
          Gives-assert inst.is_pointer p (adds (collect_copy-Gives op p known))
      collect_opcode-Gives (phi vs) ready = on_pointer (λ p. collect_phi-Gives vs p (ready p))
      collect_opcode-Gives (bit_cast op) ready = on_pointer (λ p. collect_copy-Gives op p (ready p))
      collect_opcode-Gives (int_to_ptr op) (p, known) =
          Gives-assert inst.is_pointer p (adds (collect_int_to_ptr-Gives op p known))
      collect_opcode-Gives (select v w) ready =
          on_pointer (λ p. collect_select-Gives v w p (ready p))
      collect_opcode-Gives va_arg ready = on_pointer (λ p. collect_va_arg-Gives p (ready p))
      collect_opcode-Gives extract_or_insert_value no_pointer = rw no_pointer (adds (gives refl))
      collect_opcode-Gives exception_or_atomic ready = absurd ready
      collect_opcode-Gives other no_pointer = rw no_pointer (adds (gives refl))
