-- ===== src/Andersen/Collect/Total/Initial.antt =====
-- andersen/lib/ConstraintCollect.cpp, `addGlobalInitializerConstraints`: the initializers of the
-- globals are looked up.
use programslicer.Common.{
  ℕ, ◌≡◌, refl, false, Option, none, some, ◌==◌, sym, subst, ◌∙◌, Gives, gives, Gives->>=,
}
use programslicer.NodeFactory.{
  AndersNodeFactory, Constant, constant_pointer_null, undef_value, global_value,
  get_element_ptr as element_constant, int_to_ptr as int_constant, ptr_to_int,
  bit_cast as cast_constant, not_handled, invalid_index, null_object_index, universal_obj_index,
  get_object_node_for, get_object_node_for_constant,
}
use programslicer.Andersen.Constraint.{addr_of, copy}
use programslicer.Andersen.Code.{
  Module, GlobalVariable, Initializer, Initializers, pointer, scalar, null_value, undefined,
  aggregate, no_operand, operand,
}
use programslicer.Andersen.Collect.{Collector, add, valid}
use programslicer.Andersen.Collect.Globals.{
  add_global_initializer_constraints, add_operands, initialize_global,
}
use programslicer.Andersen.Collect.Total.Ready.{
  Global, KnownObject, ReadyInitializer, ReadyInitializers,
}
use programslicer.Andersen.Collect.Total.Nodes.{HasEntry, Adds, add-Adds, valid-Gives}

-- The constant points to a node.
abbrev HasObject : Constant → AndersNodeFactory → Type 0
HasObject c f =
    (i : ℕ) × (get_object_node_for_constant c f ≡ some i) × ((i == invalid_index) ≡ false)

module _ (m : Module) (f : AndersNodeFactory)
    (objects : (a : ℕ) → Global m a → HasEntry a f.obj_node_map) where
  KnownObject-HasObject : (c : Constant) → KnownObject m c → HasObject c f
  unfolding get_object_node_for_constant
  KnownObject-HasObject constant_pointer_null known = (_, refl, refl)
  KnownObject-HasObject undef_value known = absurd known
  KnownObject-HasObject (global_value a) known = (_, refl, (objects a known).1)
  KnownObject-HasObject (element_constant c) known = KnownObject-HasObject c known
  KnownObject-HasObject int_constant known = (_, refl, refl)
  KnownObject-HasObject ptr_to_int known = absurd known
  KnownObject-HasObject (cast_constant c) known = KnownObject-HasObject c known
  KnownObject-HasObject not_handled known = absurd known

module _ (m : Module) (k : Collector)
    (objects : (a : ℕ) → Global m a → HasEntry a k.node_factory.obj_node_map) where
  objects_at :
      (s : Collector) → Adds k s → (a : ℕ) → Global m a → HasEntry a s.node_factory.obj_node_map
  objects_at s e a known = subst (λ f. HasEntry a f.obj_node_map) (sym e) (objects a known)

  mutual
    unfolding add_global_initializer_constraints valid

    initializer-Gives :
        (o : ℕ) (c : Initializer)
        → ReadyInitializer m c
        → (s : Collector) → Adds k s
        → Gives (Adds k) (add_global_initializer_constraints o c s)
    initializer-Gives o (pointer c) ready s e =
        let (i, at_c, there) = KnownObject-HasObject m s.node_factory (objects_at s e) c ready in
        rw (at_c, there) (gives (add-Adds addr_of o i s ∙ e))
    initializer-Gives o scalar ready s e = gives e
    initializer-Gives o null_value ready s e = gives (add-Adds copy o null_object_index s ∙ e)
    initializer-Gives o undefined ready s e = gives e
    initializer-Gives o (aggregate cs) ready s e = operands-Gives o cs ready s e

    operands-Gives :
        (o : ℕ) (cs : Initializers)
        → ReadyInitializers m cs
        → (s : Collector) → Adds k s
        → Gives (Adds k) (add_operands o cs s)
    operands-Gives o no_operand ready s e = gives e
    operands-Gives o (operand c cs) (first, ready) s e =
        Gives->>= (initializer-Gives o c first s e) (λ s₁ e₁. operands-Gives o cs ready s₁ e₁)

  global_initializer-Gives :
      (o : ℕ) (initializer : Option Initializer)
      → ((c : Initializer) → initializer ≡ some c → ReadyInitializer m c)
      → (s : Collector) → Adds k s
      → Gives (Adds k) (elim initializer [
        | none ↦ some (add copy o universal_obj_index s)
        | some c ↦ add_global_initializer_constraints o c s
      ])
  global_initializer-Gives o none ready s e = gives (add-Adds copy o universal_obj_index s ∙ e)
  global_initializer-Gives o (some c) ready s e = initializer-Gives o c (ready c refl) s e

  pub initialize_global-Gives :
      (g : GlobalVariable)
      → HasEntry g.address k.node_factory.obj_node_map
      → ((c : Initializer) → g.initializer ≡ some c → ReadyInitializer m c)
      → (s : Collector) → Adds k s
      → Gives (Adds k) (initialize_global g s)
  unfolding initialize_global get_object_node_for get_object_node_for_constant
  initialize_global-Gives g entry ready s e =
      Gives->>=
        (valid-Gives g.address s.node_factory.obj_node_map
          (subst (λ f. HasEntry g.address f.obj_node_map) (sym e) entry))
        (λ o _. global_initializer-Gives o g.initializer ready s e)
