-- ===== src/Andersen/Collect/Keeps/Globals.antt =====
-- andersen/lib/ConstraintCollect.cpp, `collectConstraintsForGlobals`: it keeps the state valid.
use programslicer.Common.{
  ℕ, ◌<◌, Bool, ◌||◌, Option, none, some, arith, Yields, yields, Yields->>=, Yields-if, Yields-map,
  Yields-for_each,
}
use programslicer.NodeFactory.{AndersNodeFactory, constant, global_value, universal_obj_index}
use programslicer.Andersen.Constraint.{addr_of, copy}
use programslicer.Andersen.Code.{
  Module, Function, Argument, GlobalVariable, Initializer, Initializers, pointer, scalar,
  null_value, undefined, aggregate, no_operand, operand,
}
use programslicer.Andersen.Collect.{Collector, add}
use programslicer.Andersen.Collect.Globals.{
  create_global, create_if, create_argument, create_signature, create_function,
  add_global_initializer_constraints, add_operands, initialize_global,
  collect_constraints_for_globals,
}
use programslicer.Andersen.Collect.Valid.{
  size, Keeps, valid_of_Bounded, object_constant, get_object_node_for-Bounded,
}
use programslicer.Andersen.Collect.Created.{
  Created, create_value_node-Created, create_object_node-Created, create_return_node-Created,
  create_vararg_node-Created,
}
use programslicer.Andersen.Collect.Keeps.{Keeps-trans, Keeps-self, added, from_size}

module _ (k : Collector) where
  pub create_global-Keeps :
      (a : ℕ) (s : Collector) → Keeps k s → Yields (Keeps k) (create_global a s)
  unfolding create_global
  create_global-Keeps a s keeps =
      Yields->>= (create_value_node-Created s keeps.0 a) (λ (val, f₁) (in_val, keeps₁).
        let s₁ = record s { node_factory = f₁ } in
        let kept = Keeps-trans k s s₁ keeps keeps₁ in
        Yields->>= (create_object_node-Created s₁ keeps₁.0 a) (λ (obj, f₂) (in_obj, keeps₂).
          added addr_of (Keeps-trans k s₁ (record s { node_factory = f₂ }) kept keeps₂)
            (omega (arith, in_val, keeps₂.1.longer)) in_obj))

  pub create_if-Keeps :
      (c : Bool) (m : Option (ℕ × AndersNodeFactory)) (s : Collector)
      → Keeps k s
      → Yields (Created s) m
      → Yields (Keeps k) (create_if c m s)
  create_if-Keeps c m s keeps created =
      Yields->>= {P = λ (_, f). Keeps k (record s { node_factory = f })}
        (Yields-if c
          (Yields-map created
            (λ (_, f) (_, keeps'). Keeps-trans k s (record s { node_factory = f }) keeps keeps'))
          (yields keeps))
        (λ (_, f) kept. yields kept)

  pub create_argument-Keeps :
      (a : Argument) (s : Collector) → Keeps k s → Yields (Keeps k) (create_argument a s)
  unfolding create_argument
  create_argument-Keeps a s keeps =
      create_if-Keeps a.is_pointer _ s keeps (create_value_node-Created s keeps.0 a.address)

  create_signature-Keeps :
      (f : Function) (s : Collector) → Keeps k s → Yields (Keeps k) (create_signature f s)
  unfolding create_signature
  create_signature-Keeps f s keeps =
      Yields->>=
        (create_if-Keeps f.returns_pointer _ s keeps
          (create_return_node-Created s keeps.0 f.address))
        (λ s₁ keeps₁.
          Yields->>=
            (create_if-Keeps f.is_var_arg _ s₁ keeps₁
              (create_vararg_node-Created s₁ keeps₁.0 f.address))
            (λ s₂ keeps₂. Yields-for_each create_argument-Keeps f.arguments s₂ keeps₂))

  create_function-Keeps :
      (f : Function) (s : Collector) → Keeps k s → Yields (Keeps k) (create_function f s)
  unfolding create_function
  create_function-Keeps f s keeps =
      Yields->>=
        (Yields-if f.has_address_taken (create_global-Keeps f.address s keeps) (yields keeps))
        (λ s₁ keeps₁.
          Yields-if (f.is_declaration || f.is_intrinsic) (yields keeps₁)
            (create_signature-Keeps f s₁ keeps₁))

  mutual
    unfolding add_global_initializer_constraints

    initializer-Keeps :
        (o : ℕ) (c : Initializer) (s : Collector)
        → o < size k
        → Keeps k s
        → Yields (Keeps k) (add_global_initializer_constraints o c s)
    initializer-Keeps o (pointer c) s h keeps =
        Yields->>= (object_constant s.node_factory (size s) keeps.0.base c keeps.0.objects)
          (λ found bounded.
            Yields->>= (valid_of_Bounded {m = some found} (yields bounded))
              (λ r hr. added addr_of keeps (omega (arith, h, keeps.1.longer)) hr))
    initializer-Keeps o scalar s h keeps = yields keeps
    initializer-Keeps o null_value s h keeps =
        added copy keeps (omega (arith, h, keeps.1.longer)) (omega (arith, keeps.0.base))
    initializer-Keeps o undefined s h keeps = yields keeps
    initializer-Keeps o (aggregate cs) s h keeps = operands-Keeps o cs s h keeps

    operands-Keeps :
        (o : ℕ) (cs : Initializers) (s : Collector)
        → o < size k
        → Keeps k s
        → Yields (Keeps k) (add_operands o cs s)
    operands-Keeps o no_operand s h keeps = yields keeps
    operands-Keeps o (operand c cs) s h keeps =
        Yields->>= (initializer-Keeps o c s h keeps) (λ s₁ keeps₁. operands-Keeps o cs s₁ h keeps₁)

module _ (k : Collector) where
  global_initializer-Keeps :
      (o : ℕ) (initializer : Option Initializer) (s : Collector)
      → o < size s
      → Keeps k s
      → Yields (Keeps k) (elim initializer [
        | none ↦ some (add copy o universal_obj_index s)
        | some c ↦ add_global_initializer_constraints o c s
      ])
  global_initializer-Keeps o none s h keeps = added copy keeps h (omega (arith, keeps.0.base))
  global_initializer-Keeps o (some c) s h keeps =
      from_size keeps (initializer-Keeps s o c s h (Keeps-self k s keeps))

  pub initialize_global-Keeps :
      (g : GlobalVariable) (s : Collector) → Keeps k s → Yields (Keeps k) (initialize_global g s)
  unfolding initialize_global
  initialize_global-Keeps g s keeps =
      Yields->>=
        (get_object_node_for-Bounded s.node_factory (size s) keeps.0.base
          (constant (global_value g.address)) keeps.0.objects)
        (λ found bounded.
          Yields->>= (valid_of_Bounded {m = some found} (yields bounded))
            (λ o h. global_initializer-Keeps o g.initializer s h keeps))

  pub collect_constraints_for_globals-Keeps :
      (m : Module) (s : Collector)
      → Keeps k s
      → Yields (Keeps k) (collect_constraints_for_globals m s)
  unfolding collect_constraints_for_globals
  collect_constraints_for_globals-Keeps m s keeps =
      Yields->>= (Yields-for_each (λ g. create_global-Keeps k g.address) m.globals s keeps)
        (λ s₁ keeps₁.
          Yields->>= (Yields-for_each (create_function-Keeps k) m.functions s₁ keeps₁)
            (λ s₂ keeps₂. Yields-for_each initialize_global-Keeps m.globals s₂ keeps₂))
