-- ===== src/Andersen/Collect/Total/Library.antt =====
-- andersen/lib/ExternalLibrary.cpp: the calls of library functions succeed.
use text.Mathlib.Text.{◌==◌ as same_text}
use programslicer.Common.{
  ℕ, ◌≡◌, inl, inr, refl, Bool, true, false, not, ◌&&◌, ◌||◌, Option, none, some, ◌==◌,
  if◌then◌else◌, ◌>>=◌, arith, Any, Gives, gives, Gives->>=, Gives-if, branch,
}
use programslicer.Common.Maps
use programslicer.Common.Maps.{lookup-set}
use programslicer.NodeFactory.{
  AndersNodeFactory, anders_node, plain, invalid_index, found, create_value_node,
  create_object_node, get_value_node_for,
}
use programslicer.NodeFactory
use programslicer.Andersen.Constraint.{addr_of, copy, store}
use programslicer.Andersen.Code.{Module, Function, CallSite, is_null}
use programslicer.Andersen.Collect.{Collector, add}
use programslicer.Andersen.Collect.Names.{
  noop_funcs, malloc_funcs, realloc_funcs, ret_arg0_funcs, ret_arg1_funcs, ret_arg2_funcs,
  memcpy_funcs, convert_funcs, lookup_name,
}
use programslicer.Andersen.Collect.Library.{
  argument_node, is_null_argument, result_node, allocate, return_argument, copy_memory, convert,
  start_varargs, known, by_name, add_constraint_for_external_library,
}
use programslicer.Andersen.Collect.Valid.{size, length-append}
use programslicer.Andersen.Collect.Total.Ready.{
  is_external, KnownArgument, ReadyAllocate, ReadyReturn, ReadyName, ReadyLibrary,
}
use programslicer.Andersen.Collect.Total.Nodes.{
  HasNode, HasEntry, HasNode-Same, Same, Adds, add-Adds, Touches, Touches-Adds, Knows, After,
  Adds-After, Touches-After, value_node-Gives, valid-Gives,
}

-- An object that is not there is created.
pub create_object_node-Touches :
    (a : ℕ) (s : Collector)
    → Maps.lookup a s.node_factory.obj_node_map ≡ none
    → Gives
        (λ (i, f). Touches a s (record s { node_factory = f }))
        (create_object_node a s.node_factory)
unfolding create_object_node
create_object_node-Touches a s fresh =
    let longer = length-append s.node_factory.nodes (anders_node NodeFactory.obj_node (size s) a) in
    branch (Gives (λ (i, f). Touches a s (record s { node_factory = f }))) (a == 0)
      (λ _. gives (record {
        same = record { values = refl; returns = refl; varargs = refl };
        objects = λ b other. refl;
        grown = omega (arith, longer);
      }))
      (λ _. rw fresh (
        gives (record {
          same = record { values = refl; returns = refl; varargs = refl };
          objects = λ b other. ground (arith, lookup-set a b (size s) s.node_factory.obj_node_map);
          grown = omega (arith, longer);
        })))

module _ (m : Module) (creates : Bool) (cs : CallSite) (s : Collector) (knows : Knows m cs.parent s)
    (own : cs.instruction.is_pointer ≡ true → HasNode (plain cs.instruction.address) s)
    (nonzero : (cs.instruction.address == 0) ≡ false)
    (in_module : Any (λ h. h ≡ cs.parent) m.functions) (defined : is_external cs.parent ≡ false)
    (fresh : creates ≡ true
      → Maps.lookup cs.instruction.address s.node_factory.obj_node_map ≡ none) where
  argument_node-Gives :
      (t : Collector)
      → Same s t
      → (n : ℕ) → KnownArgument m cs.parent n cs.arguments
      → Gives (λ i. Unit {0}) (argument_node n cs t)
  unfolding argument_node
  argument_node-Gives t same n (a, e, known) =
      rw e (value_node-Gives a.value t (HasNode-Same a.value s t same (knows.values a.value known)))

  here : Same s s
  here = record { values = refl; returns = refl; varargs = refl }

  -- The end of a step that adds a constraint.
  ends : (t : Collector) → Adds s t → Gives (λ u. After creates cs.instruction.address s u) (some t)
  ends t e = gives (Adds-After creates cs.instruction.address s t e)

  return_argument-Gives :
      (n : ℕ)
      → ReadyReturn m cs.parent n cs
      → Gives (λ t. After creates cs.instruction.address s t) (return_argument n cs s)
  unfolding return_argument
  return_argument-Gives n (pointer, known) =
      Gives->>= (value_node-Gives (plain cs.instruction.address) s (own pointer)) (λ d _.
        Gives->>= (argument_node-Gives s here n known) (λ r _. ends _ (add-Adds copy d r s)))

  convert-Gives :
      KnownArgument m cs.parent 0 cs.arguments
      → KnownArgument m cs.parent 1 cs.arguments
      → Gives (λ t. After creates cs.instruction.address s t) (convert cs s)
  unfolding convert is_null_argument
  convert-Gives known₀ known₁ =
      let (a, e, _) = known₁ in
      rw e (
        branch (Gives (λ t. After creates cs.instruction.address s t)) (is_null a.value)
          (λ _. ends s refl)
          (λ _. Gives->>= (argument_node-Gives s here 0 known₀) (λ d _.
            Gives->>= (argument_node-Gives s here 1 known₁)
              (λ r _. ends _ (add-Adds store d r s)))))

  start_varargs-Gives :
      KnownArgument m cs.parent 0 cs.arguments
      → cs.parent.is_var_arg ≡ true
      → Gives (λ t. After creates cs.instruction.address s t) (start_varargs cs s)
  unfolding start_varargs
  start_varargs-Gives known₀ var_arg = Gives->>= (argument_node-Gives s here 0 known₀) (λ d _.
      Gives->>=
        (valid-Gives cs.parent.address s.node_factory.vararg_map
          (knows.varargs cs.parent in_module defined var_arg))
        (λ r _. rw var_arg (ends _ (add-Adds addr_of d r s))))

  pointed :
      (t : Collector)
      → Same s t
      → cs.instruction.is_pointer ≡ true
      → HasEntry cs.instruction.address t.node_factory.value_node_map
  unfolding get_value_node_for
  pointed t same pointer =
      let (i, (e, there)) = HasNode-Same (plain cs.instruction.address) s t same (own pointer) in
      (nonzero, ground (arith, nonzero, e, there))

  allocate-Gives :
      ReadyAllocate m cs.parent creates cs
      → Gives (λ t. After creates cs.instruction.address s t) (allocate m cs s)
  unfolding allocate result_node get_value_node_for
  allocate-Gives (e, ready) =
      let a = cs.instruction.address in
      Gives->>= (create_object_node-Touches a s (fresh e)) (λ (obj, f) touches.
        let s₁ : Collector = record s { node_factory = f } in
        let last : (u : Collector) → Adds s₁ u → Gives (λ t. After creates a s t) (some u) =
          λ u adds. gives (Touches-After creates a s u e (Touches-Adds a s s₁ u touches adds)) in
        rw nonzero (
          branch (Gives (λ t. After creates a s t))
            (found a s₁.node_factory.value_node_map == invalid_index)
            (λ missing. elim ready [
              | inl pointer ↦ absurd (ground (arith, pointed s₁ touches.same pointer))
              | inr (memalign, known) ↦ rw memalign (
                  Gives->>= (argument_node-Gives s₁ touches.same 0 known)
                    (λ d _. last _ (add-Adds store d obj s₁)))
            ])
            (λ _. last _ (add-Adds addr_of _ obj s₁))))

  copy_memory-Gives :
      creates ≡ true
      → KnownArgument m cs.parent 0 cs.arguments
      → KnownArgument m cs.parent 1 cs.arguments
      → Gives (λ t. After creates cs.instruction.address s t) (copy_memory cs s)
  unfolding copy_memory create_value_node result_node get_value_node_for add
  copy_memory-Gives e known₀ known₁ =
      let a = cs.instruction.address in
      let longer =
        length-append s.node_factory.nodes (anders_node NodeFactory.value_node (size s) 0) in
      Gives->>= (argument_node-Gives s here 0 known₀) (λ d _.
        Gives->>= (argument_node-Gives s here 1 known₁) (λ r _. rw nonzero (
          gives (
            Touches-After creates a s _ e (
              branch (Touches a s) (found a s.node_factory.value_node_map == invalid_index)
                (λ _. record {
                  same = record { values = refl; returns = refl; varargs = refl };
                  objects = λ b other. refl;
                  grown = omega (arith, longer);
                })
                (λ _. record {
                  same = record { values = refl; returns = refl; varargs = refl };
                  objects = λ b other. refl;
                  grown = omega (arith, longer);
                }))))))

  known-Gives :
      {o : Option Collector}
      → Gives (λ t. After creates cs.instruction.address s t) o
      → Gives (λ (b, t). After creates cs.instruction.address s t) (known o)
  known-Gives p = Gives->>= p (λ t q. gives q)

  by_name-Gives :
      (g : Function) (null_first : Bool)
      → ReadyName m cs.parent creates cs g null_first
      → Gives (λ (b, t). After creates cs.instruction.address s t) (by_name m cs g null_first s)
  unfolding by_name
  by_name-Gives g null_first ready =
      Gives-if
        (lookup_name malloc_funcs g.name || lookup_name realloc_funcs g.name && not null_first)
        ready (λ r. known-Gives (allocate-Gives r))
        (λ ready₁.
          Gives-if
            (lookup_name ret_arg0_funcs g.name || lookup_name realloc_funcs g.name && null_first)
            ready₁ (λ r. known-Gives (return_argument-Gives 0 r))
            (λ ready₂.
              Gives-if (lookup_name ret_arg1_funcs g.name) ready₂
                (λ r. known-Gives (return_argument-Gives 1 r))
                (λ ready₃.
                  Gives-if (lookup_name ret_arg2_funcs g.name) ready₃
                    (λ r. known-Gives (return_argument-Gives 2 r))
                    (λ ready₄.
                      Gives-if (lookup_name memcpy_funcs g.name) ready₄
                        (λ (c, r₀, r₁). known-Gives (copy_memory-Gives c r₀ r₁))
                        (λ ready₅.
                          Gives-if (lookup_name convert_funcs g.name) ready₅
                            (λ (r₀, r₁). known-Gives (convert-Gives r₀ r₁))
                            (λ ready₆.
                              Gives-if (same_text g.name "llvm.va_start") ready₆
                                (λ (r₀, v). known-Gives (start_varargs-Gives r₀ v))
                                (λ _.
                                  gives (Adds-After creates cs.instruction.address s s refl))))))))

  by_tables :
      (g : Function) (is_realloc_like : Bool)
      → (if is_realloc_like
          then ((b : Bool) × (is_null_argument 0 cs ≡ some b)
              × ReadyName m cs.parent creates cs g b)
          else ReadyName m cs.parent creates cs g false)
      → Gives
          (λ (b, t). After creates cs.instruction.address s t)
          ((if is_realloc_like then is_null_argument 0 cs else some false) >>= λ b.
            by_name m cs g b s)
  by_tables g true (b, e, ready) = rw e (by_name-Gives g b ready)
  by_tables g false ready = by_name-Gives g false ready

  pub add_constraint_for_external_library-Gives :
      (g : Function)
      → is_external g ≡ true
      → ReadyLibrary m cs.parent creates cs g
      → Gives
          (λ (b, t). After creates cs.instruction.address s t)
          (add_constraint_for_external_library m cs g s)
  unfolding add_constraint_for_external_library
  add_constraint_for_external_library-Gives g external ready = rw external (
      Gives-if (lookup_name noop_funcs g.name) ready
        (λ _. gives (Adds-After creates cs.instruction.address s s refl))
        (λ ready₁. by_tables g (lookup_name realloc_funcs g.name) ready₁))
