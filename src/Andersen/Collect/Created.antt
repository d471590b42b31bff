-- ===== src/Andersen/Collect/Created.antt =====
-- andersen/lib/NodeFactory.cpp: a new node in a valid state of the phase.
use programslicer.Common.{
  ℕ, suc, ◌≤◌, ◌<◌, ◌≡◌, inl, inr, false, some, [], ◌∷◌, ◌++◌, ◌==◌, arith, length, Bool-cases,
  eq_of_==, is_some, Yields, fails, yields, Yields-if, branch,
}
use programslicer.Common.Maps
use programslicer.Common.Maps.{Map, lookup-set}
use programslicer.NodeFactory.{
  AndersNodeType, value_node as value_type, obj_node as object_type, AndersNodeFactory, anders_node,
  create_value_node, create_object_node, create_return_node, create_vararg_node,
}
use programslicer.Andersen.Collect.{Collector}
use programslicer.Andersen.Collect.Valid.{
  Below, Stays, size, IsValid, Keeps, length-append, NoneMerged-append, HasNodes-grow,
}

Below-grow : (n m : ℕ) (entries : Map ℕ) → n ≤ m → Below n entries → Below m entries
Below-grow n m entries h below v i e = omega (arith, h, below v i e)

Below-set : (n key : ℕ) (entries : Map ℕ) → Below n entries → Below (suc n) (Maps.set key n entries)
Below-set n key entries below v i e = ground (arith, lookup-set key v n entries, below v i)

-- A new node, and the state with it.
abbrev pub Created : Collector → ℕ × AndersNodeFactory → Type 0
Created s (i, f) = (i < length f.nodes) × Keeps s (record s { node_factory = f })

module _ (s : Collector) (v : IsValid s) (key : ℕ) where
  with_node :
      (type : AndersNodeType) (values objects returns varargs : Map ℕ)
      → Below (suc (size s)) values
      → Below (suc (size s)) objects
      → Below (suc (size s)) returns
      → Below (suc (size s)) varargs
      → Stays s.node_factory.value_node_map values
      → Stays s.node_factory.obj_node_map objects
      → Stays s.node_factory.return_map returns
      → Stays s.node_factory.vararg_map varargs
      → Created s (
        size s,
        record {
          nodes = s.node_factory.nodes ++ anders_node type (size s) key ∷ [];
          value_node_map = values;
          obj_node_map = objects;
          return_map = returns;
          vararg_map = varargs;
        },
      )
  with_node type values objects returns varargs in_values in_objects in_returns in_varargs
        kept_values kept_objects kept_returns kept_varargs =
      let new = anders_node type (size s) key in
      let longer = length-append s.node_factory.nodes new in
      (
        omega (arith, longer),
        (
          record {
            values = rw longer in_values;
            objects = rw longer in_objects;
            returns = rw longer in_returns;
            varargs = rw longer in_varargs;
            own = NoneMerged-append s.node_factory.nodes type key v.own;
            inside =
                rw longer
                  (HasNodes-grow (size s) (suc (size s)) s.constraints (omega arith) v.inside);
            base = omega (arith, longer, v.base);
          },
          record {
            longer = omega (arith, longer);
            same_values = kept_values;
            same_objects = kept_objects;
            same_returns = kept_returns;
            same_varargs = kept_varargs;
            more = λ c h. h;
          },
        ),
      )

  same_values : Below (suc (size s)) s.node_factory.value_node_map
  same_values =
      Below-grow (size s) (suc (size s)) s.node_factory.value_node_map (omega arith) v.values

  same_objects : Below (suc (size s)) s.node_factory.obj_node_map
  same_objects =
      Below-grow (size s) (suc (size s)) s.node_factory.obj_node_map (omega arith) v.objects

  same_returns : Below (suc (size s)) s.node_factory.return_map
  same_returns =
      Below-grow (size s) (suc (size s)) s.node_factory.return_map (omega arith) v.returns

  same_varargs : Below (suc (size s)) s.node_factory.vararg_map
  same_varargs =
      Below-grow (size s) (suc (size s)) s.node_factory.vararg_map (omega arith) v.varargs

  Stays-set : (m : Map ℕ) → is_some (Maps.lookup key m) ≡ false → Stays m (Maps.set key (size s) m)
  Stays-set m fresh x i e = elim (Bool-cases (key == x)) [
    | inl same ↦
        let at_key : Maps.lookup key m ≡ some i = rw (eq_of_== key x same) e in
        absurd (ground arith)
    | inr other ↦ ground (arith, lookup-set key x (size s) m)
  ]

  pub create_value_node-Created : Yields (Created s) (create_value_node key s.node_factory)
  unfolding create_value_node
  create_value_node-Created =
      Yields-if (key == 0)
        (yields (
          with_node value_type _ _ _ _ same_values same_objects same_returns same_varargs
            (λ x i e. e) (λ x i e. e) (λ x i e. e) (λ x i e. e)))
        (branch (Yields (Created s)) (is_some (Maps.lookup key s.node_factory.value_node_map))
          (λ _. fails)
          (λ fresh. yields (
            with_node value_type _ _ _ _
              (Below-set (size s) key s.node_factory.value_node_map v.values) same_objects
              same_returns same_varargs (Stays-set s.node_factory.value_node_map fresh) (λ x i e. e)
              (λ x i e. e) (λ x i e. e))))

  pub create_object_node-Created : Yields (Created s) (create_object_node key s.node_factory)
  unfolding create_object_node
  create_object_node-Created =
      Yields-if (key == 0)
        (yields (
          with_node object_type _ _ _ _ same_values same_objects same_returns same_varargs
            (λ x i e. e) (λ x i e. e) (λ x i e. e) (λ x i e. e)))
        (branch (Yields (Created s)) (is_some (Maps.lookup key s.node_factory.obj_node_map))
          (λ _. fails)
          (λ fresh. yields (
            with_node object_type _ _ _ _ same_values
              (Below-set (size s) key s.node_factory.obj_node_map v.objects) same_returns
              same_varargs (λ x i e. e) (Stays-set s.node_factory.obj_node_map fresh) (λ x i e. e)
              (λ x i e. e))))

  pub create_return_node-Created : Yields (Created s) (create_return_node key s.node_factory)
  unfolding create_return_node
  create_return_node-Created =
      branch (Yields (Created s)) (is_some (Maps.lookup key s.node_factory.return_map)) (λ _. fails)
        (λ fresh. yields (
          with_node value_type _ _ _ _ same_values same_objects
            (Below-set (size s) key s.node_factory.return_map v.returns) same_varargs (λ x i e. e)
            (λ x i e. e) (Stays-set s.node_factory.return_map fresh) (λ x i e. e)))

  pub create_vararg_node-Created : Yields (Created s) (create_vararg_node key s.node_factory)
  unfolding create_vararg_node
  create_vararg_node-Created =
      branch (Yields (Created s)) (is_some (Maps.lookup key s.node_factory.vararg_map)) (λ _. fails)
        (λ fresh. yields (
          with_node object_type _ _ _ _ same_values same_objects same_returns
            (Below-set (size s) key s.node_factory.vararg_map v.varargs) (λ x i e. e) (λ x i e. e)
            (λ x i e. e) (Stays-set s.node_factory.vararg_map fresh)))
