-- ===== src/Andersen/Collect/Total/Create.antt =====
-- andersen/lib/NodeFactory.cpp, the creation of nodes: it succeeds for an address that is new.
use programslicer.Common.{
  ℕ, ◌+◌, ◌≤◌, ◌<◌, ◌≡◌, refl, Bool, true, false, ◌&&◌, Option, none, some, List, [], ◌∷◌, ◌==◌,
  arith, sym, subst, ◌∙◌, ==_refl, Option-cases, inl, inr, All, Gives, gives, Gives->>=,
}
use programslicer.Common.Maps
use programslicer.Common.Maps.{Map, lookup-set}
use programslicer.NodeFactory.{
  AndersNodeFactory, anders_node, invalid_index, found, create_value_node, create_object_node,
  create_return_node, create_vararg_node,
}
use programslicer.NodeFactory
use programslicer.Andersen.Collect.{Collector, add}
use programslicer.Andersen.Collect.Globals.{create_global, create_if}
use programslicer.Andersen.Collect.Valid.{size, Stays, length-append}
use programslicer.Andersen.Collect.Total.Nodes.{HasEntry}

-- No node has been created for the address.
pub record Free (s : Collector) (a : ℕ) : Type 0 where
  pub values : Maps.lookup a s.node_factory.value_node_map ≡ none
  pub objects : Maps.lookup a s.node_factory.obj_node_map ≡ none
  pub returns : Maps.lookup a s.node_factory.return_map ≡ none
  pub varargs : Maps.lookup a s.node_factory.vararg_map ≡ none

-- What changes for other addresses than `a`, and in the maps that the flags leave out, and how many
-- nodes are created.
pub record Step (v o r x : Bool) (n a : ℕ) (s t : Collector) : Type 0 where
  pub values :
      (b : ℕ)
      → (v && (a == b)) ≡ false
      → Maps.lookup b t.node_factory.value_node_map ≡ Maps.lookup b s.node_factory.value_node_map
  pub objects :
      (b : ℕ)
      → (o && (a == b)) ≡ false
      → Maps.lookup b t.node_factory.obj_node_map ≡ Maps.lookup b s.node_factory.obj_node_map
  pub returns :
      (b : ℕ)
      → (r && (a == b)) ≡ false
      → Maps.lookup b t.node_factory.return_map ≡ Maps.lookup b s.node_factory.return_map
  pub varargs :
      (b : ℕ)
      → (x && (a == b)) ≡ false
      → Maps.lookup b t.node_factory.vararg_map ≡ Maps.lookup b s.node_factory.vararg_map
  pub grown : size t ≤ size s + n

any_flag : (v b : Bool) → b ≡ false → (v && b) ≡ false
any_flag true b e = e
any_flag false b e = refl

pub Step-any :
    (v o r x : Bool) (n a : ℕ) (s t : Collector)
    → Step v o r x n a s t
    → Step true true true true n a s t
Step-any v o r x n a s t p = record {
  values = λ b h. p.values b (any_flag v (a == b) h);
  objects = λ b h. p.objects b (any_flag o (a == b) h);
  returns = λ b h. p.returns b (any_flag r (a == b) h);
  varargs = λ b h. p.varargs b (any_flag x (a == b) h);
  grown = p.grown;
}

pub Step-refl : (v o r x : Bool) (n a : ℕ) (s : Collector) → Step v o r x n a s s
Step-refl v o r x n a s = record {
  values = λ b h. refl;
  objects = λ b h. refl;
  returns = λ b h. refl;
  varargs = λ b h. refl;
  grown = omega arith;
}

pub HasEntry-Stays : (a : ℕ) (m m' : Map ℕ) → Stays m m' → HasEntry a m → HasEntry a m'
HasEntry-Stays a m m' stays (nonzero, entry) = elim (Option-cases (Maps.lookup a m)) [
  | inl missing ↦ absurd (ground (arith, ==_refl invalid_index))
  | inr (i, e) ↦ let later = stays a i e in (nonzero, ground arith)
]

pub Free-Step :
    (n a : ℕ) (s t : Collector)
    → Step true true true true n a s t
    → (ks : List ℕ) → All (λ b. (a == b) ≡ false) ks
    → All (Free s) ks
    → All (Free t) ks
Free-Step n a s t step [] apart free = tt
Free-Step n a s t step (b ∷ ks) (h, apart) (f, free) = (
  record {
    values = step.values b h ∙ f.values;
    objects = step.objects b h ∙ f.objects;
    returns = step.returns b h ∙ f.returns;
    varargs = step.varargs b h ∙ f.varargs;
  },
  Free-Step n a s t step ks apart free,
)

abbrev IsIndex : Option ℕ → Type 0
IsIndex o = ((elim o [ none ↦ invalid_index | some i ↦ i ]) == invalid_index) ≡ false

pub HasEntry-lookup :
    (a : ℕ) (m m' : Map ℕ) → Maps.lookup a m' ≡ Maps.lookup a m → HasEntry a m → HasEntry a m'
HasEntry-lookup a m m' e (nonzero, entry) = (nonzero, subst IsIndex (sym e) entry)

HasEntry-set :
    (a i : ℕ) (m : Map ℕ) → (a == 0) ≡ false → i < invalid_index → HasEntry a (Maps.set a i m)
HasEntry-set a i m nonzero h =
    let at_key : Maps.lookup a (Maps.set a i m) ≡ some i = ground (arith, lookup-set a a i m) in
    let valid_index : (i == invalid_index) ≡ false = ground (arith, h) in
    (nonzero, subst IsIndex (sym at_key) valid_index)

module _ (a : ℕ) (s : Collector) (room : size s < invalid_index) where
  abbrev With : (v o r x : Bool) → (AndersNodeFactory → Map ℕ) → ℕ × AndersNodeFactory → Type 0
  With v o r x map (i, f) = Step v o r x 1 a s (record s { node_factory = f }) × HasEntry a (map f)

  pub create_value_node-Gives :
      (a == 0) ≡ false
      → Maps.lookup a s.node_factory.value_node_map ≡ none
      → Gives
          (With true false false false (λ f. f.value_node_map))
          (create_value_node a s.node_factory)
  unfolding create_value_node
  create_value_node-Gives nonzero fresh =
      rw (nonzero, fresh)
        (gives (
          record {
            values = λ b h. ground (arith, lookup-set a b (size s) s.node_factory.value_node_map);
            objects = λ b h. refl;
            returns = λ b h. refl;
            varargs = λ b h. refl;
            grown = omega (
              arith,
              length-append s.node_factory.nodes (anders_node NodeFactory.value_node (size s) a),
            );
          },
          HasEntry-set a (size s) s.node_factory.value_node_map nonzero room,
        ))

  pub create_object_node-Gives :
      (a == 0) ≡ false
      → Maps.lookup a s.node_factory.obj_node_map ≡ none
      → Gives
          (With false true false false (λ f. f.obj_node_map))
          (create_object_node a s.node_factory)
  unfolding create_object_node
  create_object_node-Gives nonzero fresh =
      rw (nonzero, fresh)
        (gives (
          record {
            values = λ b h. refl;
            objects = λ b h. ground (arith, lookup-set a b (size s) s.node_factory.obj_node_map);
            returns = λ b h. refl;
            varargs = λ b h. refl;
            grown = omega (
              arith,
              length-append s.node_factory.nodes (anders_node NodeFactory.obj_node (size s) a),
            );
          },
          HasEntry-set a (size s) s.node_factory.obj_node_map nonzero room,
        ))

  pub create_return_node-Gives :
      (a == 0) ≡ false
      → Maps.lookup a s.node_factory.return_map ≡ none
      → Gives
          (With false false true false (λ f. f.return_map))
          (create_return_node a s.node_factory)
  unfolding create_return_node
  create_return_node-Gives nonzero fresh = rw fresh (
      gives (
        record {
          values = λ b h. refl;
          objects = λ b h. refl;
          returns = λ b h. ground (arith, lookup-set a b (size s) s.node_factory.return_map);
          varargs = λ b h. refl;
          grown = omega (
            arith,
            length-append s.node_factory.nodes (anders_node NodeFactory.value_node (size s) a),
          );
        },
        HasEntry-set a (size s) s.node_factory.return_map nonzero room,
      ))

  pub create_vararg_node-Gives :
      (a == 0) ≡ false
      → Maps.lookup a s.node_factory.vararg_map ≡ none
      → Gives
          (With false false false true (λ f. f.vararg_map))
          (create_vararg_node a s.node_factory)
  unfolding create_vararg_node
  create_vararg_node-Gives nonzero fresh = rw fresh (
      gives (
        record {
          values = λ b h. refl;
          objects = λ b h. refl;
          returns = λ b h. refl;
          varargs = λ b h. ground (arith, lookup-set a b (size s) s.node_factory.vararg_map);
          grown = omega (
            arith,
            length-append s.node_factory.nodes (anders_node NodeFactory.obj_node (size s) a),
          );
        },
        HasEntry-set a (size s) s.node_factory.vararg_map nonzero room,
      ))

-- A step that changes the factory, if a condition holds.
pub create_if-Gives :
    {Q : Collector → Type 0} (c : Bool) (o : Option (ℕ × AndersNodeFactory)) (s : Collector)
    → (c ≡ true → Gives (λ (i, f). Q (record s { node_factory = f })) o)
    → (c ≡ false → Q s)
    → Gives Q (create_if c o s)
create_if-Gives true o s created stays = Gives->>= (created refl) (λ (i, f) q. gives q)
create_if-Gives false o s created stays = gives (stays refl)

-- A pointer and an object for an address that is new.
pub create_global-Gives :
    (a : ℕ) (s : Collector)
    → size s + 2 < invalid_index
    → (a == 0) ≡ false
    → Maps.lookup a s.node_factory.value_node_map ≡ none
    → Maps.lookup a s.node_factory.obj_node_map ≡ none
    → Gives
        (λ t.
          Step true true false false 2 a s t
          × HasEntry a t.node_factory.value_node_map
          × HasEntry a t.node_factory.obj_node_map)
        (create_global a s)
unfolding create_global add
create_global-Gives a s room nonzero no_value no_object =
    Gives->>= (create_value_node-Gives a s (omega (arith, room)) nonzero no_value)
      (λ (i, f₁) (st₁, entry₁).
        let s₁ : Collector = record s { node_factory = f₁ } in
        Gives->>=
          (create_object_node-Gives a s₁ (omega (arith, room, st₁.grown)) nonzero
            (st₁.objects a refl ∙ no_object))
          (λ (j, f₂) (st₂, entry₂). gives (
            record {
              values = λ b h. st₂.values b refl ∙ st₁.values b h;
              objects = λ b h. st₂.objects b h ∙ st₁.objects b refl;
              returns = λ b h. st₂.returns b refl ∙ st₁.returns b refl;
              varargs = λ b h. st₂.varargs b refl ∙ st₁.varargs b refl;
              grown = omega (arith, st₁.grown, st₂.grown);
            },
            HasEntry-lookup a f₁.value_node_map f₂.value_node_map (st₂.values a refl) entry₁,
            entry₂,
          )))
