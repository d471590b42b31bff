-- ===== src/NodeFactory/Create.antt =====
-- andersen/lib/NodeFactory.cpp, `createValueNode` and the like: what a new node adds.
use programslicer.Common.{
  ℕ, zero, suc, ◌≡◌, refl, inl, inr, Option, none, some, List, [], ◌∷◌, ◌++◌, ◌==◌, if◌then◌else◌,
  arith, Bool-cases, length, ==_refl, eq_of_==, subst,
}
use programslicer.Common.Maps
use programslicer.Common.Maps.{Map, lookup-set}
use programslicer.NodeFactory.{
  AndersNodeType, value_node, obj_node, AndersNode, AndersNodeFactory, anders_node,
  create_value_node, create_object_node, create_return_node, create_vararg_node, get_value_node_for,
  plain, get_object_node_for, get_return_node_for, get_vararg_node_for,
}

abbrev pub node_at : List AndersNode → ℕ → Option AndersNode
node_at [] i = none
node_at (node ∷ nodes) zero = some node
node_at (node ∷ nodes) (suc i) = node_at nodes i

-- The node at `i` has this type, index and value.
abbrev pub Describes : AndersNodeType → List AndersNode → ℕ → ℕ → Type 0
Describes type nodes v i =
    (node : AndersNode) × (node_at nodes i ≡ some node)
    × (node.type ≡ type)
    × (node.idx ≡ i)
    × (node.value ≡ v)

-- Every entry of a map leads to a node that was made for its key.
abbrev pub Entries : AndersNodeType → List AndersNode → Map ℕ → Type 0
Entries type nodes m = (v i : ℕ) → Maps.lookup v m ≡ some i → Describes type nodes v i

pub record IsValid (f : AndersNodeFactory) : Type 0 where
  pub values : Entries value_node f.nodes f.value_node_map
  pub objects : Entries obj_node f.nodes f.obj_node_map
  pub returns : Entries value_node f.nodes f.return_map
  pub varargs : Entries obj_node f.nodes f.vararg_map

node_at-append :
    (nodes : List AndersNode) (new node : AndersNode) (i : ℕ)
    → node_at nodes i ≡ some node
    → node_at (nodes ++ new ∷ []) i ≡ some node
node_at-append [] new node i h = ground arith
node_at-append (x ∷ nodes) new node zero h = h
node_at-append (x ∷ nodes) new node (suc i) h = node_at-append nodes new node i h

node_at-length :
    (nodes : List AndersNode) (new : AndersNode)
    → node_at (nodes ++ new ∷ []) (length nodes) ≡ some new
node_at-length [] new = refl
node_at-length (x ∷ nodes) new = ground (arith, node_at-length nodes new)

Entries-append :
    (type : AndersNodeType) (nodes : List AndersNode) (new : AndersNode) (m : Map ℕ)
    → Entries type nodes m
    → Entries type (nodes ++ new ∷ []) m
Entries-append type nodes new m entries v i h =
    let (node, at_i, typed, indexed, valued) = entries v i h in
    (node, node_at-append nodes new node i at_i, typed, indexed, valued)

Entries-set :
    (type : AndersNodeType) (nodes : List AndersNode) (key : ℕ) (m : Map ℕ)
    → Entries type nodes m
    → Entries type
        (nodes ++ anders_node type (length nodes) key ∷ [])
        (Maps.set key (length nodes) m)
Entries-set type nodes key m entries v i h = elim (Bool-cases (key == v)) [
  | inl same ↦
      let at_end : length nodes ≡ i = ground (arith, lookup-set key v (length nodes) m) in
      (
        anders_node type (length nodes) key,
        subst
            (λ k.
              node_at (nodes ++ anders_node type (length nodes) key ∷ []) k
              ≡ some (anders_node type (length nodes) key))
            at_end (node_at-length nodes (anders_node type (length nodes) key)),
        refl,
        at_end,
        eq_of_== key v same,
      )
  | inr other ↦
      Entries-append type nodes (anders_node type (length nodes) key) m entries v i
        (ground (arith, lookup-set key v (length nodes) m))
]

module _ (v : ℕ) (f : AndersNodeFactory) (valid : IsValid f) where
  IsValid-append :
      (type : AndersNodeType)
      → IsValid (record f { nodes = f.nodes ++ anders_node type (length f.nodes) v ∷ [] })
  IsValid-append type =
      let new = anders_node type (length f.nodes) v in
      record {
        values = Entries-append value_node f.nodes new f.value_node_map valid.values;
        objects = Entries-append obj_node f.nodes new f.obj_node_map valid.objects;
        returns = Entries-append value_node f.nodes new f.return_map valid.returns;
        varargs = Entries-append obj_node f.nodes new f.vararg_map valid.varargs;
      }

  -- On a valid factory without an entry for the value, `createValueNode` returns the next index, the
  -- factory is valid, and the look-up of the value, which fails for null, gives that index.
  pub create_value_node-exact :
      Maps.lookup v f.value_node_map ≡ none
      → (f' : AndersNodeFactory) × (create_value_node v f ≡ some (length f.nodes, f'))
        × IsValid f'
        × (get_value_node_for (plain v) f' ≡ (if v == 0 then none else some (length f.nodes)))
  unfolding create_value_node get_value_node_for
  create_value_node-exact fresh =
      let base = IsValid-append value_node in
      elim (Bool-cases (v == 0)) [
        | inl is_null ↦ (_, ground arith, base, ground arith)
        | inr no_null ↦ (
          record f {
            nodes = f.nodes ++ anders_node value_node (length f.nodes) v ∷ [];
            value_node_map = Maps.set v (length f.nodes) f.value_node_map;
          },
          ground arith,
          record {
            values = Entries-set value_node f.nodes v f.value_node_map valid.values;
            objects = base.objects;
            returns = base.returns;
            varargs = base.varargs;
          },
          ground (arith, lookup-set v v (length f.nodes) f.value_node_map, ==_refl v),
        )
      ]

  -- On a valid factory without an entry for the value, `createObjectNode` returns the next index, the
  -- factory is valid, and the look-up of the value, which fails for null, gives that index.
  pub create_object_node-exact :
      Maps.lookup v f.obj_node_map ≡ none
      → (f' : AndersNodeFactory) × (create_object_node v f ≡ some (length f.nodes, f'))
        × IsValid f'
        × (get_object_node_for (plain v) f' ≡ (if v == 0 then none else some (length f.nodes)))
  unfolding create_object_node get_object_node_for
  create_object_node-exact fresh =
      let base = IsValid-append obj_node in
      elim (Bool-cases (v == 0)) [
        | inl is_null ↦ (_, ground arith, base, ground arith)
        | inr no_null ↦ (
          record f {
            nodes = f.nodes ++ anders_node obj_node (length f.nodes) v ∷ [];
            obj_node_map = Maps.set v (length f.nodes) f.obj_node_map;
          },
          ground arith,
          record {
            values = base.values;
            objects = Entries-set obj_node f.nodes v f.obj_node_map valid.objects;
            returns = base.returns;
            varargs = base.varargs;
          },
          ground (arith, lookup-set v v (length f.nodes) f.obj_node_map, ==_refl v),
        )
      ]

  -- On a valid factory without an entry for the function, `createReturnNode` returns the next index, the
  -- factory is valid, and the look-up of the function gives that index.
  pub create_return_node-exact :
      Maps.lookup v f.return_map ≡ none
      → (f' : AndersNodeFactory) × (create_return_node v f ≡ some (length f.nodes, f'))
        × IsValid f'
        × (get_return_node_for v f' ≡ length f.nodes)
  unfolding create_return_node
  create_return_node-exact fresh =
      let base = IsValid-append value_node in
      (
        record f {
          nodes = f.nodes ++ anders_node value_node (length f.nodes) v ∷ [];
          return_map = Maps.set v (length f.nodes) f.return_map;
        },
        ground arith,
        record {
          values = base.values;
          objects = base.objects;
          returns = Entries-set value_node f.nodes v f.return_map valid.returns;
          varargs = base.varargs;
        },
        ground (arith, lookup-set v v (length f.nodes) f.return_map, ==_refl v),
      )

  -- On a valid factory without an entry for the function, `createVarargNode` returns the next index, the
  -- factory is valid, and the look-up of the function gives that index.
  pub create_vararg_node-exact :
      Maps.lookup v f.vararg_map ≡ none
      → (f' : AndersNodeFactory) × (create_vararg_node v f ≡ some (length f.nodes, f'))
        × IsValid f'
        × (get_vararg_node_for v f' ≡ length f.nodes)
  unfolding create_vararg_node
  create_vararg_node-exact fresh =
      let base = IsValid-append obj_node in
      (
        record f {
          nodes = f.nodes ++ anders_node obj_node (length f.nodes) v ∷ [];
          vararg_map = Maps.set v (length f.nodes) f.vararg_map;
        },
        ground arith,
        record {
          values = base.values;
          objects = base.objects;
          returns = base.returns;
          varargs = Entries-set obj_node f.nodes v f.vararg_map valid.varargs;
        },
        ground (arith, lookup-set v v (length f.nodes) f.vararg_map, ==_refl v),
      )
