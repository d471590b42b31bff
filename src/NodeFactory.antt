-- ===== src/NodeFactory.antt =====
-- andersen/include/NodeFactory.h and andersen/lib/NodeFactory.cpp: the nodes of the points-to
-- analysis. A pointer is a number, and null is 0; an index is a number below 2^32, and `none` is a
-- failed assertion, an access out of range, or a loop that did not end within the rounds.
pub mod Merge
pub mod Target
pub mod Depth
pub mod Create
use programslicer.Common.{
  ℕ, zero, suc, ◌+◌, Bool, true, false, ◌&&◌, Option, none, some, List, [], ◌∷◌, ◌++◌, ◌==◌, ltb,
  if◌then◌else◌, ◌>>=◌, length, is_some,
}
use programslicer.Common.Maps
use programslicer.Common.Maps.{Map}

pub data AndersNodeType : Type 0 where
  value_node obj_node : AndersNodeType

pub record AndersNode : Type 0 where
  pub type : AndersNodeType
  pub idx : ℕ
  pub merge_target : ℕ
  pub value : ℕ

-- The constructor of `AndersNode`.
abbrev pub anders_node : AndersNodeType → ℕ → ℕ → AndersNode
anders_node t i v = record { type = t; idx = i; merge_target = i; value = v }

pub record AndersNodeFactory : Type 0 where
  pub nodes : List AndersNode
  pub value_node_map : Map ℕ
  pub obj_node_map : Map ℕ
  pub return_map : Map ℕ
  pub vararg_map : Map ℕ

abbrev pub invalid_index : ℕ
invalid_index = 4294967295

abbrev pub universal_ptr_index : ℕ
universal_ptr_index = 0

abbrev pub universal_obj_index : ℕ
universal_obj_index = 1

abbrev pub null_ptr_index : ℕ
null_ptr_index = 2

abbrev pub null_object_index : ℕ
null_object_index = 3

-- `AndersNodeFactory()`.
abbrev pub new_factory : AndersNodeFactory
new_factory = record {
  nodes =
      anders_node value_node 0 0
      ∷ anders_node obj_node 1 0
      ∷ anders_node value_node 2 0
      ∷ anders_node obj_node 3 0
      ∷ [];
  value_node_map = [];
  obj_node_map = [];
  return_map = [];
  vararg_map = [];
}

unfoldable pub create_value_node : ℕ → AndersNodeFactory → Option (ℕ × AndersNodeFactory)
unfolding Maps.set
create_value_node val f =
    let next_idx = length f.nodes in
    let nodes = f.nodes ++ anders_node value_node next_idx val ∷ [] in
    if val == 0
    then some (next_idx, record f { nodes = nodes })
    else if is_some (Maps.lookup val f.value_node_map)
    then none
    else some (
      next_idx,
      record f { nodes = nodes; value_node_map = Maps.set val next_idx f.value_node_map },
    )

unfoldable pub create_object_node : ℕ → AndersNodeFactory → Option (ℕ × AndersNodeFactory)
unfolding Maps.set
create_object_node val f =
    let next_idx = length f.nodes in
    let nodes = f.nodes ++ anders_node obj_node next_idx val ∷ [] in
    if val == 0
    then some (next_idx, record f { nodes = nodes })
    else if is_some (Maps.lookup val f.obj_node_map)
    then none
    else some
        (next_idx, record f { nodes = nodes; obj_node_map = Maps.set val next_idx f.obj_node_map })

unfoldable pub create_return_node : ℕ → AndersNodeFactory → Option (ℕ × AndersNodeFactory)
unfolding Maps.set
create_return_node function f =
    let next_idx = length f.nodes in
    let nodes = f.nodes ++ anders_node value_node next_idx function ∷ [] in
    if is_some (Maps.lookup function f.return_map)
    then none
    else some
        (next_idx, record f { nodes = nodes; return_map = Maps.set function next_idx f.return_map })

unfoldable pub create_vararg_node : ℕ → AndersNodeFactory → Option (ℕ × AndersNodeFactory)
unfolding Maps.set
create_vararg_node function f =
    let next_idx = length f.nodes in
    let nodes = f.nodes ++ anders_node obj_node next_idx function ∷ [] in
    if is_some (Maps.lookup function f.vararg_map)
    then none
    else some
        (next_idx, record f { nodes = nodes; vararg_map = Maps.set function next_idx f.vararg_map })

-- `nodes[n].mergeTarget`.
abbrev pub target : List AndersNode → ℕ → Option ℕ
target [] n = none
target (node ∷ nodes) zero = some node.merge_target
target (node ∷ nodes) (suc n) = target nodes n

-- `nodes[n].mergeTarget = ret`.
unfoldable pub set_target : ℕ → ℕ → List AndersNode → List AndersNode
set_target n ret [] = []
set_target zero ret (node ∷ nodes) = record node { merge_target = ret } ∷ nodes
set_target (suc n) ret (node ∷ nodes) = node ∷ set_target n ret nodes

unfoldable pub merge_node : ℕ → ℕ → AndersNodeFactory → Option AndersNodeFactory
unfolding set_target
merge_node n₀ n₁ f =
    if ltb n₀ (length f.nodes) && ltb n₁ (length f.nodes)
    then some (record f { nodes = set_target n₁ n₀ f.nodes })
    else none

-- The `while` loop of `getMergeTarget`, which records the path that it takes.
unfoldable pub follow : ℕ → List AndersNode → List ℕ → ℕ → Option (List ℕ × ℕ)
follow zero nodes path ret = none
follow (suc rounds) nodes path ret = do
  next ← target nodes ret
  let rest = follow rounds nodes (path ++ ret ∷ []) next
  if ret == next then some (path, ret) else rest

-- The `for` loop.
unfoldable pub compress : List ℕ → ℕ → List AndersNode → List AndersNode
unfolding set_target
compress [] ret nodes = nodes
compress (idx ∷ path) ret nodes = compress path ret (set_target idx ret nodes)

unfoldable pub get_merge_target : ℕ → ℕ → AndersNodeFactory → Option (ℕ × AndersNodeFactory)
unfolding follow compress
get_merge_target rounds n f = do
  first ← target f.nodes n
  if first == n then some (first, f) else (do
    (path, ret) ← follow rounds f.nodes (n ∷ []) first
    some (ret, record f { nodes = compress path ret f.nodes }))

-- The `while` loop of the `const` version.
unfoldable pub follow_const : ℕ → List AndersNode → ℕ → Option ℕ
follow_const zero nodes ret = none
follow_const (suc rounds) nodes ret = do
  next ← target nodes ret
  let rest = follow_const rounds nodes next
  if ret == next then some ret else rest

unfoldable pub get_merge_target_const : ℕ → ℕ → AndersNodeFactory → Option ℕ
unfolding follow_const
get_merge_target_const rounds n f = do first ← target f.nodes n; follow_const rounds f.nodes first

-- A constant, by the casts of `getValueNodeForConstant`; all are of pointer type, but for the
-- results of `PtrToInt`. A value that is no constant, or a global one, is its address.
pub data Constant : Type 0 where
  constant_pointer_null : Constant
  undef_value : Constant
  global_value : ℕ → Constant
  get_element_ptr : Constant → Constant
  int_to_ptr : Constant
  ptr_to_int : Constant
  bit_cast : Constant → Constant
  not_handled : Constant

pub data Value : Type 0 where
  constant : Constant → Value
  plain : ℕ → Value

-- The end of a look-up: `InvalidIndex` if the map has no entry.
abbrev pub found : ℕ → Map ℕ → ℕ
found key m = elim (Maps.lookup key m) [ none ↦ invalid_index | some i ↦ i ]

unfoldable pub get_value_node_for_constant : Constant → AndersNodeFactory → Option ℕ
get_value_node_for_constant constant_pointer_null f = some null_ptr_index
get_value_node_for_constant undef_value f = some null_ptr_index
get_value_node_for_constant (global_value g) f = some (found g f.value_node_map)
get_value_node_for_constant (get_element_ptr c) f = get_value_node_for_constant c f
get_value_node_for_constant int_to_ptr f = some universal_ptr_index
get_value_node_for_constant ptr_to_int f = none
get_value_node_for_constant (bit_cast c) f = get_value_node_for_constant c f
get_value_node_for_constant not_handled f = none

-- The value is the operand of a `dyn_cast`, which fails on null.
unfoldable pub get_value_node_for : Value → AndersNodeFactory → Option ℕ
unfolding get_value_node_for_constant
get_value_node_for (constant c) f = get_value_node_for_constant c f
get_value_node_for (plain v) f = if v == 0 then none else some (found v f.value_node_map)

unfoldable pub get_object_node_for_constant : Constant → AndersNodeFactory → Option ℕ
get_object_node_for_constant constant_pointer_null f = some null_object_index
get_object_node_for_constant undef_value f = none
get_object_node_for_constant (global_value g) f = some (found g f.obj_node_map)
get_object_node_for_constant (get_element_ptr c) f = get_object_node_for_constant c f
get_object_node_for_constant int_to_ptr f = some universal_obj_index
get_object_node_for_constant ptr_to_int f = none
get_object_node_for_constant (bit_cast c) f = get_object_node_for_constant c f
get_object_node_for_constant not_handled f = none

-- As above.
unfoldable pub get_object_node_for : Value → AndersNodeFactory → Option ℕ
unfolding get_object_node_for_constant
get_object_node_for (constant c) f = get_object_node_for_constant c f
get_object_node_for (plain v) f = if v == 0 then none else some (found v f.obj_node_map)

abbrev pub get_return_node_for : ℕ → AndersNodeFactory → ℕ
get_return_node_for function f = found function f.return_map

abbrev pub get_vararg_node_for : ℕ → AndersNodeFactory → ℕ
get_vararg_node_for function f = found function f.vararg_map
