-- ===== src/Andersen/Alias.antt =====
-- andersen/lib/AndersenAA.cpp and `getPointsToSet` of andersen/lib/Andersen.cpp: the queries to a
-- solved analysis. `none` is a failed assertion, an access out of range, or a loop of
-- `getMergeTarget` that did not end within the rounds.
pub mod Verdict
pub mod Exact
pub mod Points
pub mod Memory
use programslicer.Common.{
  ℕ, zero, suc, Bool, true, false, not, ◌&&◌, ◌||◌, Option, none, some, List, [], ◌∷◌, ◌==◌,
  if◌then◌else◌, ◌>>=◌,
}
use programslicer.Common.Maps
use programslicer.Common.Maps.{Map}
use programslicer.NodeFactory.{
  AndersNode, AndersNodeFactory, Value, invalid_index, universal_ptr_index, null_object_index,
  create_value_node, get_value_node_for, get_merge_target, get_merge_target_const,
}
use programslicer.Andersen.PtsSet.{AndersPtsSet, has, get_size}

-- The answers of LLVM's alias analysis.
pub data AliasResult : Type 0 where
  no_alias may_alias must_alias : AliasResult

-- The members of `Andersen` that the queries use.
pub record Analysis : Type 0 where
  pub node_factory : AndersNodeFactory
  pub pts_graph : Map AndersPtsSet

-- `nodes.at(i).getValue()`, where null is 0.
abbrev pub value_at : List AndersNode → ℕ → Option ℕ
value_at [] i = none
value_at (node ∷ nodes) zero = some node.value
value_at (node ∷ nodes) (suc i) = value_at nodes i

abbrev pub get_value_for_node : ℕ → AndersNodeFactory → Option ℕ
get_value_for_node i f = value_at f.nodes i

abbrev pub remove_node_for_value : ℕ → AndersNodeFactory → AndersNodeFactory
remove_node_for_value val f = record f { value_node_map = Maps.erase val f.value_node_map }

abbrev keys : Map ℕ → List ℕ
keys [] = []
keys ((v, i) ∷ rest) = v ∷ keys rest

abbrev pub get_alloc_sites : AndersNodeFactory → List ℕ
get_alloc_sites f = keys f.obj_node_map

-- `*set.begin()`, which is read of sets of one element only.
abbrev first : AndersPtsSet → ℕ
first [] = 0
first (idx ∷ set) = idx

abbrev pub is_set_containing_only : AndersPtsSet → ℕ → Bool
is_set_containing_only set i = get_size set == 1 && first set == i

-- The loop over the first set.
unfoldable pub share : AndersPtsSet → AndersPtsSet → AliasResult
share [] s₂ = no_alias
share (idx ∷ s₁) s₂ =
    let rest = share s₁ s₂ in
    if idx == null_object_index then rest else if has idx s₂ then may_alias else rest

-- What is answered for two points-to sets.
unfoldable pub compare : AndersPtsSet → AndersPtsSet → AliasResult
unfolding share
compare s₁ s₂ =
    if is_set_containing_only s₁ null_object_index || is_set_containing_only s₂ null_object_index
    then no_alias
    else if get_size s₁ == 1 && (get_size s₂ == 1 && first s₁ == first s₂)
    then must_alias
    else share s₁ s₂

-- What is answered for two merge targets.
unfoldable pub verdict : ℕ → ℕ → Map AndersPtsSet → AliasResult
unfolding compare
verdict n₁ n₂ graph = if n₁ == n₂ then must_alias else elim (Maps.lookup n₁ graph) [
  | none ↦ may_alias
  | some s₁ ↦ elim (Maps.lookup n₂ graph) [ none ↦ may_alias | some s₂ ↦ compare s₁ s₂ ]
]

pub record Location : Type 0 where
  pub ptr : ℕ
  pub size : ℕ

unfoldable pub delete_value : ℕ → Analysis → Analysis
unfolding Maps.erase
delete_value v a = record a { node_factory = remove_node_for_value v a.node_factory }

-- The loop of `pointsToConstantMemory`: `false` is where it asks LLVM.
unfoldable pub all_constant :
    (is_global_value is_global_variable is_constant : ℕ → Bool)
    → AndersPtsSet
    → AndersNodeFactory
    → Option Bool
all_constant is_global_value is_global_variable is_constant [] f = some true
all_constant is_global_value is_global_variable is_constant (idx ∷ set) f = do
  val ← get_value_for_node idx f
  let rest = all_constant is_global_value is_global_variable is_constant set f
  (if val == 0
      then (if idx == null_object_index then rest else some false)
      else if not (is_global_value val) || is_global_variable val && not (is_constant val)
      then some false
      else rest)

-- The loop of `getPointsToSet`.
unfoldable pub values_of : AndersPtsSet → AndersNodeFactory → Option (List ℕ)
values_of [] f = some []
values_of (v ∷ set) f =
    let rest = values_of set f in
    if v == null_object_index then rest else (do
      val ← get_value_for_node v f
      vals ← rest
      some (if val == 0 then vals else val ∷ vals))

-- `value` is the value at an address.
module _ (value : ℕ → Value) where
  -- The node of `to`, made if there is none.
  unfoldable pub node_or_created : ℕ → AndersNodeFactory → Option (ℕ × AndersNodeFactory)
  unfolding get_value_node_for create_value_node
  node_or_created to f = do
    i ← get_value_node_for (value to) f
    if i == invalid_index then create_value_node to f else some (i, f)

  unfoldable pub copy_value : ℕ → ℕ → Analysis → Option Analysis
  unfolding get_value_node_for node_or_created Maps.set
  copy_value from to a = do
    from_node ← get_value_node_for (value from) a.node_factory
    (if from_node == invalid_index then some a else (do
      (to_node, f) ← node_or_created to a.node_factory
      some (elim (Maps.lookup from_node a.pts_graph) [
        | none ↦ record a { node_factory = f }
        | some set ↦ record { node_factory = f; pts_graph = Maps.set to_node set a.pts_graph }
      ])))

  -- `base` is the answer of LLVM.
  unfoldable pub points_to_constant_memory :
      (is_global_value is_global_variable is_constant : ℕ → Bool) (base : Bool)
      → Location
      → Analysis
      → Option Bool
  unfolding get_value_node_for all_constant
  points_to_constant_memory is_global_value is_global_variable is_constant base loc a = do
    node ← get_value_node_for (value loc.ptr) a.node_factory
    (if node == invalid_index then some base else elim (Maps.lookup node a.pts_graph) [
      | none ↦ some base
      | some set ↦ do
        all ← all_constant is_global_value is_global_variable is_constant set a.node_factory
        some (if all then true else base)
    ])

-- And `rounds` bounds the loops of `getMergeTarget`.
module _ (rounds : ℕ) (value : ℕ → Value) where
  unfoldable pub andersen_alias : ℕ → ℕ → Analysis → Option (AliasResult × Analysis)
  unfolding get_value_node_for get_merge_target verdict
  andersen_alias v₁ v₂ a = do
    i₁ ← get_value_node_for (value v₁) a.node_factory
    (n₁, f₁) ← get_merge_target rounds i₁ a.node_factory
    i₂ ← get_value_node_for (value v₂) f₁
    (n₂, f₂) ← get_merge_target rounds i₂ f₁
    some (verdict n₁ n₂ a.pts_graph, record a { node_factory = f₂ })

  -- `strip_pointer_casts`, `is_pointer` and `base_alias` are LLVM's.
  unfoldable pub alias :
      (strip_pointer_casts : ℕ → ℕ) (is_pointer : ℕ → Bool)
      (base_alias : Location → Location → AliasResult)
      → Location
      → Location
      → Analysis
      → Option (AliasResult × Analysis)
  unfolding andersen_alias
  alias strip_pointer_casts is_pointer base_alias l₁ l₂ a =
      let v₁ = strip_pointer_casts l₁.ptr in
      let v₂ = strip_pointer_casts l₂.ptr in
      if l₁.size == 0 || l₂.size == 0
      then some (no_alias, a)
      else if not (is_pointer v₁) || not (is_pointer v₂)
      then some (no_alias, a)
      else if v₁ == v₂
      then some (must_alias, a)
      else (do
        (result, a') ← andersen_alias v₁ v₂ a
        some (
          elim result [
            | no_alias ↦ no_alias
            | must_alias ↦ must_alias
            | may_alias ↦ base_alias l₁ l₂
          ],
          a',
        ))

  -- The result, and the list that the caller gave, after the call.
  unfoldable pub get_points_to_set : ℕ → List ℕ → Analysis → Option (Bool × List ℕ)
  unfolding get_value_node_for get_merge_target_const values_of
  get_points_to_set v given a = do
    ptr_index ← get_value_node_for (value v) a.node_factory
    (if ptr_index == invalid_index || ptr_index == universal_ptr_index
        then some (false, given)
        else (do
          ptr_tgt ← get_merge_target_const rounds ptr_index a.node_factory
          elim (Maps.lookup ptr_tgt a.pts_graph) [
            | none ↦ some (true, [])
            | some set ↦ do vals ← values_of set a.node_factory; some (true, vals)
          ]))
