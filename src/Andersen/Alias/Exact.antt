-- ===== src/Andersen/Alias/Exact.antt =====
-- andersen/lib/AndersenAA.cpp, `andersenAlias`, and `getPointsToSet` of andersen/lib/Andersen.cpp,
-- on the nodes of a factory.
use programslicer.Common.{ℕ, suc, ◌<◌, ◌≡◌, refl, some, List, [], arith, ◌∙◌, ap, length, All}
use programslicer.NodeFactory.{
  AndersNode, AndersNodeFactory, Value, constant, plain, Constant, constant_pointer_null,
  undef_value, global_value, get_element_ptr, int_to_ptr, ptr_to_int, bit_cast, not_handled,
  get_value_node_for, get_value_node_for_constant, null_object_index,
}
use programslicer.NodeFactory.Depth.{HasRoots, get_merge_target-HasRoots}
use programslicer.Andersen.Constraint.{AndersConstraint}
use programslicer.Andersen.Constraint.Meaning.{HasNodes}
use programslicer.Andersen.Constraint.Derives.{Derives, Derives-least}
use programslicer.Andersen.Solve.{SolverState, solve_constraints}
use programslicer.Andersen.Solve.Exact.{PointsTo, solves}
use programslicer.Andersen.Solve.Factory.{targets}
use programslicer.Andersen.Alias.{AliasResult, no_alias, Analysis, verdict, andersen_alias}
use programslicer.Andersen.Alias.Verdict.{
  Means, apart, merged, same_object, unknown, shared, verdict-Means,
}

-- The look-ups do not read the nodes.
constant-nodes :
    (c : Constant) (f : AndersNodeFactory) (nodes : List AndersNode)
    → get_value_node_for_constant c (record f { nodes = nodes }) ≡ get_value_node_for_constant c f
unfolding get_value_node_for_constant
constant-nodes constant_pointer_null f nodes = refl
constant-nodes undef_value f nodes = refl
constant-nodes (global_value g) f nodes = refl
constant-nodes (get_element_ptr c) f nodes = constant-nodes c f nodes
constant-nodes int_to_ptr f nodes = refl
constant-nodes ptr_to_int f nodes = refl
constant-nodes (bit_cast c) f nodes = constant-nodes c f nodes
constant-nodes not_handled f nodes = refl

pub get_value_node_for-nodes :
    (v : Value) (f : AndersNodeFactory) (nodes : List AndersNode)
    → get_value_node_for v (record f { nodes = nodes }) ≡ get_value_node_for v f
unfolding get_value_node_for
get_value_node_for-nodes (constant c) f nodes = constant-nodes c f nodes
get_value_node_for-nodes (plain v) f nodes = refl

module _ (k size : ℕ) (rep : ℕ → ℕ) (value : ℕ → Value) (v₁ v₂ i₁ i₂ : ℕ) (a : Analysis)
    (rooted : HasRoots k size rep a.node_factory)
    (at₁ : get_value_node_for (value v₁) a.node_factory ≡ some i₁)
    (at₂ : get_value_node_for (value v₂) a.node_factory ≡ some i₂) (in₁ : i₁ < size)
    (in₂ : i₂ < size) where
  -- If every node has a root within `k` steps and both values have nodes, `andersenAlias` returns,
  -- and its answer is the right one of the cases of `Means` for the roots of these nodes: no alias
  -- for known sets without a common object but null, must alias for one root or one and the same
  -- single object, may alias for an unknown set or any other common object.
  pub andersen_alias-Means :
      (r : AliasResult) × (a' : Analysis) × (andersen_alias (suc k) value v₁ v₂ a ≡ some (r, a'))
      × Means (rep i₁) (rep i₂) a.pts_graph r
  unfolding andersen_alias
  andersen_alias-Means =
      let f = a.node_factory in
      let (nodes₁, e₁, rooted₁) = get_merge_target-HasRoots k size rep f rooted i₁ in₁ in
      let f₁ = record f { nodes = nodes₁ } in
      let (nodes₂, e₂, _) = get_merge_target-HasRoots k size rep f₁ rooted₁ i₂ in₂ in
      (
        verdict (rep i₁) (rep i₂) a.pts_graph,
        record a { node_factory = record f { nodes = nodes₂ } },
        rw (at₁, e₁, get_value_node_for-nodes (value v₂) f nodes₁, at₂, e₂) refl,
        verdict-Means (rep i₁) (rep i₂) a.pts_graph,
      )

-- What a solved analysis answers with.
abbrev pub solved : SolverState → Analysis
solved s = record { node_factory = s.node_factory; pts_graph = s.pts_graph }

Means-no_alias :
    (n₁ n₂ : ℕ) (s : SolverState) (r : AliasResult)
    → Means n₁ n₂ s.pts_graph r
    → r ≡ no_alias
    → (o : ℕ) → PointsTo s n₁ o
    → PointsTo s n₂ o
    → o ≡ null_object_index
Means-no_alias n₁ n₂ s r (apart {s₁} {s₂} differ found₁ found₂ d) e =
    λ o h₁ h₂. d o (ground arith) (ground arith)
Means-no_alias n₁ n₂ s r (merged e₁) e = cc
Means-no_alias n₁ n₂ s r (same_object differ found₁ found₂ one) e = cc
Means-no_alias n₁ n₂ s r (unknown differ missing) e = cc
Means-no_alias n₁ n₂ s r (shared differ found₁ found₂ sh not_one) e = cc

module _ (k : ℕ) (rep : ℕ → ℕ) (factory : AndersNodeFactory)
    (rooted : HasRoots k (length factory.nodes) rep factory) (cs : List AndersConstraint)
    (inside : All (HasNodes (length factory.nodes)) cs) (value : ℕ → Value) (v₁ v₂ i₁ i₂ : ℕ)
    (at₁ : get_value_node_for (value v₁) factory ≡ some i₁)
    (at₂ : get_value_node_for (value v₂) factory ≡ some i₂) (in₁ : i₁ < length factory.nodes)
    (in₂ : i₂ < length factory.nodes) where
  -- If every node of the factory has a root within `k` steps, the constraints are between its nodes,
  -- and both values have nodes, then `solveConstraints` returns, `andersenAlias` returns after it,
  -- and if it answers no alias, then no object but null can be derived from the constraints for both
  -- values.
  pub no_alias-safe :
      (s : SolverState) × (solve_constraints (suc k) cs factory [] ≡ some s)
      × (r : AliasResult) × (a' : Analysis) × (andersen_alias (suc k) value v₁ v₂ (solved s)
          ≡ some (r, a'))
      × (r ≡ no_alias
          → (o : ℕ) → Derives rep cs (rep i₁) o
          → Derives rep cs (rep i₂) o
          → o ≡ null_object_index)
  no_alias-safe =
      let (s, e, sound, _, _, (rooted', same)) =
        solves (suc k) (targets k rep factory rooted) cs factory (rooted, refl) inside in
      let keeps : (v : Value) → get_value_node_for v s.node_factory ≡ get_value_node_for v factory =
        λ v.
          ap (get_value_node_for v) same
          ∙ get_value_node_for-nodes v factory s.node_factory.nodes in
      let (r, a', runs, means) =
        andersen_alias-Means k (length factory.nodes) rep value v₁ v₂ i₁ i₂ (solved s) rooted'
          (keeps (value v₁) ∙ at₁) (keeps (value v₂) ∙ at₂) in₁ in₂ in
      (
        s,
        e,
        r,
        a',
        runs,
        λ is_no o d₁ d₂.
            Means-no_alias (rep i₁) (rep i₂) s r means is_no o
              (Derives-least rep cs (PointsTo s) sound d₁)
              (Derives-least rep cs (PointsTo s) sound d₂),
      )
