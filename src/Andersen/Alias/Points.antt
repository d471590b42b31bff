-- ===== src/Andersen/Alias/Points.antt =====
-- andersen/lib/Andersen.cpp, `getPointsToSet`, after `solveConstraints`.
use programslicer.Common.{
  ℕ, zero, suc, ◌<◌, ◌≡◌, ◌↔◌, refl, inl, inr, true, false, ◌||◌, none, some, List, [], ◌∷◌, ◌==◌,
  arith, Bool-cases, Option-cases, eq_of_==, ==_refl, sym, ◌∙◌, ap, subst, length, All,
}
use mathlib.Core.Option.{some-injective}
use programslicer.Common.Sets
use programslicer.Common.Maps
use programslicer.NodeFactory.{
  AndersNode, AndersNodeFactory, Value, get_value_node_for, null_object_index, invalid_index,
  universal_ptr_index, get_merge_target_const,
}
use programslicer.NodeFactory.Depth.{HasRoots}
use programslicer.NodeFactory.Target.{get_merge_target_const-Root}
use programslicer.Andersen.Constraint.{AndersConstraint}
use programslicer.Andersen.Constraint.Meaning.{HasNodes}
use programslicer.Andersen.Constraint.Derives.{Derives, Derives-least, Derives-Satisfies}
use programslicer.Andersen.PtsSet.{AndersPtsSet, has}
use programslicer.Andersen.Solve.{SolverState, points_to, solve_constraints}
use programslicer.Andersen.Solve.Exact.{PointsTo, solves}
use programslicer.Andersen.Solve.Examine.{All-intro}
use programslicer.Andersen.Solve.Factory.{targets}
use programslicer.Andersen.Alias.{
  Analysis, value_at, get_value_for_node, values_of, get_points_to_set,
}
use programslicer.Andersen.Alias.Exact.{solved, get_value_node_for-nodes}

pub value_at-total :
    (i : ℕ) (nodes : List AndersNode) → i < length nodes → (x : ℕ) × (value_at nodes i ≡ some x)
value_at-total i [] h = absurd (omega (arith, h))
value_at-total zero (node ∷ nodes) h = (node.value, refl)
value_at-total (suc i) (node ∷ nodes) h = value_at-total i nodes (omega (arith, h))

-- `x` is the value, not null, of an object of the set other than the null object.
abbrev pub IsValueOf : AndersPtsSet → AndersNodeFactory → ℕ → Type 0
IsValueOf set f x =
    (o : ℕ) × (has o set ≡ true)
    × ((o == null_object_index) ≡ false)
    × (get_value_for_node o f ≡ some x)
    × ((x == 0) ≡ false)

module _ (f : AndersNodeFactory) where
  values_of-exact :
      (set : AndersPtsSet)
      → All (λ v. v < length f.nodes) set
      → (vals : List ℕ) × (values_of set f ≡ some vals)
        × ((x : ℕ) → (Sets.contains x vals ≡ true) ↔ IsValueOf set f x)
  unfolding values_of
  values_of-exact [] all =
      ([], refl, λ x. (λ h. absurd (ground arith), λ (o, h, _, _, _). absurd (ground arith)))
  values_of-exact (v ∷ set) (h, all) =
      let (vals, runs, same) = values_of-exact set all in
      let (val, at_v) = value_at-total v f.nodes h in
      let longer : (x : ℕ) → IsValueOf set f x → IsValueOf (v ∷ set) f x =
        λ x (o, k, no_null, at_o, no_zero). (o, ground arith, no_null, at_o, no_zero) in
      elim (Bool-cases (v == null_object_index)) [
        | inl is_null ↦ (
          vals,
          ground arith,
          λ x. (
            λ k. longer x ((same x).0 k),
            λ (o, k, no_null, at_o, no_zero). elim (Bool-cases (v == o)) [
              | inl at_head ↦ let e = eq_of_== v o at_head in absurd (ground arith)
              | inr other ↦ (same x).1 (o, ground arith, no_null, at_o, no_zero)
            ],
          ),
        )
        | inr not_null ↦ elim (Bool-cases (val == 0)) [
          | inl is_zero ↦ (
            vals,
            rw (not_null, at_v, runs, is_zero) refl,
            λ x. (
              λ k. longer x ((same x).0 k),
              λ (o, k, no_null, at_o, no_zero). elim (Bool-cases (v == o)) [
                | inl at_head ↦
                    let e : val ≡ x =
                      some-injective _ _
                        (sym at_v ∙ ap (value_at f.nodes) (eq_of_== v o at_head) ∙ at_o) in
                    let z : (x == 0) ≡ true = rw (← e) is_zero in absurd (ground arith)
                | inr other ↦ (same x).1 (o, ground arith, no_null, at_o, no_zero)
              ],
            ),
          )
          | inr not_zero ↦ (
            val ∷ vals,
            rw (not_null, at_v, runs, not_zero) refl,
            λ x. (
              λ k. elim (Bool-cases (val == x)) [
                | inl new ↦ (
                  v,
                  ground (arith, ==_refl v),
                  not_null,
                  at_v ∙ ap some (eq_of_== val x new),
                  subst (λ y. (y == 0) ≡ false) (eq_of_== val x new) not_zero,
                )
                | inr old ↦ longer x ((same x).0 (ground arith))
              ],
              λ (o, k, no_null, at_o, no_zero). elim (Bool-cases (v == o)) [
                | inl at_head ↦
                    let e : val ≡ x =
                      some-injective _ _
                        (sym at_v ∙ ap (value_at f.nodes) (eq_of_== v o at_head) ∙ at_o) in
                    ground (arith, ==_refl val)
                | inr other ↦
                    let rest = (same x).1 (o, ground arith, no_null, at_o, no_zero) in ground arith
              ],
            ),
          )
        ]
      ]

-- The two ends of the function for a known pointer.
module _ (rounds : ℕ) (value : ℕ → Value) (v i r : ℕ) (given : List ℕ) (a : Analysis)
    (at_v : get_value_node_for (value v) a.node_factory ≡ some i)
    (known : (i == invalid_index || i == universal_ptr_index) ≡ false)
    (root : get_merge_target_const rounds i a.node_factory ≡ some r) where
  points_of_none :
      Maps.lookup r a.pts_graph ≡ none → get_points_to_set rounds value v given a ≡ some (true, [])
  unfolding get_points_to_set
  points_of_none missing = ground arith

  points_of_some :
      (set : AndersPtsSet) (vals : List ℕ)
      → Maps.lookup r a.pts_graph ≡ some set
      → values_of set a.node_factory ≡ some vals
      → get_points_to_set rounds value v given a ≡ some (true, vals)
  unfolding get_points_to_set
  points_of_some set vals found runs = ground arith

module _ (k : ℕ) (rep : ℕ → ℕ) (factory : AndersNodeFactory)
    (rooted : HasRoots k (length factory.nodes) rep factory) (cs : List AndersConstraint)
    (inside : All (HasNodes (length factory.nodes)) cs) (value : ℕ → Value) (v i : ℕ)
    (given : List ℕ) (at_v : get_value_node_for (value v) factory ≡ some i)
    (in_range : i < length factory.nodes)
    (known : (i == invalid_index || i == universal_ptr_index) ≡ false) where
  -- If every node of the factory has a root within `k` steps, the constraints are between its nodes,
  -- and the pointer has a node other than the universal one, then `solveConstraints` returns, and
  -- after it `getPointsToSet` returns true and exactly the values, but null, of the objects that can
  -- be derived from the constraints for the pointer, but for the null object. So an object without a
  -- value, as the universal object is, is left out, and the result is true all the same.
  pub get_points_to_set-Derives :
      (s : SolverState) × (solve_constraints (suc k) cs factory [] ≡ some s)
      × (vals : List ℕ) × (get_points_to_set (suc k) value v given (solved s) ≡ some (true, vals))
      × ((x : ℕ)
          → (Sets.contains x vals ≡ true) ↔ (
              (o : ℕ) × Derives rep cs (rep i) o
              × ((o == null_object_index) ≡ false)
              × (get_value_for_node o s.node_factory ≡ some x)
              × ((x == 0) ≡ false)))
  get_points_to_set-Derives =
      let (s, e, sound, least, bounds, (rooted', same)) =
        solves (suc k) (targets k rep factory rooted) cs factory (rooted, refl) inside in
      let f = s.node_factory in
      let at : get_value_node_for (value v) f ≡ some i =
        ap (get_value_node_for (value v)) same
        ∙ get_value_node_for-nodes (value v) factory f.nodes
        ∙ at_v in
      let (p, near) = rooted'.roots i in_range in
      let target = get_merge_target_const-Root (suc k) i (rep i) f p (omega (arith, near)) in
      let to : (o : ℕ) → PointsTo s (rep i) o → Derives rep cs (rep i) o =
        λ o h. least (Derives rep cs) (Derives-Satisfies rep cs) (rep i) o h in
      let from : (o : ℕ) → Derives rep cs (rep i) o → PointsTo s (rep i) o =
        λ o d. Derives-least rep cs (PointsTo s) sound d in
      elim (Option-cases (Maps.lookup (rep i) s.pts_graph)) [
        | inl missing ↦ (
          s,
          e,
          [],
          points_of_none (suc k) value v i (rep i) given (solved s) at known target missing,
          λ x. (
            λ h. absurd (ground arith),
            λ (o, d, _, _, _). let h = from o d in absurd (ground arith),
          ),
        )
        | inr (set, found) ↦
            let here : points_to s (rep i) ≡ set = ground arith in
            let all : All (λ o. o < length f.nodes) set =
              All-intro (λ o. o < length f.nodes) set
                (λ o h.
                  rw rooted'.sized
                    (bounds (rep i) o (subst (λ os. has o os ≡ true) (sym here) h))) in
            let (vals, runs, exact) = values_of-exact f set all in
            (
              s,
              e,
              vals,
              points_of_some (suc k) value v i (rep i) given (solved s) at known target set vals
                  found runs,
              λ x. (
                λ h.
                    let (o, k, no_null, at_o, no_zero) = (exact x).0 h in
                    (o, to o (subst (λ os. has o os ≡ true) (sym here) k), no_null, at_o, no_zero),
                λ (o, d, no_null, at_o, no_zero).
                    (exact x).1
                      (o, subst (λ os. has o os ≡ true) here (from o d), no_null, at_o, no_zero),
              ),
            )
      ]
