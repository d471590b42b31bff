-- ===== src/Andersen/Solve/Factory.antt =====
-- andersen/lib/ConstraintSolving.cpp, `solveConstraints`, with andersen/lib/NodeFactory.cpp: the
-- whole function, for the nodes of a factory.
use programslicer.Common.{ℕ, suc, ◌<◌, ◌≡◌, ◌↔◌, refl, ap, some, List, [], All, length}
use programslicer.NodeFactory.{AndersNodeFactory}
use programslicer.NodeFactory.Depth.{HasRoots, get_merge_target-HasRoots, root_of_root}
use programslicer.Andersen.Constraint.{AndersConstraint}
use programslicer.Andersen.Constraint.Meaning.{HasNodes, Satisfies}
use programslicer.Andersen.Constraint.Derives.{Derives, Derives-Satisfies, Derives-least}
use programslicer.Andersen.Solve.{SolverState, solve_constraints}
use programslicer.Andersen.Solve.State.{MergeTargets}
use programslicer.Andersen.Solve.Exact.{PointsTo, solves}

module _ (k : ℕ) (rep : ℕ → ℕ) (factory : AndersNodeFactory)
    (rooted : HasRoots k (length factory.nodes) rep factory) where
  -- The roots are those of the factory, and so is all but the nodes.
  abbrev pub Kept : AndersNodeFactory → Type 0
  Kept f = HasRoots k (length factory.nodes) rep f × (f ≡ record factory { nodes = f.nodes })

  -- `getMergeTarget`, for the solver.
  abbrev pub targets : MergeTargets (suc k)
  targets = record {
    num_nodes = length factory.nodes;
    rep = rep;
    Good = Kept;
    rep_range = λ n h. (root_of_root k (length factory.nodes) rep factory rooted n h).0;
    rep_idem = λ n h. (root_of_root k (length factory.nodes) rep factory rooted n h).1;
    size = λ f g. g.0.sized;
    runs = λ f (g, same) n h.
        let (nodes, e, g') = get_merge_target-HasRoots k (length factory.nodes) rep f g n h in
        (_, e, (g', ap {A = AndersNodeFactory} (λ f'. record f' { nodes = nodes }) same));
  }

  module _ (cs : List AndersConstraint) (inside : All (HasNodes (length factory.nodes)) cs) where
    -- If every node of the factory has a root within `k` steps and the constraints are between its
    -- nodes, `solveConstraints` returns, with `suc k` rounds for each `getMergeTarget`, and every
    -- constraint is satisfied by the points-to sets that it leaves; these are the least: what they
    -- hold, holds in every relation that satisfies the constraints.
    pub solve_constraints-least :
        (s : SolverState) × (solve_constraints (suc k) cs factory [] ≡ some s)
        × All (Satisfies rep (PointsTo s)) cs
        × ((P : ℕ → ℕ → Type 0) → All (Satisfies rep P) cs → (n v : ℕ) → PointsTo s n v → P n v)
    solve_constraints-least =
        let (s, e, sound, least, _, _) = solves (suc k) targets cs factory (rooted, refl) inside in
        (s, e, sound, least)

    -- If every node of the factory has a root within `k` steps and the constraints are between its
    -- nodes, `solveConstraints` returns, and the points-to set of a node holds an object just when
    -- the rules for the four kinds of constraints derive this from the list.
    pub solve_constraints-Derives :
        (s : SolverState) × (solve_constraints (suc k) cs factory [] ≡ some s)
        × ((n v : ℕ) → PointsTo s n v ↔ Derives rep cs n v)
    solve_constraints-Derives =
        let (s, e, sound, least, _, _) = solves (suc k) targets cs factory (rooted, refl) inside in
        (
          s,
          e,
          λ n v. (
            least (Derives rep cs) (Derives-Satisfies rep cs) n v,
            λ d. Derives-least rep cs (PointsTo s) sound d,
          ),
        )

    -- If every node of the factory has a root within `k` steps and the constraints are between its
    -- nodes, `solveConstraints` returns, and the points-to sets that it leaves hold indices of nodes
    -- only.
    pub solve_constraints-bounds :
        (s : SolverState) × (solve_constraints (suc k) cs factory [] ≡ some s)
        × ((n v : ℕ) → PointsTo s n v → v < length factory.nodes)
    solve_constraints-bounds =
        let (s, e, _, _, in_range, _) = solves (suc k) targets cs factory (rooted, refl) inside in
        (s, e, in_range)

    -- If every node of the factory has a root within `k` steps, the constraints of two lists are
    -- between its nodes, and every relation that satisfies the one list satisfies the other, as when
    -- the lists differ in order and repetitions, then `solveConstraints` returns for both, and leaves
    -- the same points-to sets.
    pub solve_constraints-same :
        (cs' : List AndersConstraint)
        → All (HasNodes (length factory.nodes)) cs'
        → ((P : ℕ → ℕ → Type 0) → All (Satisfies rep P) cs ↔ All (Satisfies rep P) cs')
        → (s s' : SolverState) × (solve_constraints (suc k) cs factory [] ≡ some s)
          × (solve_constraints (suc k) cs' factory [] ≡ some s')
          × ((n v : ℕ) → PointsTo s n v ↔ PointsTo s' n v)
    solve_constraints-same cs' inside' same =
        let (s, e, sound, least, _, _) = solves (suc k) targets cs factory (rooted, refl) inside in
        let (s', e', sound', least', _, _) =
          solves (suc k) targets cs' factory (rooted, refl) inside' in
        (
          s,
          s',
          e,
          e',
          λ n v. (
            least (PointsTo s') ((same (PointsTo s')).1 sound') n v,
            least' (PointsTo s) ((same (PointsTo s)).0 sound) n v,
          ),
        )
