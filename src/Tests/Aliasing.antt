-- ===== src/Tests/Aliasing.antt =====
-- andersen/lib/AndersenAA.cpp and `getPointsToSet` of andersen/lib/Andersen.cpp: examples.
use programslicer.Common.{ℕ, ◌≡◌, ◌↔◌, refl, true, false, some, List, [], ◌∷◌, ◌==◌, arith}
use programslicer.Common.Sets
use programslicer.NodeFactory.{
  AndersNodeFactory, Value, plain, null_object_index, get_value_node_for, set_target,
}
use programslicer.NodeFactory.Depth.{HasRoots}
use programslicer.Andersen.Constraint.Derives.{Derives}
use programslicer.Andersen.Solve.{SolverState, solve_constraints}
use programslicer.Andersen.Alias.{
  AliasResult, no_alias, Analysis, get_value_for_node, get_points_to_set, andersen_alias,
}
use programslicer.Andersen.Alias.Verdict.{Means}
use programslicer.Andersen.Alias.Exact.{solved, andersen_alias-Means, no_alias-safe}
use programslicer.Andersen.Alias.Points.{get_points_to_set-Derives}
use programslicer.Tests.Solving.{factory, rep, program, factory-HasRoots, program_inside}

-- The pointers `p` and `q` are the values 10 and 12, and 11 is a pointer without constraints.
abbrev named : AndersNodeFactory
named = record factory { value_node_map = (10, 4) ∷ (11, 6) ∷ (12, 7) ∷ [] }

named-HasRoots : HasRoots 1 8 rep named
named-HasRoots = record { sized = factory-HasRoots.sized; roots = factory-HasRoots.roots }

abbrev value : ℕ → Value
value v = plain v

-- `p` points to 5, and `q` to 3 and 5.
abbrev analysis : Analysis
analysis = record { node_factory = named; pts_graph = (4, 5 ∷ []) ∷ (6, 3 ∷ 5 ∷ []) ∷ [] }

andersen_alias-Means_example :
    (r : AliasResult) × (a' : Analysis) × (andersen_alias 2 value 10 12 analysis ≡ some (r, a'))
    × Means 4 6 analysis.pts_graph r
unfolding set_target get_value_node_for
andersen_alias-Means_example =
    andersen_alias-Means 1 8 rep value 10 12 4 7 analysis named-HasRoots refl refl (omega arith)
      (omega arith)

no_alias-safe_example :
    (s : SolverState) × (solve_constraints 2 program named [] ≡ some s)
    × (r : AliasResult) × (a' : Analysis) × (andersen_alias 2 value 10 12 (solved s) ≡ some (r, a'))
    × (r ≡ no_alias
        → (o : ℕ) → Derives rep program 4 o
        → Derives rep program 6 o
        → o ≡ null_object_index)
unfolding set_target get_value_node_for
no_alias-safe_example =
    no_alias-safe 1 rep named named-HasRoots program program_inside value 10 12 4 7 refl refl
      (omega arith) (omega arith)

get_points_to_set-Derives_example :
    (s : SolverState) × (solve_constraints 2 program named [] ≡ some s)
    × (vals : List ℕ) × (get_points_to_set 2 value 12 [] (solved s) ≡ some (true, vals))
    × ((x : ℕ)
        → (Sets.contains x vals ≡ true) ↔ (
            (o : ℕ) × Derives rep program 6 o
            × ((o == null_object_index) ≡ false)
            × (get_value_for_node o s.node_factory ≡ some x)
            × ((x == 0) ≡ false)))
unfolding set_target get_value_node_for
get_points_to_set-Derives_example =
    get_points_to_set-Derives 1 rep named named-HasRoots program program_inside value 12 7 [] refl
      (omega arith) refl
