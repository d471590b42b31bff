-- ===== src/Tests/Solving.antt =====
-- andersen/lib/ConstraintSolving.cpp: examples.
use programslicer.Common.{
  ℕ, zero, suc, ◌<◌, ◌≡◌, ◌↔◌, refl, some, List, [], ◌∷◌, ◌++◌, ◌==◌, if◌then◌else◌, arith, All,
}
use programslicer.NodeFactory.{
  AndersNodeFactory, new_factory, anders_node, value_node, obj_node, set_target,
}
use programslicer.NodeFactory.Merge.{here, up}
use programslicer.NodeFactory.Depth.{Within, HasRoots}
use programslicer.Andersen.Constraint.{AndersConstraint, addr_of, load, store, constraint}
use programslicer.Andersen.Constraint.Meaning.{HasNodes, Satisfies}
use programslicer.Andersen.Constraint.Derives.{Derives}
use programslicer.Andersen.Solve.{SolverState, solve_constraints}
use programslicer.Andersen.Solve.Exact.{PointsTo}
use programslicer.Andersen.Solve.Factory.{
  solve_constraints-least, solve_constraints-Derives, solve_constraints-bounds,
  solve_constraints-same,
}

-- Pointers 4, 6 and 7, where 7 was merged into 6, and an object 5.
abbrev pub factory : AndersNodeFactory
factory = record new_factory {
  nodes = set_target 7 6 (
      new_factory.nodes
      ++ anders_node value_node 4 10
        ∷ anders_node obj_node 5 10
        ∷ anders_node value_node 6 11
        ∷ anders_node value_node 7 12
        ∷ []);
}

abbrev pub rep : ℕ → ℕ
rep n = if n == 7 then 6 else n

pub factory-HasRoots : HasRoots 1 8 rep factory
unfolding set_target
factory-HasRoots = record { sized = refl; roots = roots }
  where
    roots : (n : ℕ) → n < 8 → Within factory.nodes 1 n (rep n)
    roots zero h = (here refl, omega arith)
    roots (suc zero) h = (here refl, omega arith)
    roots (suc (suc zero)) h = (here refl, omega arith)
    roots (suc (suc (suc zero))) h = (here refl, omega arith)
    roots (suc (suc (suc (suc zero)))) h = (here refl, omega arith)
    roots (suc (suc (suc (suc (suc zero))))) h = (here refl, omega arith)
    roots (suc (suc (suc (suc (suc (suc zero)))))) h = (here refl, omega arith)
    roots (suc (suc (suc (suc (suc (suc (suc zero))))))) h =
        (up {m = 6} refl (here refl), omega arith)
    roots (suc (suc (suc (suc (suc (suc (suc (suc n)))))))) h = absurd (omega (arith, h))

-- `p = &a; *p = p; q = *p;`, where 4 is `p`, and 7 is `q`.
abbrev pub program : List AndersConstraint
program = constraint addr_of 4 5 ∷ constraint store 4 4 ∷ constraint load 7 4 ∷ []

abbrev reordered : List AndersConstraint
reordered = constraint load 7 4 ∷ constraint store 4 4 ∷ constraint addr_of 4 5 ∷ []

pub program_inside : All (HasNodes 8) program
program_inside =
    ((omega arith, omega arith), ((omega arith, omega arith), ((omega arith, omega arith), tt)))

reordered_inside : All (HasNodes 8) reordered
reordered_inside =
    ((omega arith, omega arith), ((omega arith, omega arith), ((omega arith, omega arith), tt)))

same_meaning :
    (P : ℕ → ℕ → Type 0) → All (Satisfies rep P) program ↔ All (Satisfies rep P) reordered
same_meaning P = (λ (a, (b, (c, d))). (c, (b, (a, d))), λ (a, (b, (c, d))). (c, (b, (a, d))))

solve_constraints-least_example :
    (s : SolverState) × (solve_constraints 2 program factory [] ≡ some s)
    × All (Satisfies rep (PointsTo s)) program
    × ((P : ℕ → ℕ → Type 0) → All (Satisfies rep P) program → (n v : ℕ) → PointsTo s n v → P n v)
unfolding set_target
solve_constraints-least_example =
    solve_constraints-least 1 rep factory factory-HasRoots program program_inside

solve_constraints-Derives_example :
    (s : SolverState) × (solve_constraints 2 program factory [] ≡ some s)
    × ((n v : ℕ) → PointsTo s n v ↔ Derives rep program n v)
unfolding set_target
solve_constraints-Derives_example =
    solve_constraints-Derives 1 rep factory factory-HasRoots program program_inside

solve_constraints-same_example :
    (s s' : SolverState) × (solve_constraints 2 program factory [] ≡ some s)
    × (solve_constraints 2 reordered factory [] ≡ some s')
    × ((n v : ℕ) → PointsTo s n v ↔ PointsTo s' n v)
unfolding set_target
solve_constraints-same_example =
    solve_constraints-same 1 rep factory factory-HasRoots program program_inside reordered
      reordered_inside same_meaning

solve_constraints-bounds_example :
    (s : SolverState) × (solve_constraints 2 program factory [] ≡ some s)
    × ((n v : ℕ) → PointsTo s n v → v < 8)
unfolding set_target
solve_constraints-bounds_example =
    solve_constraints-bounds 1 rep factory factory-HasRoots program program_inside
