-- ===== src/Andersen/Solve/Exact.antt =====
-- andersen/lib/ConstraintSolving.cpp, `solveConstraints`: what the whole function returns.
use programslicer.Common.{
  All-map, All-both, ℕ, suc, ◌+◌, ◌*◌, ◌<◌, ◌≡◌, refl, some, List, [], arith, sym, ◌∙◌, ap, subst,
  All, length, Gives, gives, Gives->>=, Gives-map, Gives-each, Gives-result,
}
use mathlib.Core.Option.{some-injective}
use programslicer.Common.Sets
use programslicer.Common.Missing.{missing_bound}
use programslicer.NodeFactory.{AndersNodeFactory}
use programslicer.Andersen.Constraint.{ConstraintType, addr_of, copy, load, store, AndersConstraint}
use programslicer.Andersen.Constraint.Meaning.{HasNodes, Satisfies, SatisfiesAs}
use programslicer.Andersen.Graph.{node_or_new}
use programslicer.Andersen.WorkList
use programslicer.Andersen.Solve.{
  SolverState, points_to, copies, pointers, build_offline_constraint,
  build_offline_constraint_graph, solve_constraints,
}
use programslicer.Andersen.Solve.State.{MergeTargets, ◌∈◌, Valid}
use programslicer.Andersen.Solve.Round.{Settled}
use programslicer.Andersen.Solve.Loop.{Kept, total, solve-Done}
use programslicer.Andersen.Solve.Build.{Built, BuiltAs, BuiltAs-Grow, Early, Grow}
use programslicer.Andersen.Solve.Constraints.{build_constraint_graph-Built}
use programslicer.Andersen.Solve.Start.{Same, start-Covered}

-- In the solution `n` points to `v`.
abbrev pub PointsTo : SolverState → ℕ → ℕ → Type 0
PointsTo s n v = v ∈ points_to s n

module _ (rounds : ℕ) (t : MergeTargets rounds) where
  module _ (P : ℕ → ℕ → Type 0) where
    -- The state the function begins with.
    abbrev pub initial : AndersNodeFactory → SolverState
    initial factory = record {
      node_factory = factory;
      pts_graph = [];
      constraint_graph = [];
      curr_work_list = WorkList.empty;
      next_work_list = WorkList.empty;
      update_map = [];
    }

    initial-Early :
        (factory : AndersNodeFactory) → t.Good factory → Early rounds t P (initial factory)
    unfolding pointers
    initial-Early factory good = record {
      valid = record {
        good = good;
        copy_ends = λ n d h. absurd (ground arith);
        load_ends = λ n d h. absurd (ground arith);
        store_ends = λ n d h. absurd (ground arith);
        pointees = λ n v h. absurd (ground arith);
        current = λ n h. absurd (ground arith);
        next = λ n h. absurd (ground arith);
        current_list = λ x h. absurd (ground arith);
        next_list = λ x h. absurd (ground arith);
        sound_points = λ n v h. absurd (ground arith);
        sound_copy = λ n d h. absurd (ground arith);
        sound_load = λ n d h. absurd (ground arith);
        sound_store = λ n d h. absurd (ground arith);
      };
      none_waits = refl;
      no_current = refl;
      no_next = refl;
      keys = λ n h. absurd (ground arith);
    }

    Kept-Grow : (s s' : SolverState) → Kept s s' → Grow rounds t P s s'
    Kept-Grow s s' kept = record {
      copies_grow = kept.copies_grow;
      loads_grow = λ n d h. subst (λ ds. d ∈ ds) (sym (kept.loads_same n)) h;
      stores_grow = λ n d h. subst (λ ds. d ∈ ds) (sym (kept.stores_same n)) h;
      points_grow = kept.points_grow;
    }

    Same-Grow : (s s' : SolverState) → Same rounds t P s s' → Grow rounds t P s s'
    Same-Grow s s' same = record {
      copies_grow = λ n d h. subst (λ g. d ∈ (node_or_new n g).copy_edges) (sym same.same_graph) h;
      loads_grow = λ n d h. subst (λ g. d ∈ (node_or_new n g).load_edges) (sym same.same_graph) h;
      stores_grow = λ n d h. subst (λ g. d ∈ (node_or_new n g).store_edges) (sym same.same_graph) h;
      points_grow = λ n v h. ground (arith, same.same_points);
    }

    total_bound :
        (s : SolverState)
        → s.next_work_list ≡ WorkList.empty
        → total rounds t P s
          < suc
              (t.num_nodes * t.num_nodes + t.num_nodes * t.num_nodes + length s.curr_work_list.list)
    total_bound s none_next =
        let e : length s.next_work_list.list ≡ 0 = ap (λ w. length w.list) none_next in
        omega (
          arith,
          e,
          missing_bound t.num_nodes t.num_nodes (λ n d. Sets.contains d (copies s n)),
          missing_bound t.num_nodes t.num_nodes (λ n v. Sets.contains v (points_to s n)),
        )

    -- The end of a run for constraints that `P` satisfies.
    abbrev Solved : List AndersConstraint → SolverState → Type 0
    Solved cs s =
        Valid rounds t P s × ((n : ℕ) → Settled rounds t P s n) × All (λ c. Built rounds t P c s) cs

    build_offline_constraint-Good :
        (c : AndersConstraint)
        → HasNodes t.num_nodes c × Satisfies t.rep P c
        → (f : AndersNodeFactory) → t.Good f
        → Gives t.Good (build_offline_constraint rounds c f)
    unfolding build_offline_constraint
    build_offline_constraint-Good c ((src_in, dest_in), _) f good =
        let (f₁, runs₁, good₁) = t.runs f good c.src src_in in
        let (f₂, runs₂, good₂) = t.runs f₁ good₁ c.dest dest_in in rw (runs₁, runs₂) (gives good₂)

    solve_constraints-Solved :
        (cs : List AndersConstraint) (factory : AndersNodeFactory)
        → t.Good factory
        → All (λ c. HasNodes t.num_nodes c × Satisfies t.rep P c) cs
        → Gives (Solved cs) (solve_constraints rounds cs factory [])
    unfolding solve_constraints build_offline_constraint_graph
    solve_constraints-Solved cs factory good sound =
        Gives->>= (Gives-each build_offline_constraint-Good cs sound factory good) (λ offline good'.
          Gives->>=
            (build_constraint_graph-Built rounds t P cs sound (initial offline)
              (initial-Early offline good'))
            (λ s₁ (early, _, built).
              Gives->>= (start-Covered rounds t P s₁ early) (λ s₂ (quiet, cover, none_next, same).
                let size = t.size s₂.node_factory quiet.0.good in
                rw size (
                  Gives-map (solve-Done rounds t P _ s₂ quiet cover (total_bound s₂ none_next))
                    (λ s₃ (valid, settled, kept). (
                      valid,
                      settled,
                      All-map _ _
                          (λ c b.
                            BuiltAs-Grow rounds t P c.type c.src c.dest s₂ s₃ (Kept-Grow s₂ s₃ kept)
                              (BuiltAs-Grow rounds t P c.type c.src c.dest s₁ s₂
                                (Same-Grow s₁ s₂ same) b))
                          cs built,
                    ))))))

    -- Where nothing is left to do, what a constraint left makes it satisfied.
    satisfied_as :
        (ty : ConstraintType) (src dst : ℕ) (s : SolverState)
        → ((n : ℕ) → Settled rounds t P s n)
        → BuiltAs rounds t P ty src dst s
        → SatisfiesAs t.rep (PointsTo s) ty src dst
    satisfied_as addr_of src dst s settled built = built
    satisfied_as copy src dst s settled built =
        λ x h. (settled (t.rep src)).flowed (t.rep dst) built x h
    satisfied_as load src dst s settled built = λ w x h k.
        (settled (t.rep w)).flowed (t.rep dst)
          (((settled (t.rep src)).visited w h).0 (t.rep dst) built) x k
    satisfied_as store src dst s settled built = λ w x h k.
        (settled (t.rep src)).flowed (t.rep w)
          (((settled (t.rep dst)).visited w h).1 (t.rep src) built) x k

  -- The function returns, its points-to sets satisfy the constraints, they are the least ones, and
  -- hold indices of nodes; the factory stays good.
  pub solves :
      (cs : List AndersConstraint) (factory : AndersNodeFactory)
      → t.Good factory
      → All (HasNodes t.num_nodes) cs
      → (s : SolverState) × (solve_constraints rounds cs factory [] ≡ some s)
        × All (Satisfies t.rep (PointsTo s)) cs
        × ((P : ℕ → ℕ → Type 0) → All (Satisfies t.rep P) cs → (n v : ℕ) → PointsTo s n v → P n v)
        × ((n v : ℕ) → PointsTo s n v → v < t.num_nodes)
        × t.Good s.node_factory
  solves cs factory good inside =
      let any : ℕ → ℕ → Type 0 = λ n v. Unit {0} in
      let (s, e, (valid, settled, built)) = Gives-result (
        solve_constraints-Solved any cs factory good
          (All-map _ _ (λ c h. (h, any_satisfies c.type c.src c.dest)) cs inside)) in
      (
        s,
        e,
        All-map _ _ (λ c b. satisfied_as any c.type c.src c.dest s settled b) cs built,
        λ P sound n v h.
            let (s', e', (valid', _, _)) = Gives-result (
              solve_constraints-Solved P cs factory good
                (All-both (HasNodes t.num_nodes) (Satisfies t.rep P) cs inside sound)) in
            valid'.sound_points n v
              (subst (λ u. v ∈ points_to u n) (some-injective _ _ (sym e ∙ e')) h),
        valid.pointees,
        valid.good,
      )
    where
      any_satisfies :
          (ty : ConstraintType) (src dst : ℕ) → SatisfiesAs t.rep (λ n v. Unit {0}) ty src dst
      any_satisfies addr_of src dst = tt
      any_satisfies copy src dst = λ x h. tt
      any_satisfies load src dst = λ w x h k. tt
      any_satisfies store src dst = λ w x h k. tt
