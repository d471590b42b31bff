-- ===== src/Andersen/Solve/Constraints.antt =====
-- andersen/lib/ConstraintSolving.cpp, `buildConstraintGraph`: the loop over the constraints.
use programslicer.Common.{
  ℕ, ◌<◌, inl, inr, List, ◌==◌, arith, Bool-cases, ==_refl, eq_of_==, All, Gives, gives,
  Gives-for_each,
}
use programslicer.Common.Sets.{contains-insert}
use programslicer.Common.Maps
use programslicer.NodeFactory.{AndersNodeFactory}
use programslicer.Andersen.Constraint.{ConstraintType, addr_of, copy, load, store, AndersConstraint}
use programslicer.Andersen.Constraint.Meaning.{HasNodes, Satisfies, SatisfiesAs}
use programslicer.Andersen.PtsSet
use programslicer.Andersen.Graph.{insert_copy_edge, insert_load_edge, insert_store_edge}
use programslicer.Andersen.Solve.{SolverState, points_to, build_constraint, build_constraint_graph}
use programslicer.Andersen.Solve.State.{MergeTargets, ◌∈◌, IsRep, Valid, merge_target-Next}
use programslicer.Andersen.Solve.Build.{
  with_points, Built, BuiltAs, BuiltAs-Grow, Early, Grow, Grow-refl, Grow-trans, points_to-set,
  pointers-set,
}
use programslicer.Andersen.Solve.Edges.{add_copy, add_load, add_store}

module _ (rounds : ℕ) (t : MergeTargets rounds) (P : ℕ → ℕ → Type 0) where
  add_address :
      (v dst : ℕ) (s : SolverState)
      → Early rounds t P s
      → v < t.num_nodes
      → IsRep rounds t P dst
      → P dst v
      → Early rounds t P
          (record s { pts_graph = Maps.set dst (PtsSet.insert v (points_to s dst)).1 s.pts_graph })
        × Grow rounds t P s (record s {
          pts_graph = Maps.set dst (PtsSet.insert v (points_to s dst)).1 s.pts_graph;
        })
        × (v
            ∈ points_to
                (record s {
                  pts_graph = Maps.set dst (PtsSet.insert v (points_to s dst)).1 s.pts_graph;
                })
                dst)
  add_address v dst s early in_range rep_d sound =
      let g = Maps.set dst (PtsSet.insert v (points_to s dst)).1 s.pts_graph in
      let after = points_to-set rounds t P v dst s in
      (
        record {
          valid = with_points rounds t P s g early.valid (λ n x h. elim (Bool-cases (dst == n)) [
            | inl same ↦ elim (Bool-cases (v == x)) [
              | inl new ↦ inr (
                rw (← eq_of_== v x new) in_range,
                rw (← eq_of_== v x new, ← eq_of_== dst n same) sound,
              )
              | inr old ↦ inl (ground (arith, after n, contains-insert v x (points_to s n)))
            ]
            | inr other ↦ inl (ground (arith, after n))
          ]);
          none_waits = early.none_waits;
          no_current = early.no_current;
          no_next = early.no_next;
          keys = λ n h.
              elim (pointers-set rounds t P dst n (PtsSet.insert v (points_to s dst)).1 s.pts_graph
                h) [ inl e ↦ rw (← e) rep_d | inr before ↦ early.keys n before ];
        },
        record {
          copies_grow = λ n d h. h;
          loads_grow = λ n d h. h;
          stores_grow = λ n d h. h;
          points_grow = λ n x h. ground (arith, after n, contains-insert v x (points_to s n));
        },
        ground (arith, after dst, ==_refl dst, ==_refl v, contains-insert v v (points_to s dst)),
      )

  -- The factory after two calls of `getMergeTarget`.
  with_factory :
      (s : SolverState) (f : AndersNodeFactory)
      → Early rounds t P s
      → Valid rounds t P (record s { node_factory = f })
      → Early rounds t P (record s { node_factory = f })
  with_factory s f early v = record {
    valid = v;
    none_waits = early.none_waits;
    no_current = early.no_current;
    no_next = early.no_next;
    keys = early.keys;
  }

  -- What the loop leaves of a state.
  abbrev pub Leaves : SolverState → (SolverState → Type 0) → SolverState → Type 0
  Leaves s D s' = Early rounds t P s' × Grow rounds t P s s' × D s'

  build_as :
      (ty : ConstraintType) (src dst : ℕ) (s : SolverState)
      → Early rounds t P s
      → src < t.num_nodes
      → dst < t.num_nodes
      → SatisfiesAs t.rep P ty src dst
      → Leaves s (BuiltAs rounds t P ty src dst) (elim ty [
        | addr_of ↦ record s {
          pts_graph =
              Maps.set (t.rep dst) (PtsSet.insert src (points_to s (t.rep dst))).1 s.pts_graph;
        }
        | load ↦ record s {
          constraint_graph = (insert_load_edge (t.rep src) (t.rep dst) s.constraint_graph).1;
        }
        | store ↦ record s {
          constraint_graph = (insert_store_edge (t.rep dst) (t.rep src) s.constraint_graph).1;
        }
        | copy ↦ record s {
          constraint_graph = (insert_copy_edge (t.rep src) (t.rep dst) s.constraint_graph).1;
        }
      ])
  build_as addr_of src dst s early h k sound =
      add_address src (t.rep dst) s early h (t.rep_range dst k, t.rep_idem dst k) sound
  build_as copy src dst s early h k sound =
      add_copy rounds t P (t.rep src) (t.rep dst) s early (t.rep_range dst k, t.rep_idem dst k)
        sound
  build_as load src dst s early h k sound =
      add_load rounds t P (t.rep src) (t.rep dst) s early (t.rep_range dst k, t.rep_idem dst k)
        sound
  build_as store src dst s early h k sound =
      add_store rounds t P (t.rep src) (t.rep dst) s early (t.rep_range src h, t.rep_idem src h)
        sound

  build_constraint-Built :
      (c : AndersConstraint) (s : SolverState)
      → Early rounds t P s
      → HasNodes t.num_nodes c
      → Satisfies t.rep P c
      → Gives (Leaves s (Built rounds t P c)) (build_constraint rounds c s)
  unfolding build_constraint
  build_constraint-Built c s early (h, k) sound =
      let (f₁, e₁, (v₁, _)) = merge_target-Next rounds t P c.src s early.valid h in
      let s₁ = record s { node_factory = f₁ } in
      let (f₂, e₂, (v₂, _)) = merge_target-Next rounds t P c.dest s₁ v₁ k in
      let early₂ = with_factory s f₂ early v₂ in
      let (early', grow, built) =
        build_as c.type c.src c.dest (record s { node_factory = f₂ }) early₂ h k sound in
      rw (e₁, e₂)
        (gives (
          early',
          record {
            copies_grow = grow.copies_grow;
            loads_grow = grow.loads_grow;
            stores_grow = grow.stores_grow;
            points_grow = grow.points_grow;
          },
          built,
        ))

  -- The phase succeeds, and leaves every constraint built.
  pub build_constraint_graph-Built :
      (cs : List AndersConstraint)
      → All (λ c. HasNodes t.num_nodes c × Satisfies t.rep P c) cs
      → (s : SolverState) → Early rounds t P s
      → Gives
          (λ s'. Early rounds t P s' × Grow rounds t P s s' × All (λ c. Built rounds t P c s') cs)
          (build_constraint_graph rounds cs s)
  unfolding build_constraint_graph
  build_constraint_graph-Built cs sound s early =
      Gives-for_each (λ c. HasNodes t.num_nodes c × Satisfies t.rep P c) (Early rounds t P)
        (Built rounds t P) (Grow rounds t P) (build_constraint rounds) (Grow-refl rounds t P)
        (Grow-trans rounds t P) (λ c u w grow. BuiltAs-Grow rounds t P c.type c.src c.dest u w grow)
        cs sound s early (λ c (h, ok) u grow e. build_constraint-Built c u e h ok)
