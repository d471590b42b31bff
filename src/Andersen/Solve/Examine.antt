-- ===== src/Andersen/Solve/Examine.antt =====
-- andersen/lib/ConstraintSolving.cpp, `solveConstraints`: the loops of a round.
use programslicer.Common.{
  ℕ, ◌<◌, ◌≡◌, inl, inr, refl, List, [], ◌∷◌, ◌==◌, arith, subst, Bool-cases, Option-cases, ==_refl,
  eq_of_==, All, for_each, Gives, gives, Gives->>=, Gives-map, Gives-for_each,
}
use programslicer.Common.Maps
use programslicer.Andersen.Graph.{
  ConstraintGraphNode, ConstraintGraph, node_or_new, replace_load_edge, replace_store_edge,
}
use programslicer.Andersen.Solve.{
  SolverState, points_to, copies, loads, stores, add_copy_edge, remember, update_edges,
  perform_updates, follow_load, follow_store, visit_pointee, propagate, flow,
}
use programslicer.Andersen.Solve.State.{
  MergeTargets, ◌∈◌, IsRep, Valid, Step, Step-refl, Step-trans, with_locals, merge_target-Next,
}
use programslicer.Andersen.Solve.Moves.{add_copy_edge-Next}
use programslicer.Andersen.Graph.Laws.{node_or_new-set}
use programslicer.Andersen.Solve.Flow.{flow-Next}

pub All-intro : (Q : ℕ → Type 0) (xs : List ℕ) → ((x : ℕ) → x ∈ xs → Q x) → All Q xs
All-intro Q [] each = tt
All-intro Q (x ∷ xs) each =
    (each x (ground (arith, ==_refl x)), All-intro Q xs (λ y h. each y (ground arith)))

pub All-elim : (Q : ℕ → Type 0) (x : ℕ) (xs : List ℕ) → All Q xs → x ∈ xs → Q x
All-elim Q x [] all h = absurd (ground arith)
All-elim Q x (y ∷ xs) (here, all) h = elim (Bool-cases (y == x)) [
  | inl same ↦ subst Q (eq_of_== y x same) here
  | inr other ↦ All-elim Q x xs all (ground arith)
]

remember_same : (n : ℕ) (s : SolverState) → remember n n s ≡ s
unfolding remember
remember_same n s = ground (arith, ==_refl n)

-- Without waiting updates the graph keeps its nodes.
updates_keep :
    (replace : ℕ → ℕ → ConstraintGraphNode → ConstraintGraphNode) (n : ℕ) (s : SolverState)
    → s.update_map ≡ []
    → (g : ConstraintGraph) × (perform_updates replace n s
        ≡ record s { constraint_graph = g; update_map = [] })
      × ((m : ℕ) → node_or_new m g ≡ node_or_new m s.constraint_graph)
unfolding perform_updates update_edges
updates_keep replace n s none_waits = elim (Option-cases (Maps.lookup n s.constraint_graph)) [
  | inl missing ↦ (s.constraint_graph, ground arith, λ m. refl)
  | inr (node, at_n) ↦ (
    Maps.set n node s.constraint_graph,
    ground arith,
    λ m. let same = eq_of_== n m in ground (arith, node_or_new-set n m node s.constraint_graph),
  )
]

module _ (rounds : ℕ) (t : MergeTargets rounds) (P : ℕ → ℕ → Type 0) where
  -- Between the iterations of a loop no edge waits to be replaced.
  abbrev pub Quiet : SolverState → Type 0
  Quiet s = Valid rounds t P s × (s.update_map ≡ [])

  -- A part of a round, and what it establishes.
  abbrev pub Does : SolverState → (SolverState → Type 0) → SolverState → Type 0
  Does s D s' = Quiet s' × Step rounds t P s s' × D s'

  pub perform_updates-Quiet :
      (replace : ℕ → ℕ → ConstraintGraphNode → ConstraintGraphNode) (n : ℕ) (s : SolverState)
      → Quiet s
      → Quiet (perform_updates replace n s) × Step rounds t P s (perform_updates replace n s)
  perform_updates-Quiet replace n s (v, none_waits) =
      let (g, e, same) = updates_keep replace n s none_waits in
      let (v', st) = with_locals rounds t P s s.node_factory g [] v v.good same in
      rw e ((v', refl), st)

  follow_load-Does :
      (v_rep dst : ℕ) (s : SolverState)
      → Quiet s
      → IsRep rounds t P v_rep
      → IsRep rounds t P dst
      → ((x : ℕ) → P v_rep x → P dst x)
      → Gives (Does s (λ s'. dst ∈ copies s' v_rep)) (follow_load rounds v_rep dst s)
  unfolding follow_load
  follow_load-Does v_rep dst s (v, none_waits) rep_v rep_d flows =
      let (f, e, (v₁, st₁)) = merge_target-Next rounds t P dst s v rep_d.0 in
      let s₁ = record s { node_factory = f } in
      let ((v₂, st₂), there) = add_copy_edge-Next rounds t P v_rep dst s₁ v₁ rep_v rep_d flows in
      rw (e, rep_d.1, remember_same dst (add_copy_edge v_rep dst s₁))
        (gives (
          (v₂, none_waits),
          Step-trans rounds t P s s₁ (add_copy_edge v_rep dst s₁) st₁ st₂,
          there,
        ))

  follow_store-Does :
      (v_rep dst : ℕ) (s : SolverState)
      → Quiet s
      → IsRep rounds t P v_rep
      → IsRep rounds t P dst
      → ((x : ℕ) → P dst x → P v_rep x)
      → Gives (Does s (λ s'. v_rep ∈ copies s' dst)) (follow_store rounds v_rep dst s)
  unfolding follow_store
  follow_store-Does v_rep dst s (v, none_waits) rep_v rep_d flows =
      let (f, e, (v₁, st₁)) = merge_target-Next rounds t P dst s v rep_d.0 in
      let s₁ = record s { node_factory = f } in
      let ((v₂, st₂), there) = add_copy_edge-Next rounds t P dst v_rep s₁ v₁ rep_d rep_v flows in
      rw (e, rep_d.1, remember_same dst (add_copy_edge dst v_rep s₁))
        (gives (
          (v₂, none_waits),
          Step-trans rounds t P s s₁ (add_copy_edge dst v_rep s₁) st₁ st₂,
          there,
        ))

  -- What the visit of `v` leaves behind: the copy edges of all load and store edges of `node`.
  abbrev pub Visited : ℕ → ℕ → SolverState → Type 0
  Visited node v s =
      ((d : ℕ) → d ∈ loads s node → d ∈ copies s (t.rep v))
      × ((d : ℕ) → d ∈ stores s node → t.rep v ∈ copies s d)

  module _ (node v : ℕ) where
    load_loop :
        (s : SolverState)
        → Quiet s
        → v < t.num_nodes
        → P node v
        → Gives
            (Does s (λ s'. (d : ℕ) → d ∈ loads s node → d ∈ copies s' (t.rep v)))
            (for_each (follow_load rounds (t.rep v)) (loads s node) s)
    load_loop s (valid, none_waits) v_lt pv =
        Gives-map
          (Gives-for_each (λ d. d ∈ loads s node) Quiet (λ d u. d ∈ copies u (t.rep v))
            (Step rounds t P) (follow_load rounds (t.rep v)) (Step-refl rounds t P)
            (Step-trans rounds t P) (λ d u w st h. st.copies_grow (t.rep v) d h) (loads s node)
            (All-intro (λ d. d ∈ loads s node) (loads s node) (λ d h. h)) s (valid, none_waits)
            (λ d is_load u st quiet.
              follow_load-Does (t.rep v) d u quiet (t.rep_range v v_lt, t.rep_idem v v_lt)
                (valid.load_ends node d is_load) (λ x p. valid.sound_load node d is_load v x pv p)))
          (λ u (quiet, st, all).
            (quiet, st, λ d h. All-elim (λ d. d ∈ copies u (t.rep v)) d (loads s node) all h))

    store_loop :
        (s : SolverState)
        → Quiet s
        → v < t.num_nodes
        → P node v
        → Gives
            (Does s (λ s'. (d : ℕ) → d ∈ stores s node → t.rep v ∈ copies s' d))
            (for_each (follow_store rounds (t.rep v)) (stores s node) s)
    store_loop s (valid, none_waits) v_lt pv =
        Gives-map
          (Gives-for_each (λ d. d ∈ stores s node) Quiet (λ d u. t.rep v ∈ copies u d)
            (Step rounds t P) (follow_store rounds (t.rep v)) (Step-refl rounds t P)
            (Step-trans rounds t P) (λ d u w st h. st.copies_grow d (t.rep v) h) (stores s node)
            (All-intro (λ d. d ∈ stores s node) (stores s node) (λ d h. h)) s (valid, none_waits)
            (λ d is_store u st quiet.
              follow_store-Does (t.rep v) d u quiet (t.rep_range v v_lt, t.rep_idem v v_lt)
                (valid.store_ends node d is_store)
                (λ x p. valid.sound_store node d is_store v x pv p)))
          (λ u (quiet, st, all).
            (quiet, st, λ d h. All-elim (λ d. t.rep v ∈ copies u d) d (stores s node) all h))

  pub Visited-kept :
      (node v : ℕ) (s s' : SolverState)
      → Step rounds t P s s'
      → Visited node v s
      → Visited node v s'
  Visited-kept node v s s' st (by_load, by_store) = (
    λ d h. st.copies_grow (t.rep v) d (by_load d (subst (λ ds. d ∈ ds) (st.loads_same node) h)),
    λ d h. st.copies_grow d (t.rep v) (by_store d (subst (λ ds. d ∈ ds) (st.stores_same node) h)),
  )

  pub visit_pointee-Does :
      (node v : ℕ) (s : SolverState)
      → Valid rounds t P s
      → v ∈ points_to s node
      → Gives (Does s (Visited node v)) (visit_pointee rounds node v s)
  unfolding visit_pointee
  visit_pointee-Does node v s valid among =
      let clear = record s { update_map = [] } in
      let (v₀, st₀) =
        with_locals rounds t P s s.node_factory s.constraint_graph [] valid valid.good
          (λ m. refl) in
      let v_lt = valid.pointees node v among in
      let pv = valid.sound_points node v among in
      let (f, e, (v₁, st₁)) = merge_target-Next rounds t P v clear v₀ v_lt in
      let s₁ = record clear { node_factory = f } in
      let st₀₁ = Step-trans rounds t P s clear s₁ st₀ st₁ in
      rw e (
        Gives->>= (load_loop node v s₁ (v₁, refl) v_lt pv) (λ s₂ (quiet₂, st₂, by_load).
          let s₃ = perform_updates replace_load_edge node s₂ in
          let (quiet₃, st₃) = perform_updates-Quiet replace_load_edge node s₂ quiet₂ in
          let st₁₃ = Step-trans rounds t P s₁ s₂ s₃ st₂ st₃ in
          Gives->>= (store_loop node v s₃ quiet₃ v_lt pv) (λ s₄ (quiet₄, st₄, by_store).
            let s₅ = perform_updates replace_store_edge node s₄ in
            let (quiet₅, st₅) = perform_updates-Quiet replace_store_edge node s₄ quiet₄ in
            let st₃₅ = Step-trans rounds t P s₃ s₄ s₅ st₄ st₅ in
            let st₁₅ = Step-trans rounds t P s₁ s₃ s₅ st₁₃ st₃₅ in
            let st₂₅ = Step-trans rounds t P s₂ s₃ s₅ st₃ st₃₅ in
            gives (
              quiet₅,
              Step-trans rounds t P s s₁ s₅ st₀₁ st₁₅,
              (
                (λ d h.
                    st₂₅.copies_grow (t.rep v) d
                      (by_load d (subst (λ ds. d ∈ ds) (st₁₅.loads_same node) h))),
                (λ d h.
                    st₅.copies_grow d (t.rep v)
                      (by_store d (subst (λ ds. d ∈ ds) (st₃₅.stores_same node) h))),
              ),
            ))))

  pub propagate-Does :
      (node dst : ℕ) (s : SolverState)
      → Quiet s
      → dst ∈ copies s node
      → Gives
          (Does s (λ s'. (x : ℕ) → x ∈ points_to s node → x ∈ points_to s' dst))
          (propagate rounds node dst s)
  unfolding propagate
  propagate-Does node dst s (v, none_waits) is_copy =
      let rep_d = v.copy_ends node dst is_copy in
      let (f, e, (v₁, st₁)) = merge_target-Next rounds t P dst s v rep_d.0 in
      let s₁ = record s { node_factory = f } in
      let ((v₂, st₂), moved) =
        flow-Next rounds t P node dst s₁ v₁ rep_d (v.sound_copy node dst is_copy) in
      rw (e, rep_d.1, remember_same dst (flow node dst s₁))
        (elim (Bool-cases (node == dst)) [
          | inl itself ↦ rw itself (
              gives (
                (v₁, none_waits),
                st₁,
                λ x h. subst (λ k. x ∈ points_to s k) (eq_of_== node dst itself) h,
              ))
          | inr other ↦ rw other (
              gives
                ((v₂, none_waits), Step-trans rounds t P s s₁ (flow node dst s₁) st₁ st₂, moved))
        ])
