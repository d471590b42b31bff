-- ===== src/Andersen/Solve/Round.antt =====
-- andersen/lib/ConstraintSolving.cpp, `solveConstraints`: a round for one node.
use programslicer.Common.{
  ℕ, ◌≡◌, ◌⊎◌, inl, inr, refl, Option, none, some, [], ◌>>=◌, arith, ◌∙◌, subst, for_each, Gives,
  gives, Gives->>=, Gives-map, Gives-for_each,
}
use programslicer.Common.Maps
use programslicer.Andersen.PtsSet.{AndersPtsSet}
use programslicer.Andersen.Graph.{ConstraintGraphNode, replace_copy_edge}
use programslicer.Andersen.Solve.{
  SolverState, points_to, copies, perform_updates, visit_pointee, propagate, examine,
}
use programslicer.Andersen.Solve.State.{
  MergeTargets, ◌∈◌, IsRep, Step, Step-refl, Step-trans, with_locals, merge_target-Next,
}
use programslicer.Andersen.Solve.Examine.{
  All-intro, All-elim, Quiet, Does, Visited, Visited-kept, perform_updates-Quiet,
  visit_pointee-Does, propagate-Does,
}

module _ (rounds : ℕ) (t : MergeTargets rounds) (P : ℕ → ℕ → Type 0) where
  -- Nothing is to be done for a node: the load and store edges have their copy edges, and what
  -- the node points to has flowed along its copy edges.
  pub record Settled (s : SolverState) (n : ℕ) : Type 0 where
    pub visited : (v : ℕ) → v ∈ points_to s n → Visited rounds t P n v s
    pub flowed : (d : ℕ) → d ∈ copies s n → (x : ℕ) → x ∈ points_to s n → x ∈ points_to s d

  -- A step leaves a settled node settled, or queues it.
  pub Settled-Step :
      (s s' : SolverState) (n : ℕ)
      → Step rounds t P s s'
      → Settled s n
      → (n ∈ s'.next_work_list.list) ⊎ Settled s' n
  Settled-Step s s' n st settled = elim (st.changed n) [
    | inl queued ↦ inl queued
    | inr (same_copies, same_points) ↦ inr (record {
      visited = λ v h.
          Visited-kept rounds t P n v s s' st
            (settled.visited v (subst (λ vs. v ∈ vs) same_points h));
      flowed = λ d h x k. st.points_grow d x (
          settled.flowed d (subst (λ ds. d ∈ ds) same_copies h) x
            (subst (λ xs. x ∈ xs) same_points k));
    })
  ]

  -- A round ends in a valid state, after steps, with its node settled or queued.
  abbrev pub Examined : ℕ → SolverState → SolverState → Type 0
  Examined n s s' =
      Quiet rounds t P s' × Step rounds t P s s' × ((n ∈ s'.next_work_list.list) ⊎ Settled s' n)

  pointee_loop :
      (node : ℕ) (s : SolverState)
      → Quiet rounds t P s
      → Gives
          (Does rounds t P s (λ s'. (v : ℕ) → v ∈ points_to s node → Visited rounds t P node v s'))
          (for_each (visit_pointee rounds node) (points_to s node) s)
  pointee_loop node s quiet =
      Gives-map
        (Gives-for_each (λ v. v ∈ points_to s node) (Quiet rounds t P) (Visited rounds t P node)
          (Step rounds t P) (visit_pointee rounds node) (Step-refl rounds t P)
          (Step-trans rounds t P) (λ v u w st d. Visited-kept rounds t P node v u w st d)
          (points_to s node) (All-intro (λ v. v ∈ points_to s node) (points_to s node) (λ v h. h)) s
          quiet
          (λ v among u st (valid, _).
            visit_pointee-Does rounds t P node v u valid (st.points_grow node v among)))
        (λ u (quiet', st, all). (
          quiet',
          st,
          λ v h. All-elim (λ v. Visited rounds t P node v u) v (points_to s node) all h,
        ))

  copy_loop :
      (node : ℕ) (s : SolverState)
      → Quiet rounds t P s
      → Gives
          (Does rounds t P s (λ s'.
            (d : ℕ) → d ∈ copies s node → (x : ℕ) → x ∈ points_to s node → x ∈ points_to s' d))
          (for_each (propagate rounds node) (copies s node) s)
  copy_loop node s quiet =
      Gives-map
        (Gives-for_each (λ d. d ∈ copies s node) (Quiet rounds t P)
          (λ d u. (x : ℕ) → x ∈ points_to s node → x ∈ points_to u d) (Step rounds t P)
          (propagate rounds node) (Step-refl rounds t P) (Step-trans rounds t P)
          (λ d u w st f x h. st.points_grow d x (f x h)) (copies s node)
          (All-intro (λ d. d ∈ copies s node) (copies s node) (λ d h. h)) s quiet
          (λ d is_copy u st q.
            Gives-map (propagate-Does rounds t P node d u q (st.copies_grow node d is_copy))
              (λ w (q', st', f). (q', st', λ x h. f x (st.points_grow node x h)))))
        (λ u (quiet', st, all). (
          quiet',
          st,
          λ d h.
              All-elim (λ d. (x : ℕ) → x ∈ points_to s node → x ∈ points_to u d) d (copies s node)
                all h,
        ))

  loops-Examined :
      (node : ℕ) (s : SolverState)
      → Quiet rounds t P s
      → Gives (Examined node s) (do
        s₂ ← for_each (visit_pointee rounds node) (points_to s node) s
        s₃ ← for_each (propagate rounds node) (copies s₂ node) (record s₂ { update_map = [] })
        some (perform_updates replace_copy_edge node s₃))
  loops-Examined node s quiet =
      Gives->>= (pointee_loop node s quiet) (λ s₂ ((v₂, none_waits), st₂, visited).
        let clear = record s₂ { update_map = [] } in
        let (v₂', st₂') =
          with_locals rounds t P s₂ s₂.node_factory s₂.constraint_graph [] v₂ v₂.good (λ m. refl) in
        Gives->>= (copy_loop node clear (v₂', refl)) (λ s₃ (quiet₃, st₃, moved).
          let s₄ = perform_updates replace_copy_edge node s₃ in
          let (quiet₄, st₄) = perform_updates-Quiet rounds t P replace_copy_edge node s₃ quiet₃ in
          let st₂₄ =
            Step-trans rounds t P s₂ clear s₄ st₂' (Step-trans rounds t P clear s₃ s₄ st₃ st₄) in
          let st = Step-trans rounds t P s s₂ s₄ st₂ st₂₄ in
          gives (
            quiet₄,
            st,
            elim (st₂.changed node) [
              | inl queued ↦ inl (st₂₄.next_grow node queued)
              | inr (_, points₂) ↦ elim (st₂₄.changed node) [
                | inl queued ↦ inl queued
                | inr (copies₄, points₄) ↦ inr (record {
                  visited = λ v h.
                      Visited-kept rounds t P node v s₂ s₄ st₂₄
                        (visited v (subst (λ vs. v ∈ vs) (points₄ ∙ points₂) h));
                  flowed = λ d h x k.
                      st₄.points_grow d x (
                        moved d (subst (λ ds. d ∈ ds) copies₄ h) x
                          (subst (λ xs. x ∈ xs) points₄ k));
                })
              ]
            ],
          )))

  pub empty-Settled :
      (s : SolverState) (n : ℕ)
      → (Maps.lookup n s.constraint_graph ≡ none) ⊎ (Maps.lookup n s.pts_graph ≡ none)
      → Settled s n
  empty-Settled s n (inl no_node) = record {
    visited = λ v h. (λ d k. ground arith, λ d k. ground arith);
    flowed = λ d h x k. ground arith;
  }
  empty-Settled s n (inr no_points) = record {
    visited = λ v h. absurd (ground arith);
    flowed = λ d h x k. absurd (ground arith);
  }

  -- What follows the two searches of the round, by what they find.
  after_search :
      (n : ℕ) (s : SolverState)
      → Quiet rounds t P s
      → (node : Option ConstraintGraphNode) → Maps.lookup n s.constraint_graph ≡ node
      → (points : Option AndersPtsSet) → Maps.lookup n s.pts_graph ≡ points
      → Gives (Examined n s) (elim node [
        | none ↦ some s
        | some c_node ↦ elim points [
          | none ↦ some s
          | some pts_set ↦ for_each (visit_pointee rounds n) pts_set s >>= λ s₂.
              for_each (propagate rounds n) (copies s₂ n) (record s₂ { update_map = [] }) >>= λ s₃.
              some (perform_updates replace_copy_edge n s₃)
        ]
      ])
  after_search n s quiet none at_n points at_p =
      gives (quiet, Step-refl rounds t P s, inr (empty-Settled s n (inl at_n)))
  after_search n s quiet (some c_node) at_n none at_p =
      gives (quiet, Step-refl rounds t P s, inr (empty-Settled s n (inr at_p)))
  after_search n s quiet (some c_node) at_n (some pts_set) at_p =
      let same : points_to s n ≡ pts_set = ground arith in
      subst
        (λ ps. Gives (Examined n s) (
          for_each (visit_pointee rounds n) ps s >>= λ s₂.
          for_each (propagate rounds n) (copies s₂ n) (record s₂ { update_map = [] }) >>= λ s₃.
          some (perform_updates replace_copy_edge n s₃)))
        same (loops-Examined n s quiet)

  pub examine-Examined :
      (n : ℕ) (s : SolverState)
      → Quiet rounds t P s
      → IsRep rounds t P n
      → Gives (Examined n s) (examine rounds n s)
  unfolding examine
  examine-Examined n s (v, none_waits) rep_n =
      let (f, e, (v₁, st₁)) = merge_target-Next rounds t P n s v rep_n.0 in
      let s₁ = record s { node_factory = f } in
      rw (e, rep_n.1)
        (Gives-map
          (after_search n s₁ (v₁, none_waits) (Maps.lookup n s₁.constraint_graph) refl
            (Maps.lookup n s₁.pts_graph) refl)
          (λ s' (quiet, st, end). (quiet, Step-trans rounds t P s s₁ s' st₁ st, end)))
