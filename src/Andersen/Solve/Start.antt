-- ===== src/Andersen/Solve/Start.antt =====
-- andersen/lib/ConstraintSolving.cpp, `solveConstraints`: the loop that fills the first work list.
use programslicer.Common.{
  ℕ, ◌≡◌, ◌⊎◌, inl, inr, refl, none, some, [], ◌∷◌, arith, sym, ◌∙◌, ap, subst, Option-cases,
  ==_refl, All, for_each, Gives, gives, Gives-map, Gives-for_each,
}
use programslicer.Common.Maps
use programslicer.Common.Maps.{Map}
use programslicer.Andersen.PtsSet.{AndersPtsSet}
use programslicer.Andersen.WorkList
use programslicer.Andersen.WorkList.{AndersWorkList, enqueue}
use programslicer.Andersen.WorkList.Laws.{
  enqueue-in, enqueue-grows, enqueue-from, enqueue-IsWorkList,
}
use programslicer.Andersen.Solve.{SolverState, pointers, start_node}
use programslicer.Andersen.Solve.State.{MergeTargets, ◌∈◌, IsRep, merge_target-Next}
use programslicer.Andersen.Solve.Examine.{All-intro, All-elim, Quiet}
use programslicer.Andersen.Solve.Round.{empty-Settled}
use programslicer.Andersen.Solve.Loop.{Covered}
use programslicer.Andersen.Solve.Build.{Early}

pointer_of_lookup :
    (n : ℕ) (p : AndersPtsSet) (m : Map AndersPtsSet) → Maps.lookup n m ≡ some p → n ∈ pointers m
unfolding pointers
pointer_of_lookup n p [] h = ground arith
pointer_of_lookup n p ((j, q) ∷ m) h = ground (arith, pointer_of_lookup n p m)

module _ (rounds : ℕ) (t : MergeTargets rounds) (P : ℕ → ℕ → Type 0) where
  -- What the loop keeps.
  pub record Scan (s : SolverState) : Type 0 where
    pub quiet : Quiet rounds t P s
    pub none_next : s.next_work_list ≡ WorkList.empty

  -- What it changes: the factory, and the list, which grows.
  pub record Same (s s' : SolverState) : Type 0 where
    pub same_graph : s'.constraint_graph ≡ s.constraint_graph
    pub same_points : s'.pts_graph ≡ s.pts_graph
    pub more : (n : ℕ) → n ∈ s.curr_work_list.list → n ∈ s'.curr_work_list.list

  Same-refl : (s : SolverState) → Same s s
  Same-refl s = record { same_graph = refl; same_points = refl; more = λ n h. h }

  Same-trans : (s u w : SolverState) → Same s u → Same u w → Same s w
  Same-trans s u w a b = record {
    same_graph = b.same_graph ∙ a.same_graph;
    same_points = b.same_points ∙ a.same_points;
    more = λ n h. b.more n (a.more n h);
  }

  -- The node is in the list, unless the constraint graph does not have it.
  abbrev pub Queued : ℕ → SolverState → Type 0
  Queued n s = (n ∈ s.curr_work_list.list) ⊎ (Maps.lookup n s.constraint_graph ≡ none)

  Queued-Same : (n : ℕ) (s s' : SolverState) → Same s s' → Queued n s → Queued n s'
  Queued-Same n s s' same (inl h) = inl (same.more n h)
  Queued-Same n s s' same (inr missing) = inr (ap (Maps.lookup n) same.same_graph ∙ missing)

  Scan-enqueue :
      (n : ℕ) (s : SolverState)
      → Scan s
      → IsRep rounds t P n
      → Scan (record s { curr_work_list = enqueue n s.curr_work_list })
  Scan-enqueue n s scan rep_n =
      let v = scan.quiet.0 in
      record {
        quiet = (
          record {
            good = v.good;
            copy_ends = v.copy_ends;
            load_ends = v.load_ends;
            store_ends = v.store_ends;
            pointees = v.pointees;
            current = λ m h. elim (enqueue-from n s.curr_work_list m h) [
              | inl e ↦ rw (← e) rep_n
              | inr before ↦ v.current m before
            ];
            next = v.next;
            current_list = enqueue-IsWorkList n s.curr_work_list v.current_list;
            next_list = v.next_list;
            sound_points = v.sound_points;
            sound_copy = v.sound_copy;
            sound_load = v.sound_load;
            sound_store = v.sound_store;
          },
          scan.quiet.1,
        );
        none_next = scan.none_next;
      }

  start_node-Queued :
      (n : ℕ) (s : SolverState)
      → Scan s
      → IsRep rounds t P n
      → Gives (λ s'. Scan s' × Same s s' × Queued n s') (start_node rounds n s)
  unfolding start_node
  start_node-Queued n s scan (in_range, own) =
      let (f, e, (v, _)) = merge_target-Next rounds t P n s scan.quiet.0 in_range in
      let s₁ = record s { node_factory = f } in
      let scan₁ : Scan s₁ = record { quiet = (v, scan.quiet.1); none_next = scan.none_next } in
      let same₁ : Same s s₁ = record { same_graph = refl; same_points = refl; more = λ m h. h } in
      elim (Option-cases (Maps.lookup n s.constraint_graph)) [
        | inl missing ↦ rw (e, own, ==_refl n, missing) (gives (scan₁, same₁, inr missing))
        | inr (node, found) ↦
            rw (e, own, ==_refl n, found)
              (gives (
                Scan-enqueue n s₁ scan₁ (in_range, own),
                record {
                  same_graph = refl;
                  same_points = refl;
                  more = enqueue-grows n s.curr_work_list;
                },
                inl (enqueue-in n s.curr_work_list v.current_list),
              ))
      ]

  Covered-Scan :
      (s : SolverState) → All (λ n. Queued n s) (pointers s.pts_graph) → Covered rounds t P s
  Covered-Scan s all n = elim (Option-cases (Maps.lookup n s.pts_graph)) [
    | inl no_points ↦ inr (inr (empty-Settled rounds t P s n (inr no_points)))
    | inr (p, found) ↦
        elim (All-elim (λ k. Queued k s) n (pointers s.pts_graph) all
          (pointer_of_lookup n p s.pts_graph found)) [
            | inl queued ↦ inl queued
            | inr missing ↦ inr (inr (empty-Settled rounds t P s n (inl missing)))
          ]
  ]

  -- The loop succeeds, and every node is settled or in the list.
  pub start-Covered :
      (s : SolverState)
      → Early rounds t P s
      → Gives
          (λ s'.
            Quiet rounds t P s'
            × Covered rounds t P s'
            × (s'.next_work_list ≡ WorkList.empty)
            × Same s s')
          (for_each (start_node rounds) (pointers s.pts_graph) s)
  start-Covered s early =
      Gives-map
        (Gives-for_each (IsRep rounds t P) Scan Queued Same (start_node rounds) Same-refl Same-trans
          Queued-Same (pointers s.pts_graph)
          (All-intro (IsRep rounds t P) (pointers s.pts_graph) early.keys) s
          (record { quiet = (early.valid, early.none_waits); none_next = early.no_next })
          (λ n rep_n u same scan. start_node-Queued n u scan rep_n))
        (λ s' (scan, same, all). (
          scan.quiet,
          Covered-Scan s'
              (subst (λ m. All (λ n. Queued n s') (pointers m)) (sym same.same_points) all),
          scan.none_next,
          same,
        ))
