-- ===== src/Andersen/Solve/Moves.antt =====
-- andersen/lib/ConstraintSolving.cpp, `solveConstraints`: the two moves of the solver, a new copy
-- edge and the flow along one, are steps.
use programslicer.Common.{
  ℕ, ◌≤◌, ◌≡◌, ◌⊎◌, inl, inr, refl, Bool, not, ◌&&◌, arith, subst, ◌==◌, if◌then◌else◌, Bool-cases,
  ==_refl, eq_of_==,
}
use programslicer.Common.Sets
use programslicer.Common.Sets.{contains-insert}
use programslicer.Common.Missing.{missing, missing_mono, missing_less}
use programslicer.Andersen.PtsSet.Laws.{insert_same}
use programslicer.Andersen.Graph.Laws.{node_or_new-set}
use programslicer.Andersen.Graph.{ConstraintGraphNode, node_or_new, insert_copy_edge}
use programslicer.Andersen.WorkList.Laws.{
  enqueue_if-grows, enqueue_if-from, enqueue_if-IsWorkList, enqueue_if-cases,
}
use programslicer.Andersen.Solve.{SolverState, points_to, copies, loads, stores, add_copy_edge}
use programslicer.Andersen.Solve.State.{MergeTargets, ◌∈◌, IsRep, Valid, Step, Next, measure}

module _ (a b : ℕ) (s : SolverState) where
  -- The node of `a` with the new edge.
  abbrev after : ConstraintGraphNode
  after = record (node_or_new a s.constraint_graph) { copy_edges = Sets.insert b (copies s a) }

  node_after :
      (n : ℕ)
      → node_or_new n (add_copy_edge a b s).constraint_graph
        ≡ (if a == n then after else node_or_new n s.constraint_graph)
  unfolding add_copy_edge insert_copy_edge
  node_after n = node_or_new-set a n after s.constraint_graph

  copies-add_copy_edge :
      (n : ℕ)
      → copies (add_copy_edge a b s) n ≡ (if a == n then Sets.insert b (copies s n) else copies s n)
  copies-add_copy_edge n = let e = node_after n in let same = eq_of_== a n in ground arith

  loads-add_copy_edge : (n : ℕ) → loads (add_copy_edge a b s) n ≡ loads s n
  loads-add_copy_edge n = let e = node_after n in let same = eq_of_== a n in ground arith

  stores-add_copy_edge : (n : ℕ) → stores (add_copy_edge a b s) n ≡ stores s n
  stores-add_copy_edge n = let e = node_after n in let same = eq_of_== a n in ground arith

  edge-add_copy_edge :
      (n d : ℕ) → d ∈ copies (add_copy_edge a b s) n → ((a ≡ n) × (b ≡ d)) ⊎ (d ∈ copies s n)
  edge-add_copy_edge n d h = elim (Bool-cases (a == n && b == d)) [
    | inl new ↦ inl (ground (arith, eq_of_== a n, eq_of_== b d))
    | inr old ↦ inr (ground (arith, copies-add_copy_edge n, contains-insert b d (copies s n)))
  ]

  edges_grow : (n d : ℕ) → d ∈ copies s n → d ∈ copies (add_copy_edge a b s) n
  edges_grow n d h = ground (arith, copies-add_copy_edge n, contains-insert b d (copies s n))

  edge_added : b ∈ copies (add_copy_edge a b s) a
  edge_added =
      ground (arith, copies-add_copy_edge a, contains-insert b b (copies s a), ==_refl a, ==_refl b)

module _ (rounds : ℕ) (t : MergeTargets rounds) (P : ℕ → ℕ → Type 0) where
  module _ (a b : ℕ) (s : SolverState) (v : Valid rounds t P s) (rep_a : IsRep rounds t P a)
      (rep_b : IsRep rounds t P b) (flows : (x : ℕ) → P a x → P b x) where
    abbrev added : SolverState
    added = add_copy_edge a b s

    abbrev is_new : Bool
    is_new = not (Sets.contains b (copies s a))

    add_copy_edge-Valid : Valid rounds t P added
    unfolding add_copy_edge insert_copy_edge
    add_copy_edge-Valid = record {
      good = v.good;
      copy_ends = λ n d h. elim (edge-add_copy_edge a b s n d h) [
        | inl (at_a, at_b) ↦ subst (λ k. IsRep rounds t P k) at_b rep_b
        | inr old ↦ v.copy_ends n d old
      ];
      load_ends = λ n d h. v.load_ends n d (rw (← loads-add_copy_edge a b s n) h);
      store_ends = λ n d h. v.store_ends n d (rw (← stores-add_copy_edge a b s n) h);
      pointees = v.pointees;
      current = v.current;
      next = λ n h. elim (enqueue_if-from a s.next_work_list is_new n h) [
        | inl at_a ↦ subst (λ k. IsRep rounds t P k) at_a rep_a
        | inr old ↦ v.next n old
      ];
      current_list = v.current_list;
      next_list = enqueue_if-IsWorkList a s.next_work_list is_new v.next_list;
      sound_points = v.sound_points;
      sound_copy = λ n d h. elim (edge-add_copy_edge a b s n d h) [
        | inl (at_a, at_b) ↦
            subst (λ k. (x : ℕ) → P k x → P d x) at_a
              (subst (λ k. (x : ℕ) → P a x → P k x) at_b flows)
        | inr old ↦ v.sound_copy n d old
      ];
      sound_load = λ n d h. v.sound_load n d (rw (← loads-add_copy_edge a b s n) h);
      sound_store = λ n d h. v.sound_store n d (rw (← stores-add_copy_edge a b s n) h);
    }

    changed_or_same :
        (n : ℕ)
        → (n ∈ added.next_work_list.list)
          ⊎ (copies added n ≡ copies s n) × (points_to added n ≡ points_to s n)
    unfolding add_copy_edge insert_copy_edge
    changed_or_same n = elim (enqueue_if-cases a s.next_work_list is_new v.next_list) [
      | inl (fresh, queued, longer) ↦ elim (Bool-cases (a == n)) [
        | inl at_a ↦ inl (subst (λ k. k ∈ added.next_work_list.list) (eq_of_== a n at_a) queued)
        | inr other ↦ inr (ground (arith, copies-add_copy_edge a b s n), refl)
      ]
      | inr (old, equal) ↦ inr (
        ground (arith, copies-add_copy_edge a b s n, eq_of_== a n, insert_same b (copies s n)),
        refl,
      )
    ]

    add_copy_edge_measure : measure rounds t P added ≤ measure rounds t P s
    unfolding add_copy_edge insert_copy_edge
    add_copy_edge_measure =
        let points = missing t.num_nodes t.num_nodes (λ n x. Sets.contains x (points_to s n)) in
        elim (enqueue_if-cases a s.next_work_list is_new v.next_list) [
          | inl (fresh, queued, longer) ↦
              let less =
                missing_less t.num_nodes (λ n d. Sets.contains d (copies s n))
                  (λ n d. Sets.contains d (copies added n)) (edges_grow a b s) t.num_nodes a b
                  rep_a.0 rep_b.0 (ground arith) (edge_added a b s) in
              omega (arith, less, longer)
          | inr (old, equal) ↦
              let same =
                missing_mono t.num_nodes (λ n d. Sets.contains d (copies s n))
                  (λ n d. Sets.contains d (copies added n)) (edges_grow a b s) t.num_nodes in
              omega (arith, same, equal)
        ]

    add_copy_edge-Step : Step rounds t P s added
    unfolding add_copy_edge insert_copy_edge
    add_copy_edge-Step = record {
      loads_same = loads-add_copy_edge a b s;
      stores_same = stores-add_copy_edge a b s;
      copies_grow = edges_grow a b s;
      points_grow = λ n x h. h;
      next_grow = enqueue_if-grows a s.next_work_list is_new;
      changed = changed_or_same;
      current_same = refl;
      measured = add_copy_edge_measure;
    }

    pub add_copy_edge-Next : Next rounds t P s added × (b ∈ copies added a)
    add_copy_edge-Next = ((add_copy_edge-Valid, add_copy_edge-Step), edge_added a b s)
