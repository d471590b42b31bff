-- ===== src/Andersen/Solve/Flow.antt =====
-- andersen/lib/ConstraintSolving.cpp, `solveConstraints`: the flow along a copy edge is a step.
use programslicer.Common.{
  ℕ, ◌≤◌, ◌≡◌, ◌⊎◌, inl, inr, refl, Bool, not, ◌&&◌, arith, subst, ◌==◌, if◌then◌else◌, Bool-cases,
  ==_refl, eq_of_==,
}
use programslicer.Common.Sets
use programslicer.Common.Maps.{lookup-set}
use programslicer.Common.Missing.{missing_mono, missing_less}
use programslicer.Andersen.PtsSet
use programslicer.Andersen.PtsSet.{union_with, join}
use programslicer.Andersen.PtsSet.Laws.{has-join, contains_witness, join_same}
use programslicer.Andersen.WorkList.Laws.{
  enqueue_if-grows, enqueue_if-from, enqueue_if-IsWorkList, enqueue_if-cases,
}
use programslicer.Andersen.Solve.{SolverState, points_to, copies, flow}
use programslicer.Andersen.Solve.State.{MergeTargets, ◌∈◌, IsRep, Valid, Step, Next, measure}

module _ (node tgt : ℕ) (s : SolverState) where
  points_to-flow :
      (n : ℕ)
      → points_to (flow node tgt s) n
        ≡ (if tgt == n then join (points_to s tgt) (points_to s node) else points_to s n)
  unfolding flow union_with
  points_to-flow n =
      ground (arith, lookup-set tgt n (join (points_to s tgt) (points_to s node)) s.pts_graph)

  points_flow : (n x : ℕ) → x ∈ points_to s n → x ∈ points_to (flow node tgt s) n
  points_flow n x h =
      let same = eq_of_== tgt n in
      ground (arith, points_to-flow n, has-join x (points_to s tgt) (points_to s node))

  points_from :
      (n x : ℕ)
      → x ∈ points_to (flow node tgt s) n
      → ((tgt ≡ n) × (x ∈ points_to s node)) ⊎ (x ∈ points_to s n)
  points_from n x h = elim (Bool-cases (tgt == n && Sets.contains x (points_to s node))) [
    | inl new ↦ inl (ground (arith, eq_of_== tgt n))
    | inr old ↦
        let same = eq_of_== tgt n in
        inr (ground (arith, points_to-flow n, has-join x (points_to s tgt) (points_to s node)))
  ]

  points_flowed : (x : ℕ) → x ∈ points_to s node → x ∈ points_to (flow node tgt s) tgt
  points_flowed x h =
      ground
        (arith, points_to-flow tgt, has-join x (points_to s tgt) (points_to s node), ==_refl tgt)

module _ (rounds : ℕ) (t : MergeTargets rounds) (P : ℕ → ℕ → Type 0) (node tgt : ℕ)
    (s : SolverState) (v : Valid rounds t P s) (rep_t : IsRep rounds t P tgt)
    (flows : (x : ℕ) → P node x → P tgt x) where
  abbrev flowed : SolverState
  flowed = flow node tgt s

  abbrev is_changed : Bool
  is_changed = not (PtsSet.contains (points_to s tgt) (points_to s node))

  flow-Valid : Valid rounds t P flowed
  unfolding flow union_with
  flow-Valid = record {
    good = v.good;
    copy_ends = v.copy_ends;
    load_ends = v.load_ends;
    store_ends = v.store_ends;
    pointees = λ n x h. elim (points_from node tgt s n x h) [
      | inl (at_t, old) ↦ v.pointees node x old
      | inr old ↦ v.pointees n x old
    ];
    current = v.current;
    next = λ n h. elim (enqueue_if-from tgt s.next_work_list is_changed n h) [
      | inl at_t ↦ subst (λ k. IsRep rounds t P k) at_t rep_t
      | inr old ↦ v.next n old
    ];
    current_list = v.current_list;
    next_list = enqueue_if-IsWorkList tgt s.next_work_list is_changed v.next_list;
    sound_points = λ n x h. elim (points_from node tgt s n x h) [
      | inl (at_t, old) ↦ subst (λ k. P k x) at_t (flows x (v.sound_points node x old))
      | inr old ↦ v.sound_points n x old
    ];
    sound_copy = v.sound_copy;
    sound_load = v.sound_load;
    sound_store = v.sound_store;
  }

  changed_or_same :
      (n : ℕ)
      → (n ∈ flowed.next_work_list.list)
        ⊎ (copies flowed n ≡ copies s n) × (points_to flowed n ≡ points_to s n)
  unfolding flow union_with
  changed_or_same n = elim (enqueue_if-cases tgt s.next_work_list is_changed v.next_list) [
    | inl (more, queued, longer) ↦ elim (Bool-cases (tgt == n)) [
      | inl at_t ↦ inl (subst (λ k. k ∈ flowed.next_work_list.list) (eq_of_== tgt n at_t) queued)
      | inr other ↦ inr (refl, ground (arith, points_to-flow node tgt s n))
    ]
    | inr (old, equal) ↦ inr (
      refl,
      ground (
        arith,
        points_to-flow node tgt s n,
        eq_of_== tgt n,
        join_same (points_to s tgt) (points_to s node),
      ),
    )
  ]

  flow_measure : measure rounds t P flowed ≤ measure rounds t P s
  unfolding flow union_with
  flow_measure = elim (enqueue_if-cases tgt s.next_work_list is_changed v.next_list) [
    | inl (more, queued, longer) ↦
        let (x, from_node, fresh) =
          contains_witness (points_to s tgt) (points_to s node) (ground arith) in
        let less =
          missing_less t.num_nodes (λ n y. Sets.contains y (points_to s n))
            (λ n y. Sets.contains y (points_to flowed n)) (points_flow node tgt s) t.num_nodes tgt x
            rep_t.0 (v.pointees node x from_node) fresh (points_flowed node tgt s x from_node) in
        omega (arith, less, longer)
    | inr (old, equal) ↦
        let same =
          missing_mono t.num_nodes (λ n y. Sets.contains y (points_to s n))
            (λ n y. Sets.contains y (points_to flowed n)) (points_flow node tgt s) t.num_nodes in
        omega (arith, same, equal)
  ]

  flow-Step : Step rounds t P s flowed
  unfolding flow union_with
  flow-Step = record {
    loads_same = λ n. refl;
    stores_same = λ n. refl;
    copies_grow = λ n d h. h;
    points_grow = points_flow node tgt s;
    next_grow = enqueue_if-grows tgt s.next_work_list is_changed;
    changed = changed_or_same;
    current_same = refl;
    measured = flow_measure;
  }

  pub flow-Next :
      Next rounds t P s flowed × ((x : ℕ) → x ∈ points_to s node → x ∈ points_to flowed tgt)
  flow-Next = ((flow-Valid, flow-Step), points_flowed node tgt s)
