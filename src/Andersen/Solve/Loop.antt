-- ===== src/Andersen/Solve/Loop.antt =====
-- andersen/lib/ConstraintSolving.cpp, `solveConstraints`: the two `while` loops end, and then
-- nothing is to be done for any node.
use programslicer.Common.{
  ℕ, zero, suc, ◌+◌, ◌≤◌, ◌<◌, ◌≡◌, ◌⊎◌, inl, inr, refl, true, false, none, some, List, [], ◌∷◌,
  if◌then◌else◌, ◌>>=◌, arith, sym, ◌∙◌, subst, length, ◌==◌, ==_refl, eq_of_==, Bool-cases,
  List-cases, Gives, gives, Gives->>=, Gives-map,
}
use programslicer.Common.Sets
use programslicer.Andersen.WorkList.{AndersWorkList, dequeue}
use programslicer.Andersen.WorkList.Laws.{IsWorkList, dequeue-IsWorkList}
use programslicer.Andersen.Solve.{
  SolverState, points_to, copies, loads, stores, examine, swap_if_empty, solve,
}
use programslicer.Andersen.Solve.State.{MergeTargets, ◌∈◌, IsRep, Valid, measure}
use programslicer.Andersen.Solve.Examine.{Quiet}
use programslicer.Andersen.Solve.Round.{Settled, Settled-Step, Examined, examine-Examined}

-- What the loops keep of a state.
pub record Kept (s s' : SolverState) : Type 0 where
  pub loads_same : (n : ℕ) → loads s' n ≡ loads s n
  pub stores_same : (n : ℕ) → stores s' n ≡ stores s n
  pub copies_grow : (n d : ℕ) → d ∈ copies s n → d ∈ copies s' n
  pub points_grow : (n v : ℕ) → v ∈ points_to s n → v ∈ points_to s' n

Kept-trans : (s s' s'' : SolverState) → Kept s s' → Kept s' s'' → Kept s s''
Kept-trans s s' s'' a b = record {
  loads_same = λ n. b.loads_same n ∙ a.loads_same n;
  stores_same = λ n. b.stores_same n ∙ a.stores_same n;
  copies_grow = λ n d h. b.copies_grow n d (a.copies_grow n d h);
  points_grow = λ n v h. b.points_grow n v (a.points_grow n v h);
}

module _ (rounds : ℕ) (t : MergeTargets rounds) (P : ℕ → ℕ → Type 0) where
  -- Every node is settled, or in one of the work lists.
  abbrev pub Covered : SolverState → Type 0
  Covered s =
      (n : ℕ) → (n ∈ s.curr_work_list.list) ⊎ ((n ∈ s.next_work_list.list) ⊎ Settled rounds t P s n)

  abbrev pub total : SolverState → ℕ
  total s = measure rounds t P s + length s.curr_work_list.list

  abbrev Ready : SolverState → Type 0
  Ready s = Quiet rounds t P s × Covered s

  -- The same state with other work lists.
  with_lists :
      (s : SolverState) (curr next : AndersWorkList)
      → Quiet rounds t P s
      → ((n : ℕ) → n ∈ curr.list → IsRep rounds t P n)
      → ((n : ℕ) → n ∈ next.list → IsRep rounds t P n)
      → IsWorkList curr
      → IsWorkList next
      → Quiet rounds t P (record s { curr_work_list = curr; next_work_list = next })
  with_lists s curr next (v, none_waits) in_curr in_next ok_curr ok_next = (
    record {
      good = v.good;
      copy_ends = v.copy_ends;
      load_ends = v.load_ends;
      store_ends = v.store_ends;
      pointees = v.pointees;
      current = in_curr;
      next = in_next;
      current_list = ok_curr;
      next_list = ok_next;
      sound_points = v.sound_points;
      sound_copy = v.sound_copy;
      sound_load = v.sound_load;
      sound_store = v.sound_store;
    },
    none_waits,
  )

  with_lists-Settled :
      (s : SolverState) (curr next : AndersWorkList) (n : ℕ)
      → Settled rounds t P s n
      → Settled rounds t P (record s { curr_work_list = curr; next_work_list = next }) n
  with_lists-Settled s curr next n settled = record {
    visited = settled.visited;
    flowed = settled.flowed;
  }

  abbrev pub Done : SolverState → SolverState → Type 0
  Done s s' = Valid rounds t P s' × ((n : ℕ) → Settled rounds t P s' n) × Kept s s'

  -- The state after a round for `n`, the first element of the list.
  after_round :
      (s s' : SolverState) (n : ℕ) (rest set : List ℕ)
      → Covered s
      → s.curr_work_list.list ≡ n ∷ rest
      → Examined rounds t P n (record s { curr_work_list = record { list = rest; set = set } }) s'
      → Ready s' × (suc (total s') ≤ total s) × Kept s s'
  after_round s s' n rest set cover at_list (quiet, st, end) =
      let work : AndersWorkList = record { list = rest; set = set } in
      let s₀ = record s { curr_work_list = work } in
      let total_s : length s.curr_work_list.list ≡ suc (length rest) = ground arith in
      let total_s' : length s'.curr_work_list.list ≡ length rest =
        subst (λ w. length w.list ≡ length rest) (sym st.current_same) refl in
      (
        (
          quiet,
          λ m. elim (cover m) [
            | inl in_curr ↦ elim (Bool-cases (n == m)) [
              | inl same ↦ inr (
                  subst (λ k. (k ∈ s'.next_work_list.list) ⊎ Settled rounds t P s' k)
                    (eq_of_== n m same) end)
              | inr other ↦
                  let in_rest : m ∈ rest = ground (arith, subst (λ l. m ∈ l) at_list in_curr) in
                  inl (subst (λ w. m ∈ w.list) (sym st.current_same) in_rest)
            ]
            | inr (inl queued) ↦ inr (inl (st.next_grow m queued))
            | inr (inr settled) ↦ inr (
                Settled-Step rounds t P s₀ s' m st
                  (with_lists-Settled s work s.next_work_list m settled))
          ],
        ),
        omega (arith, st.measured, total_s, total_s'),
        record {
          loads_same = st.loads_same;
          stores_same = st.stores_same;
          copies_grow = st.copies_grow;
          points_grow = st.points_grow;
        },
      )

  -- The rest of the function, by the current list: it is left, or a round is made and the loop goes
  -- on with less fuel.
  run_from :
      (fuel : ℕ) (s : SolverState) (l : List ℕ)
      → Ready s
      → s.curr_work_list.list ≡ l
      → (l ≡ [] → s.next_work_list.list ≡ [])
      → ((s' : SolverState)
          → Ready s'
          → suc (total s') ≤ total s
          → Gives (Done s') (solve rounds fuel s'))
      → Gives (Done s) (
          if (elim l [ [] ↦ true | _ ∷ _ ↦ false ])
          then some s
          else (elim l [
            | [] ↦ none
            | ret ∷ rest ↦
                some (ret, record { list = rest; set = Sets.erase ret s.curr_work_list.set })
          ]
              >>= λ (n, work). examine rounds n (record s { curr_work_list = work }) >>= λ s₂.
                  solve rounds fuel s₂))
  run_from fuel s [] ((v, _), cover) at_list both next = gives (
    v,
    (λ n. elim (cover n) [
      | inl in_curr ↦ absurd (ground arith)
      | inr (inl queued) ↦ let e = both refl in absurd (ground arith)
      | inr (inr settled) ↦ settled
    ]),
    record {
      loads_same = λ n. refl;
      stores_same = λ n. refl;
      copies_grow = λ n d h. h;
      points_grow = λ n x h. h;
    },
  )
  run_from fuel s (n ∷ rest) ((v, none_waits), cover) at_list both next =
      let set = Sets.erase n s.curr_work_list.set in
      let work : AndersWorkList = record { list = rest; set = set } in
      let in_list : (m : ℕ) → m ∈ n ∷ rest → m ∈ s.curr_work_list.list =
        λ m h. subst (λ l. m ∈ l) (sym at_list) h in
      let ok : IsWorkList work =
        dequeue-IsWorkList n rest s.curr_work_list.set
          (λ m h. subst (λ l. m ∈ l) at_list (v.current_list m h)) in
      let quiet =
        with_lists s work s.next_work_list (v, none_waits)
          (λ m h. v.current m (in_list m (ground arith))) v.next ok v.next_list in
      Gives->>=
        (examine-Examined rounds t P n (record s { curr_work_list = work }) quiet
          (v.current n (in_list n (ground (arith, ==_refl n)))))
        (λ s₂ done.
          let (ready, less, kept) = after_round s s₂ n rest set cover at_list done in
          Gives-map (next s₂ ready less)
            (λ s' (v', settled, kept'). (v', settled, Kept-trans s s₂ s' kept kept')))

  swap-cases :
      (s : SolverState)
      → ((swap_if_empty s ≡ s) × (n : ℕ) × (rest : List ℕ) × (s.curr_work_list.list ≡ n ∷ rest))
        ⊎ (swap_if_empty s
            ≡ record s { curr_work_list = s.next_work_list; next_work_list = s.curr_work_list })
          × (s.curr_work_list.list ≡ [])
  unfolding swap_if_empty
  swap-cases s = elim (List-cases s.curr_work_list.list) [
    | inl e ↦ inr (ground arith, e)
    | inr (n, rest, e) ↦ inl (ground arith, n, rest, e)
  ]

  swapped :
      (s : SolverState)
      → Ready s
      → s.curr_work_list.list ≡ []
      → Ready (record s { curr_work_list = s.next_work_list; next_work_list = s.curr_work_list })
        × (total (record s { curr_work_list = s.next_work_list; next_work_list = s.curr_work_list })
            ≡ total s)
  swapped s ((v, none_waits), cover) e = (
    (
      with_lists s s.next_work_list s.curr_work_list (v, none_waits) v.next v.current v.next_list
          v.current_list,
      λ m. elim (cover m) [
        | inl in_curr ↦ absurd (ground arith)
        | inr (inl queued) ↦ inl queued
        | inr (inr settled) ↦
            inr (inr (with_lists-Settled s s.next_work_list s.curr_work_list m settled))
      ],
    ),
    omega arith,
  )

  -- With more fuel than there is to find and to do, the loops end.
  pub solve-Done :
      (fuel : ℕ) (s : SolverState)
      → Quiet rounds t P s
      → Covered s
      → total s < fuel
      → Gives (Done s) (solve rounds fuel s)
  unfolding solve dequeue
  solve-Done zero s quiet cover h = absurd (omega (arith, h))
  solve-Done (suc fuel) s quiet cover h = elim (swap-cases s) [
    | inl (stays, n, rest, e) ↦ rw stays (
        run_from fuel s s.curr_work_list.list (quiet, cover) refl (λ empty. ground arith)
          (λ s' (q, c) less. solve-Done fuel s' q c (omega (arith, less, h))))
    | inr (swaps, e) ↦
        let (ready, same) = swapped s (quiet, cover) e in
        let s₁ = record s {
          curr_work_list = s.next_work_list;
          next_work_list = s.curr_work_list;
        } in
        rw swaps (
          Gives-map
            (run_from fuel s₁ s₁.curr_work_list.list ready refl (λ empty. e)
              (λ s' (q, c) less. solve-Done fuel s' q c (omega (arith, less, h, same))))
            (λ s' (v', settled, kept). (
              v',
              settled,
              record {
                loads_same = kept.loads_same;
                stores_same = kept.stores_same;
                copies_grow = kept.copies_grow;
                points_grow = kept.points_grow;
              },
            )))
  ]
