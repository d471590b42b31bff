-- ===== src/Cdg/Exact.antt =====
-- CDG.cpp, `runOnFunction`: the pass returns, and its edges are the control dependences.
use programslicer.Common.{
  ℕ, ◌≡◌, refl, ◌↔◌, ◌⊎◌, ◌+◌, inl, inr, true, false, Option, none, some, List, [], ◌∷◌, All, Any,
  length, arith, ◌∙◌, sym, subst, ==_refl, eq_of_==, Bool-cases, List-cases, ◌==◌, for_each,
}
use mathlib.Core.Logic.{⊎_elim}
use mathlib.Core.Option.{some-injective}
use programslicer.Ir.{Block, Function}
use programslicer.Cdg.{
  PostDominatorTree, Graph, visit_block, hang_on_entry, make_dependent_on_entry, run_on_function,
}
use programslicer.Cdg.Dependence.{ControlsVia, Depends, Branch, IsPostDominatorTree, Adds}
use programslicer.Cdg.Climb.{for_each-Adds, visit_successor-Adds, Adds-map}
use programslicer.Common.Maps.{Map}
use programslicer.DirectedGraph.{is_edge, IsValid, get_pred_set, null, at}
use programslicer.DirectedGraph.Laws.{is_edge-insert, insert-IsValid, get_pred_set-IsValid}

-- `v` is one of the blocks.
abbrev pub IsBlock : List Block → ℕ → Type 0
IsBlock blocks v = Any (λ block. block.id ≡ v) blocks

abbrev pub NoPredecessor : Graph → ℕ → Type 0
NoPredecessor g v = (w : ℕ) → is_edge g w v ≡ false

is_edge-get_pred_set : (b u v : ℕ) (g : Graph) → is_edge (get_pred_set b g).1 u v ≡ is_edge g u v
unfolding get_pred_set
is_edge-get_pred_set b u v g = refl

empty_iff : (b : ℕ) (g : Graph) → IsValid g → ((get_pred_set b g).0 ≡ []) ↔ NoPredecessor g b
unfolding get_pred_set
empty_iff b g valid = (forth, back)
  where
    forth : at g.pred_map b ≡ [] → NoPredecessor g b
    forth e w = rw (valid.mirror w b, e) refl

    back : NoPredecessor g b → at g.pred_map b ≡ []
    back none_there = elim (List-cases (at g.pred_map b)) [
      | inl e ↦ e
      | inr ((w, x), rest, e) ↦ ground (arith, none_there w, valid.mirror w b, ==_refl w)
    ]

hang-IsValid :
    (set : Map (Option ℕ)) (block : ℕ) (g : Graph) → IsValid g → IsValid (hang_on_entry set block g)
unfolding hang_on_entry
hang-IsValid [] block g v = insert-IsValid null block none g v
hang-IsValid (_ ∷ _) block g v = v

hang-exact :
    (set : Map (Option ℕ)) (block : ℕ) (g g' : Graph) (u v : ℕ)
    → ((set ≡ []) ↔ NoPredecessor g block)
    → ((x y : ℕ) → is_edge g' x y ≡ is_edge g x y)
    → (is_edge (hang_on_entry set block g') u v ≡ true)
      ↔ ((is_edge g u v ≡ true) ⊎ (u ≡ null) × (block ≡ v) × NoPredecessor g v)
unfolding hang_on_entry
hang-exact [] block g g' u v empty same = (
  λ h. elim (Bool-cases (is_edge g u v)) [
    | inl old ↦ inl old
    | inr new ↦
        let at_end : (u ≡ null) × (block ≡ v) =
          ground (arith, is_edge-insert null block u v none g', same u v) in
        inr (at_end.0, at_end.1, subst (λ x. NoPredecessor g x) at_end.1 (empty.0 refl))
  ],
  ⊎_elim (λ old. ground (arith, is_edge-insert null block u v none g', same u v))
      (λ (at_null, at_block, _).
        ground (arith, is_edge-insert null block u v none g', ==_refl block)),
)
hang-exact (e ∷ set) block g g' u v empty same = (
  λ h. inl (sym (same u v) ∙ h),
  ⊎_elim (λ old. same u v ∙ old)
      (λ (_, at_block, alone).
        let impossible : e ∷ set ≡ [] =
          empty.1 (subst (λ x. NoPredecessor g x) (sym at_block) alone) in
        cc),
)

-- One block of the second loop, and then the others.
entry_step :
    (block : Block) (blocks : List Block) (g g' g'' : Graph)
    → ((u v : ℕ)
        → (is_edge g' u v ≡ true)
          ↔ ((is_edge g u v ≡ true) ⊎ (u ≡ null) × (block.id ≡ v) × NoPredecessor g v))
    → ((u v : ℕ)
        → (is_edge g'' u v ≡ true)
          ↔ ((is_edge g' u v ≡ true) ⊎ (u ≡ null) × IsBlock blocks v × NoPredecessor g' v))
    → (u v : ℕ)
    → (is_edge g'' u v ≡ true)
      ↔ ((is_edge g u v ≡ true) ⊎ (u ≡ null) × IsBlock (block ∷ blocks) v × NoPredecessor g v)
entry_step block blocks g g' g'' here later u v = (forth, back)
  where
    still_alone : NoPredecessor g' v → NoPredecessor g v
    still_alone alone w = ground (arith, alone w, here w v)

    forth :
        is_edge g'' u v ≡ true
        → (is_edge g u v ≡ true) ⊎ (u ≡ null) × IsBlock (block ∷ blocks) v × NoPredecessor g v
    forth h = elim ((later u v).0 h) [
      | inl p ↦ elim ((here u v).0 p) [
        | inl old ↦ inl old
        | inr (at_null, at_block, alone) ↦ inr (at_null, inl at_block, alone)
      ]
      | inr (at_null, among, alone) ↦ inr (at_null, inr among, still_alone alone)
    ]

    back :
        (is_edge g u v ≡ true) ⊎ (u ≡ null) × IsBlock (block ∷ blocks) v × NoPredecessor g v
        → is_edge g'' u v ≡ true
    back (inl old) = (later u v).1 (inl ((here u v).1 (inl old)))
    back (inr (at_null, inl at_block, alone)) =
        (later u v).1 (inl ((here u v).1 (inr (at_null, at_block, alone))))
    back (inr (at_null, inr among, alone)) = elim (Bool-cases (block.id == v)) [
      | inl same ↦
          (later u v).1 (inl ((here u v).1 (inr (at_null, eq_of_== block.id v same, alone))))
      | inr apart ↦
          (later u v).1 (inr (at_null, among, λ w. ground (arith, here w v, alone w, ==_refl v)))
    ]

-- The second loop adds an edge from the entry to each block that has no predecessor.
pub entry-Adds :
    (blocks : List Block) (g : Graph)
    → IsValid g
    → Adds
        (λ u v. (u ≡ null) × IsBlock blocks v × NoPredecessor g v)
        g
        (make_dependent_on_entry blocks g)
unfolding make_dependent_on_entry
entry-Adds [] g valid = record { keeps_valid = λ v. v; exact = λ u v. ground arith }
entry-Adds (block ∷ blocks) g valid =
    let set = (get_pred_set block.id g).0 in
    let g' = hang_on_entry set block.id (get_pred_set block.id g).1 in
    let valid' = hang-IsValid set block.id _ (get_pred_set-IsValid block.id g valid) in
    let later = entry-Adds blocks g' valid' in
    let here = λ (u v : ℕ).
      hang-exact set block.id g (get_pred_set block.id g).1 u v (empty_iff block.id g valid)
        (λ x y. is_edge-get_pred_set block.id x y g) in
    record {
      keeps_valid = λ _. later.keeps_valid valid';
      exact = entry_step block blocks g g' (make_dependent_on_entry blocks g') here later.exact;
    }

not_edge : (g : Graph) (u v : ℕ) → ¬ (is_edge g u v ≡ true) → is_edge g u v ≡ false
not_edge g u v n = elim (Bool-cases (is_edge g u v)) [ inl h ↦ absurd (n h) | inr h ↦ h ]

-- A node has a predecessor or has none.
predecessor :
    (g : Graph) (v : ℕ) → IsValid g → ((u : ℕ) × (is_edge g u v ≡ true)) ⊎ NoPredecessor g v
predecessor g v valid = elim (List-cases (at g.pred_map v)) [
  | inl e ↦ inr (λ w. rw (valid.mirror w v, e) refl)
  | inr ((w, x), rest, e) ↦ inl (w, ground (arith, valid.mirror w v, ==_refl w))
]

-- A condition that does not depend on the element stands before the quantifier, if there is one.
Any-const :
    {A : Type 0} (C : Type 0) (P : A → Type 0) (xs : List A)
    → Any (λ x. C × P x) xs ↔ (C × Any P xs)
Any-const C P [] = (λ h. absurd h, λ h. h.1)
Any-const C P (x ∷ xs) = (
  λ h.
      ⊎_elim (λ q. (q.0, inl q.1))
        (λ r. (((Any-const C P xs).0 r).0, inr ((Any-const C P xs).0 r).1)) h,
  λ (c, h). ⊎_elim (λ p. inl (c, p)) (λ r. inr ((Any-const C P xs).1 (c, r))) h,
)

-- What the graph holds at the end: its old edges, the control dependences of the function, and an
-- edge from the entry to each of its blocks that neither of these leads to.
abbrev pub Edges : PostDominatorTree → Function → Graph → ℕ → ℕ → Type 0
Edges pdt f g u v = (is_edge g u v ≡ true) ⊎ Depends pdt f u v

module _ (pdt : PostDominatorTree) (f : Function) (g : Graph) (tree : IsPostDominatorTree pdt f)
    (valid : IsValid g) where
  first_loop :
      (g' : Graph) × (for_each (visit_block pdt (length f.blocks + 1)) f.blocks g ≡ some g')
      × Adds (Depends pdt f) g g'
  unfolding visit_block
  first_loop =
      for_each-Adds
        (λ block u v. (u ≡ block.id) × Any (λ s. ControlsVia pdt block.id s v) block.successors)
        (λ block. All (Branch pdt block.id) block.successors)
        (visit_block pdt (length f.blocks + 1))
        (λ block branches h.
          let (t, runs, adds) =
            for_each-Adds (λ s u v. (u ≡ block.id) × ControlsVia pdt block.id s v)
              (Branch pdt block.id) _
              (λ s branch.
                visit_successor-Adds pdt f tree (length f.blocks + 1) block.id s (omega arith)
                  branch)
              block.successors branches h in
          (
            t,
            runs,
            Adds-map _ _ h t
                (λ u v.
                  Any-const (u ≡ block.id) (λ s. ControlsVia pdt block.id s v) block.successors)
                adds,
          ))
        f.blocks tree.branches g

  -- If the tree is the function's post-dominator tree and the given graph is valid, the pass returns
  -- a valid graph, and it has an edge from `u` to `v` exactly if the given graph had one, or `v` is control dependent on `u`,
  -- or `u` is the null block and `v` is a block of the function with no such edge into it.
  pub run_on_function-exact :
      (g' : Graph) × (run_on_function pdt f g ≡ some g')
      × IsValid g'
      × ((u v : ℕ)
          → (is_edge g' u v ≡ true) ↔ (
              Edges pdt f g u v
              ⊎ (u ≡ null) × IsBlock f.blocks v × ((w : ℕ) → ¬ Edges pdt f g w v)))
  unfolding run_on_function
  run_on_function-exact =
      let (t, runs, first) = first_loop in
      let valid' = first.keeps_valid valid in
      let second = entry-Adds f.blocks t valid' in
      (
        make_dependent_on_entry f.blocks t,
        rw runs,
        second.keeps_valid valid',
        λ u v. (
          λ h.
              ⊎_elim (λ p. inl ((first.exact u v).0 p))
                (λ (at_null, among, alone).
                  inr (at_null, among, λ w e. ground (arith, alone w, (first.exact w v).1 e)))
                ((second.exact u v).0 h),
          ⊎_elim (λ p. (second.exact u v).1 (inl ((first.exact u v).1 p)))
              (λ (at_null, among, alone).
                (second.exact u v).1 (
                  inr
                    (at_null, among, λ w. not_edge t w v (λ h. alone w ((first.exact w v).0 h))))),
        ),
      )

  -- If the tree is the function's post-dominator tree and the given graph is valid, the graph that
  -- the pass returns has an edge into every block of the function.
  pub run_on_function-connected :
      (g' : Graph)
      → run_on_function pdt f g ≡ some g'
      → (v : ℕ) → IsBlock f.blocks v
      → (u : ℕ) × (is_edge g' u v ≡ true)
  unfolding run_on_function
  run_on_function-connected g' h v among =
      let (t, runs, first) = first_loop in
      let valid' = first.keeps_valid valid in
      let second = entry-Adds f.blocks t valid' in
      let same : make_dependent_on_entry f.blocks t ≡ g' =
        some-injective _ _ (sym (rw runs refl) ∙ h) in
      rw (← same) (elim (predecessor t v valid') [
        | inl (u, e) ↦ (u, (second.exact u v).1 (inl e))
        | inr alone ↦ (null, (second.exact null v).1 (inr (refl, among, alone)))
      ])
