-- ===== src/Andersen/Alias/Verdict.antt =====
-- andersen/lib/AndersenAA.cpp, `andersenAlias`: what the answers mean for the points-to sets.
use programslicer.Common.{
  ℕ, ◌≡◌, ◌⊎◌, refl, inl, inr, true, false, ◌&&◌, ◌||◌, none, some, [], ◌∷◌, ◌==◌, arith,
  Bool-cases, Option-cases, eq_of_==, ==_refl, sym, ◌∙◌, subst,
}
use programslicer.Common.Maps
use programslicer.Common.Maps.{Map}
use programslicer.NodeFactory.{null_object_index}
use programslicer.Andersen.PtsSet.{AndersPtsSet, has, get_size}
use programslicer.Andersen.Alias.{
  AliasResult, no_alias, may_alias, must_alias, is_set_containing_only, share, compare, verdict,
  first,
}

-- The sets share no object but the null object.
abbrev pub Disjoint : AndersPtsSet → AndersPtsSet → Type 0
Disjoint s₁ s₂ = (o : ℕ) → has o s₁ ≡ true → has o s₂ ≡ true → o ≡ null_object_index

-- The sets share an object that is not the null object.
abbrev pub Shared : AndersPtsSet → AndersPtsSet → Type 0
Shared s₁ s₂ = (o : ℕ) × (has o s₁ ≡ true) × (has o s₂ ≡ true) × ((o == null_object_index) ≡ false)

-- Both sets hold just one and the same object, which is not the null object.
abbrev pub OneObject : AndersPtsSet → AndersPtsSet → Type 0
OneObject s₁ s₂ = (o : ℕ) × (s₁ ≡ o ∷ []) × (s₂ ≡ o ∷ []) × ((o == null_object_index) ≡ false)

-- When which answer is right for two merge targets; the cases exclude each other.
pub data Means (n₁ n₂ : ℕ) (graph : Map AndersPtsSet) : AliasResult → Type 0 where
  apart :
      {s₁ s₂ : AndersPtsSet}
      → (n₁ == n₂) ≡ false
      → Maps.lookup n₁ graph ≡ some s₁
      → Maps.lookup n₂ graph ≡ some s₂
      → Disjoint s₁ s₂
      → Means n₁ n₂ graph no_alias
  merged : n₁ ≡ n₂ → Means n₁ n₂ graph must_alias
  same_object :
      {s₁ s₂ : AndersPtsSet}
      → (n₁ == n₂) ≡ false
      → Maps.lookup n₁ graph ≡ some s₁
      → Maps.lookup n₂ graph ≡ some s₂
      → OneObject s₁ s₂
      → Means n₁ n₂ graph must_alias
  unknown :
      (n₁ == n₂) ≡ false
      → (Maps.lookup n₁ graph ≡ none) ⊎ (Maps.lookup n₂ graph ≡ none)
      → Means n₁ n₂ graph may_alias
  shared :
      {s₁ s₂ : AndersPtsSet}
      → (n₁ == n₂) ≡ false
      → Maps.lookup n₁ graph ≡ some s₁
      → Maps.lookup n₂ graph ≡ some s₂
      → Shared s₁ s₂
      → ¬ OneObject s₁ s₂
      → Means n₁ n₂ graph may_alias

share-cases :
    (s₁ s₂ : AndersPtsSet)
    → ((share s₁ s₂ ≡ no_alias) × Disjoint s₁ s₂) ⊎ (share s₁ s₂ ≡ may_alias) × Shared s₁ s₂
unfolding share
share-cases [] s₂ = inl (refl, λ o h k. absurd (ground arith))
share-cases (idx ∷ s₁) s₂ = elim (Bool-cases (idx == null_object_index)) [
  | inl is_null ↦ elim (share-cases s₁ s₂) [
    | inl (e, apart_s) ↦ inl (
      ground arith,
      λ o h k. elim (Bool-cases (idx == o)) [
        | inl same ↦ sym (eq_of_== idx o same) ∙ eq_of_== idx null_object_index is_null
        | inr other ↦ apart_s o (ground arith) k
      ],
    )
    | inr (e, (o, h, k, no_null)) ↦ inr (ground arith, (o, ground arith, k, no_null))
  ]
  | inr no_null ↦ elim (Bool-cases (has idx s₂)) [
    | inl common ↦ inr (ground arith, (idx, ground (arith, ==_refl idx), common, no_null))
    | inr missing ↦ elim (share-cases s₁ s₂) [
      | inl (e, apart_s) ↦ inl (
        ground arith,
        λ o h k. elim (Bool-cases (idx == o)) [
          | inl same ↦
              let at_o = eq_of_== idx o same in
              let both : has idx s₂ ≡ true = rw at_o k in absurd (ground arith)
          | inr other ↦ apart_s o (ground arith) k
        ],
      )
      | inr (e, (o, h, k, o_no_null)) ↦ inr (ground arith, (o, ground arith, k, o_no_null))
    ]
  ]
]

one_element : (s : AndersPtsSet) (i : ℕ) → is_set_containing_only s i ≡ true → s ≡ i ∷ []
one_element [] i h = ground arith
one_element (x ∷ []) i h = rw (eq_of_== x i (ground arith)) refl
one_element (x ∷ y ∷ s) i h = ground arith

only_null-Disjoint :
    (s₁ s₂ : AndersPtsSet)
    → (is_set_containing_only s₁ null_object_index || is_set_containing_only s₂ null_object_index)
      ≡ true
    → Disjoint s₁ s₂
only_null-Disjoint s₁ s₂ c o h k = elim (Bool-cases (is_set_containing_only s₁ null_object_index)) [
  | inl left ↦
      let inside : has o (null_object_index ∷ []) ≡ true =
        subst (λ s. has o s ≡ true) (one_element s₁ null_object_index left) h in
      sym (eq_of_== null_object_index o (ground arith))
  | inr not_left ↦
      let inside : has o (null_object_index ∷ []) ≡ true =
        subst (λ s. has o s ≡ true) (one_element s₂ null_object_index (ground arith)) k in
      sym (eq_of_== null_object_index o (ground arith))
]

-- The answer for two known sets.
compare-cases :
    (s₁ s₂ : AndersPtsSet)
    → ((compare s₁ s₂ ≡ no_alias) × Disjoint s₁ s₂)
      ⊎ (((compare s₁ s₂ ≡ must_alias) × OneObject s₁ s₂)
          ⊎ (compare s₁ s₂ ≡ may_alias) × Shared s₁ s₂ × (¬ OneObject s₁ s₂))
unfolding compare
compare-cases s₁ s₂ =
    let only_null =
      is_set_containing_only s₁ null_object_index || is_set_containing_only s₂ null_object_index in
    let alike = get_size s₁ == 1 && (get_size s₂ == 1 && first s₁ == first s₂) in
    elim (Bool-cases only_null) [
      | inl yes_null ↦ inl (rw yes_null refl, only_null-Disjoint s₁ s₂ yes_null)
      | inr no_null ↦ elim (Bool-cases alike) [
        | inl yes_alike ↦
            let same = eq_of_== (first s₁) (first s₂) (ground arith) in
            inr (
              inl (
                rw (no_null, yes_alike) refl,
                (
                  first s₁,
                  one_element s₁ (first s₁) (ground (arith, ==_refl (first s₁))),
                  one_element s₂ (first s₁) (rw same (ground (arith, ==_refl (first s₂)))),
                  ground arith,
                ),
              ))
        | inr not_alike ↦
            let not_one : ¬ OneObject s₁ s₂ =
              λ (o, e₁, e₂, _). absurd (ground (arith, ==_refl o)) in
            elim (share-cases s₁ s₂) [
              | inl (e, d) ↦ inl (rw (no_null, not_alike) e, d)
              | inr (e, sh) ↦ inr (inr (rw (no_null, not_alike) e, sh, not_one))
            ]
      ]
    ]

pub verdict-Means : (n₁ n₂ : ℕ) (graph : Map AndersPtsSet) → Means n₁ n₂ graph (verdict n₁ n₂ graph)
unfolding verdict
verdict-Means n₁ n₂ graph = elim (Bool-cases (n₁ == n₂)) [
  | inl same ↦ rw same (merged (eq_of_== n₁ n₂ same))
  | inr differ ↦ elim (Option-cases (Maps.lookup n₁ graph)) [
    | inl none₁ ↦ rw (differ, none₁) (unknown differ (inl none₁))
    | inr (s₁, at₁) ↦ elim (Option-cases (Maps.lookup n₂ graph)) [
      | inl none₂ ↦ rw (differ, at₁, none₂) (unknown differ (inr none₂))
      | inr (s₂, at₂) ↦ elim (compare-cases s₁ s₂) [
        | inl (e, d) ↦ rw (differ, at₁, at₂, e) (apart differ at₁ at₂ d)
        | inr (inl (e, one)) ↦ rw (differ, at₁, at₂, e) (same_object differ at₁ at₂ one)
        | inr (inr (e, sh, not_one)) ↦ rw (differ, at₁, at₂, e) (shared differ at₁ at₂ sh not_one)
      ]
    ]
  ]
]
