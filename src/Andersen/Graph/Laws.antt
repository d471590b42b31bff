-- ===== src/Andersen/Graph/Laws.antt =====
-- andersen/lib/ConstraintSolving.cpp, `ConstraintGraph`: the edges after a node was entered.
use programslicer.Common.{
  ℕ, ◌≡◌, ◌⊎◌, inl, inr, true, List, ◌==◌, if◌then◌else◌, arith, sym, ◌∙◌, ap, subst, Bool-cases,
  ==_refl, eq_of_==,
}
use programslicer.Common.Sets
use programslicer.Common.Sets.{contains-insert}
use programslicer.Common.Maps
use programslicer.Common.Maps.{lookup-set}
use programslicer.Andersen.Graph.{ConstraintGraphNode, ConstraintGraph, node_or_new}

infix 40 ◌∈◌
abbrev pub ◌∈◌ : ℕ → List ℕ → Type 0
x ∈ s = Sets.contains x s ≡ true

pub node_or_new-set :
    (a n : ℕ) (node : ConstraintGraphNode) (g : ConstraintGraph)
    → node_or_new n (Maps.set a node g) ≡ (if a == n then node else node_or_new n g)
node_or_new-set a n node g = ground (arith, lookup-set a n node g)

module _ (E : ConstraintGraphNode → List ℕ) (src : ℕ) (node : ConstraintGraphNode)
    (g : ConstraintGraph) where
  abbrev pub edges_after : ℕ → List ℕ
  edges_after n = E (node_or_new n (Maps.set src node g))

  pub edges-set : (n : ℕ) → edges_after n ≡ (if src == n then E node else E (node_or_new n g))
  edges-set n = elim (Bool-cases (src == n)) [
    | inl same ↦
        let e : node_or_new n (Maps.set src node g) ≡ node =
          ground (arith, node_or_new-set src n node g) in
        rw same (ap E e)
    | inr other ↦
        let e : node_or_new n (Maps.set src node g) ≡ node_or_new n g =
          ground (arith, node_or_new-set src n node g) in
        rw other (ap E e)
  ]

  pub edges_same : E node ≡ E (node_or_new src g) → (n : ℕ) → edges_after n ≡ E (node_or_new n g)
  edges_same same n = elim (Bool-cases (src == n)) [
    | inl at_n ↦
        let e : edges_after n ≡ E node = ground (arith, edges-set n) in
        e ∙ same ∙ ap (λ k. E (node_or_new k g)) (eq_of_== src n at_n)
    | inr other ↦ ground (arith, edges-set n)
  ]

  module _ (dst : ℕ) (insert : E node ≡ Sets.insert dst (E (node_or_new src g))) where
    pub edges_from :
        (n d : ℕ) → d ∈ edges_after n → ((src ≡ n) × (dst ≡ d)) ⊎ (d ∈ E (node_or_new n g))
    edges_from n d h = elim (Bool-cases (src == n)) [
      | inl at_n ↦
          let e : edges_after n ≡ Sets.insert dst (E (node_or_new src g)) =
            ground (arith, edges-set n, insert) in
          let inside = subst (λ ds. d ∈ ds) e h in
          elim (Bool-cases (dst == d)) [
            | inl new ↦ inl (eq_of_== src n at_n, eq_of_== dst d new)
            | inr old ↦
                let before : d ∈ E (node_or_new src g) =
                  ground (arith, contains-insert dst d (E (node_or_new src g))) in
                inr (subst (λ k. d ∈ E (node_or_new k g)) (eq_of_== src n at_n) before)
          ]
      | inr other ↦
          let e : edges_after n ≡ E (node_or_new n g) = ground (arith, edges-set n) in
          inr (subst (λ ds. d ∈ ds) e h)
    ]

    pub edges_grow : (n d : ℕ) → d ∈ E (node_or_new n g) → d ∈ edges_after n
    edges_grow n d h = elim (Bool-cases (src == n)) [
      | inl at_n ↦
          let before = subst (λ k. d ∈ E (node_or_new k g)) (sym (eq_of_== src n at_n)) h in
          let e : Sets.insert dst (E (node_or_new src g)) ≡ edges_after n =
            ground (arith, edges-set n, insert) in
          subst (λ ds. d ∈ ds) e (ground (arith, contains-insert dst d (E (node_or_new src g))))
      | inr other ↦
          let e : E (node_or_new n g) ≡ edges_after n = ground (arith, edges-set n) in
          subst (λ ds. d ∈ ds) e h
    ]

    pub edges_added : dst ∈ edges_after src
    edges_added =
        let e : Sets.insert dst (E (node_or_new src g)) ≡ edges_after src =
          ground (arith, edges-set src, insert, ==_refl src) in
        subst (λ ds. dst ∈ ds) e
          (ground (arith, contains-insert dst dst (E (node_or_new src g)), ==_refl dst))
