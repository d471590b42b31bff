-- ===== src/Cdg/Climb.antt =====
-- CDG.cpp, the `while` loop of `runOnFunction`: it adds the edges to the nodes between a successor
-- and the immediate post-dominator.
use programslicer.Common.{
  ℕ, zero, suc, ◌≡◌, refl, ◌↔◌, ◌⊎◌, ◌≤◌, inl, inr, false, Option, none, some, ap, List, [], ◌∷◌,
  All, Any, length, arith, ◌∙◌, subst, ==_refl, ◌==◌, for_each,
}
use mathlib.Core.Logic.{⊎_elim}
use programslicer.Ir.{Function}
use programslicer.Cdg.{PostDominatorTree, Graph, climb, visit_successor}
use programslicer.Cdg.Dependence.{
  Ancestor, self, up, ControlsVia, controls, Branch, IsPostDominatorTree, Adds,
}
use programslicer.DirectedGraph.{insert}
use programslicer.DirectedGraph.Laws.{is_edge-insert, insert-IsValid}

-- The same edges, described otherwise.
pub Adds-map :
    (Q R : ℕ → ℕ → Type 0) (g g' : Graph) → ((u v : ℕ) → Q u v ↔ R u v) → Adds Q g g' → Adds R g g'
Adds-map Q R g g' same a = record {
  keeps_valid = a.keeps_valid;
  exact = λ u v. ground (arith, a.exact u v, same u v);
}

-- A loop adds what its rounds add.
pub for_each-Adds {ℓ} :
    {A : Type ℓ} (Q : A → ℕ → ℕ → Type 0) (R : A → Type 0) (body : A → Graph → Option Graph)
    → ((x : A) → R x → (g : Graph) → (g' : Graph) × (body x g ≡ some g') × Adds (Q x) g g')
    → (xs : List A) → All R xs
    → (g : Graph)
    → (g' : Graph) × (for_each body xs g ≡ some g') × Adds (λ u v. Any (λ x. Q x u v) xs) g g'
unfolding for_each
for_each-Adds Q R body step [] r g =
    (g, refl, record { keeps_valid = λ v. v; exact = λ u v. ground arith })
for_each-Adds Q R body step (x ∷ xs) r g =
    let (t, e, a) = step x r.0 g in
    let (g', e', b) = for_each-Adds Q R body step xs r.1 t in
    (
      g',
      rw e e',
      record {
        keeps_valid = λ v. b.keeps_valid (a.keeps_valid v);
        exact = λ u v. ground (arith, a.exact u v, b.exact u v);
      },
    )

module _ (pdt : PostDominatorTree) (f : Function) (tree : IsPostDominatorTree pdt f) where
  open tree use {level, level_idom, level_bound, branches}

  Ancestor-level : {z y : ℕ} → Ancestor pdt z y → level z ≤ level y
  Ancestor-level self = omega arith
  Ancestor-level (up {y} {parent} e a) = omega (arith, Ancestor-level a, level_idom y parent e)

  module _ (b z : ℕ) where
    -- The targets of the climb from `y`: at or above `y`, and below `z`.
    abbrev Between : ℕ → ℕ → ℕ → Type 0
    Between y u v =
        (u ≡ b) × ((m : ℕ) × Ancestor pdt m y × (¬ Ancestor pdt m z) × (v ≡ pdt.get_block m))

    climb_stops : (fuel n : ℕ) (g : Graph) → climb pdt fuel (some z) b n (some z) g ≡ some g
    unfolding climb
    climb_stops zero n g = rw (==_refl z)
    climb_stops (suc fuel) n g = rw (==_refl z)

    Between-none : (u v : ℕ) → ¬ Between z u v
    Between-none u v (e, (m, a, not_above, e')) = not_above a

    Between-step :
        (y parent u v : ℕ)
        → pdt.get_idom y ≡ some parent
        → Ancestor pdt z parent
        → ((u ≡ b) × (v ≡ pdt.get_block y) ⊎ Between parent u v) ↔ Between y u v
    Between-step y parent u v e a = (forth, back)
      where
        forth : (u ≡ b) × (v ≡ pdt.get_block y) ⊎ Between parent u v → Between y u v
        forth (inl (eu, ev)) = (
          eu,
          (
            y,
            self,
            λ above.
                absurd
                  (omega (arith, Ancestor-level above, Ancestor-level a, level_idom y parent e)),
            ev,
          ),
        )
        forth (inr (eu, (m, p, n, ev))) = (eu, (m, up e p, n, ev))

        from : {m w : ℕ} → Ancestor pdt m w → w ≡ y → (m ≡ y) ⊎ Ancestor pdt m parent
        from self same = inl same
        from {m} (up {y = w} {parent = q} e' p) same =
            let q_parent : q ≡ parent = cc in inr (subst (λ t. Ancestor pdt m t) q_parent p)

        back : Between y u v → (u ≡ b) × (v ≡ pdt.get_block y) ⊎ Between parent u v
        back (eu, (m, p, n, ev)) = elim (from p refl) [
          | inl same ↦ inl (eu, ev ∙ ap pdt.get_block same)
          | inr q ↦ inr (eu, (m, q, n, ev))
        ]

    climb_step :
        (fuel y parent : ℕ) (g : Graph)
        → pdt.get_idom y ≡ some parent
        → Ancestor pdt z parent
        → climb pdt (suc fuel) (some z) b (pdt.get_block y) (some y) g
          ≡ climb pdt fuel
              (some z)
              b
              (pdt.get_block parent)
              (some parent)
              (insert b (pdt.get_block y) none g)
    unfolding climb
    climb_step fuel y parent g e a =
        let apart : (z == y) ≡ false = ground (arith, Ancestor-level a, level_idom y parent e) in
        rw (apart, e)

    insert-Adds : (n : ℕ) (g : Graph) → Adds (λ u v. (u ≡ b) × (v ≡ n)) g (insert b n none g)
    insert-Adds n g = record {
      keeps_valid = λ v. insert-IsValid b n none g v;
      exact = λ u v. ground (arith, is_edge-insert b n u v none g);
    }

    pub climb-Adds :
        (fuel y : ℕ) (g : Graph)
        → Ancestor pdt z y
        → level y ≤ fuel
        → (g' : Graph) × (climb pdt fuel (some z) b (pdt.get_block y) (some y) g ≡ some g')
          × Adds (Between y) g g'
    climb-Adds fuel y g self h = (
      g,
      climb_stops fuel (pdt.get_block z) g,
      record {
        keeps_valid = λ v. v;
        exact = λ u v. (inl, ⊎_elim (λ p. p) (λ q. absurd (Between-none u v q)));
      },
    )
    climb-Adds zero y g (up {parent} e a) h = absurd (omega (arith, level_idom y parent e))
    climb-Adds (suc fuel) y g (up {parent} e a) h =
        let new = insert-Adds (pdt.get_block y) g in
        let (g', runs, rest) =
          climb-Adds fuel parent (insert b (pdt.get_block y) none g) a
            (omega (arith, level_idom y parent e)) in
        (
          g',
          climb_step fuel y parent g e a ∙ runs,
          record {
            keeps_valid = λ v. rest.keeps_valid (new.keeps_valid v);
            exact = λ u v.
                let split = Between-step y parent u v e a in
                (
                  λ p.
                      ⊎_elim
                        (λ q. ⊎_elim inl (λ here. inr (split.0 (inl here))) ((new.exact u v).0 q))
                        (λ later. inr (split.0 (inr later))) ((rest.exact u v).0 p),
                  ⊎_elim (λ old. (rest.exact u v).1 (inl ((new.exact u v).1 (inl old))))
                      (λ q.
                        (rest.exact u v).1
                          (⊎_elim (λ here. inl ((new.exact u v).1 (inr here))) inr (split.1 q))),
                );
          },
        )

  -- One successor: the climb ends, and it adds the dependences through that successor.
  pub visit_successor-Adds :
      (fuel b s : ℕ)
      → length f.blocks ≤ fuel
      → Branch pdt b s
      → (g : Graph)
      → (g' : Graph) × (visit_successor pdt fuel (pdt.get_node b) b s g ≡ some g')
        × Adds (λ u v. (u ≡ b) × ControlsVia pdt b s v) g g'
  unfolding visit_successor
  visit_successor-Adds fuel b s enough (x, z, y, at_b, idom, at_s, above, block) g =
      let (g', runs, adds) = climb-Adds b z fuel y g above (omega (arith, level_bound y)) in
      (
        g',
        rw (at_b, idom, at_s, ← block) runs,
        Adds-map (Between b z y) (λ u v. (u ≡ b) × ControlsVia pdt b s v) g g'
            (λ u v. (between→controls u v, controls→between u v)) adds,
      )
    where
      between→controls : (u v : ℕ) → Between b z y u v → (u ≡ b) × ControlsVia pdt b s v
      between→controls u v (eu, (m, p, n, ev)) = (
        eu,
        controls x y m at_b at_s p
            (λ (parent, e, q). n (subst (λ t. Ancestor pdt m t) (the_parent parent e) q)) ev,
      )
        where
          the_parent : (parent : ℕ) → pdt.get_idom x ≡ some parent → parent ≡ z
          the_parent parent e = cc

      controls→between : (u v : ℕ) → (u ≡ b) × ControlsVia pdt b s v → Between b z y u v
      controls→between u v (eu, controls x' y' m e₁ e₂ p n ev) =
          let x_eq : x' ≡ x = cc in
          let y_eq : y' ≡ y = cc in
          (
            eu,
            (
              m,
              subst (λ t. Ancestor pdt m t) y_eq p,
              λ q. n (z, ap pdt.get_idom x_eq ∙ idom, q),
              ev,
            ),
          )
