-- ===== src/NodeFactory/Merge.antt =====
-- andersen/lib/NodeFactory.cpp, `mergeNode` and `getMergeTarget`: the merge targets as a forest.
use programslicer.Common.{
  ℕ, zero, suc, ◌≡◌, refl, sym, subst, inl, inr, some, List, [], ◌∷◌, ◌==◌, if◌then◌else◌, arith,
  Bool-cases, eq_of_==,
}
use programslicer.NodeFactory.{AndersNode, target, set_target}

-- The merge targets lead from `n` to `r`, which is its own.
pub data Root (nodes : List AndersNode) : ℕ → ℕ → Type 0 where
  here : {r : ℕ} → target nodes r ≡ some r → Root nodes r r
  up : {n m r : ℕ} → target nodes n ≡ some m → Root nodes m r → Root nodes n r

-- Every node has a root.
abbrev pub IsForest : List AndersNode → Type 0
IsForest nodes = (n m : ℕ) → target nodes n ≡ some m → (r : ℕ) × Root nodes n r

abbrev pub depth : {nodes : List AndersNode} {n r : ℕ} → Root nodes n r → ℕ
depth (here e) = 0
depth (up e p) = suc (depth p)

pub target-set_target :
    (i v w j : ℕ) (nodes : List AndersNode)
    → target nodes i ≡ some w
    → target (set_target i v nodes) j ≡ (if i == j then some v else target nodes j)
unfolding set_target
target-set_target i v w j [] h = ground arith
target-set_target zero v w zero (node ∷ nodes) h = ground arith
target-set_target zero v w (suc j) (node ∷ nodes) h = ground arith
target-set_target (suc i) v w zero (node ∷ nodes) h = ground arith
target-set_target (suc i) v w (suc j) (node ∷ nodes) h =
    ground (arith, target-set_target i v w j nodes h)

pub Root-target : {nodes : List AndersNode} {n r : ℕ} → Root nodes n r → target nodes r ≡ some r
Root-target (here e) = e
Root-target (up e p) = Root-target p

pub Root-self :
    (nodes : List AndersNode) (r : ℕ) {n z : ℕ}
    → target nodes r ≡ some r
    → Root nodes n z
    → n ≡ r
    → z ≡ r
Root-self nodes r at_r (here e) same = same
Root-self nodes r at_r (up {n} {m} {r = z} e p) same = Root-self nodes r at_r p (ground arith)

-- A node has one root.
pub Root-unique : (nodes : List AndersNode) {n r z : ℕ} → Root nodes n r → Root nodes n z → r ≡ z
Root-unique nodes (here {r} e) q = sym (Root-self nodes r e q refl)
Root-unique nodes (up {n} {m} e p) (here e') = Root-self nodes n e' p (ground arith)
Root-unique nodes (up {n} {m} {r} e p) (up {n = n'} {m = m'} {r = z} e' q) =
    let same : m' ≡ m = ground arith in Root-unique nodes p (subst (λ k. Root nodes k z) same q)

module _ (nodes : List AndersNode) (i r : ℕ) (p : Root nodes i r) where
  -- The nodes after the merge target of `i` was set to its root.
  abbrev pub shorter : List AndersNode
  shorter = set_target i r nodes

  pub target-shorter :
      (w : ℕ)
      → target nodes i ≡ some w
      → (j : ℕ) → target shorter j ≡ (if i == j then some r else target nodes j)
  target-shorter w at_i j = target-set_target i r w j nodes at_i

  pub in_range : {n z : ℕ} → Root nodes n z → (w : ℕ) × (target nodes n ≡ some w)
  in_range (here {r = z} e) = (z, e)
  in_range (up {m} e q) = (m, e)

  pub root_stays : target shorter r ≡ some r
  root_stays =
      let (w, at_i) = in_range p in
      let at_r = Root-target p in ground (arith, target-shorter w at_i r)

  pub Root-shorter : {x y : ℕ} → Root nodes x y → Root shorter x y
  Root-shorter (here {r = y} e) =
      let (w, at_i) = in_range p in
      elim (Bool-cases (i == y)) [
        | inl same ↦
            let whole : r ≡ y = Root-self nodes y e p (eq_of_== i y same) in
            here (ground (arith, target-shorter w at_i y))
        | inr other ↦ here (ground (arith, target-shorter w at_i y))
      ]
  Root-shorter (up {n = x} {m} {r = y} e q) =
      let (w, at_i) = in_range p in
      elim (Bool-cases (i == x)) [
        | inl same ↦
            let at_x : target shorter x ≡ some r = ground (arith, target-shorter w at_i x) in
            let p' : Root nodes x r = subst (λ k. Root nodes k r) (eq_of_== i x same) p in
            let whole : r ≡ y = Root-unique nodes p' (up e q) in
            subst (λ k. Root shorter x k) whole (up at_x (here root_stays))
        | inr other ↦
            let at_x : target shorter x ≡ some m = ground (arith, target-shorter w at_i x) in
            up at_x (Root-shorter q)
      ]

  pub shorter-Root : {x y : ℕ} → Root shorter x y → Root nodes x y
  shorter-Root (here {r = y} e) =
      let (w, at_i) = in_range p in
      elim (Bool-cases (i == y)) [
        | inl same ↦
            let whole : r ≡ y = ground (arith, target-shorter w at_i y) in
            subst (λ k. Root nodes k k) whole (here (Root-target p))
        | inr other ↦ here (ground (arith, target-shorter w at_i y))
      ]
  shorter-Root (up {n = x} {m} {r = y} e q) =
      let (w, at_i) = in_range p in
      let rest = shorter-Root q in
      elim (Bool-cases (i == x)) [
        | inl same ↦
            let next : m ≡ r = ground (arith, target-shorter w at_i x) in
            let whole : y ≡ r = Root-self nodes r (Root-target p) rest next in
            let p' : Root nodes x r = subst (λ k. Root nodes k r) (eq_of_== i x same) p in
            subst (λ k. Root nodes x k) (sym whole) p'
        | inr other ↦ up (ground (arith, target-shorter w at_i x)) rest
      ]
