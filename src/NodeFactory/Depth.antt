-- ===== src/NodeFactory/Depth.antt =====
-- andersen/lib/NodeFactory.cpp, `getMergeTarget`: no path to a root gets longer.
use programslicer.Common.{
  ℕ, zero, suc, ◌≤◌, ◌<◌, ◌≡◌, refl, subst, inl, inr, some, List, [], ◌∷◌, ◌==◌, arith, Bool-cases,
  eq_of_==, All, length, ◌∙◌,
}
use programslicer.NodeFactory.{
  AndersNode, AndersNodeFactory, target, set_target, compress, get_merge_target,
}
use programslicer.NodeFactory.Merge.{
  Root, here, up, depth, Root-self, Root-unique, Root-target, shorter, target-shorter, in_range,
  root_stays,
}
use programslicer.NodeFactory.Target.{LeadsTo, LeadsTo-shorter, get_merge_target-path, target-lt}

-- At most `k` steps lead from `n` to its root `r`.
abbrev pub Within : List AndersNode → ℕ → ℕ → ℕ → Type 0
Within nodes k n r = (p : Root nodes n r) × (depth p ≤ k)

Within-shorter :
    (nodes : List AndersNode) (i r k : ℕ) (p : Root nodes i r) {x y : ℕ} (q : Root nodes x y)
    → depth q ≤ k
    → Within (shorter nodes i r p) k x y
Within-shorter nodes i r k p (here {r = y} e) h =
    let (w, at_i) = in_range nodes i r p p in
    elim (Bool-cases (i == y)) [
      | inl same ↦
          let whole : r ≡ y = Root-self nodes y e p (eq_of_== i y same) in
          (here (ground (arith, target-shorter nodes i r p w at_i y)), omega arith)
      | inr other ↦ (here (ground (arith, target-shorter nodes i r p w at_i y)), omega arith)
    ]
Within-shorter nodes i r zero p (up {n = x} {m} {r = y} e q) h = absurd (omega (arith, h))
Within-shorter nodes i r (suc k) p (up {n = x} {m} {r = y} e q) h =
    let (w, at_i) = in_range nodes i r p p in
    let (rest, less) = Within-shorter nodes i r k p q (omega (arith, h)) in
    elim (Bool-cases (i == x)) [
      | inl same ↦
          let at_x : target (shorter nodes i r p) x ≡ some r =
            ground (arith, target-shorter nodes i r p w at_i x) in
          let p' : Root nodes x r = subst (λ j. Root nodes j r) (eq_of_== i x same) p in
          let whole : r ≡ y = Root-unique nodes p' (up e q) in
          subst (λ j. Within (shorter nodes i r p) (suc k) x j) whole
            (up at_x (here (root_stays nodes i r p)), omega arith)
      | inr other ↦
          let at_x : target (shorter nodes i r p) x ≡ some m =
            ground (arith, target-shorter nodes i r p w at_i x) in
          (up at_x rest, omega (arith, less))
    ]

Within-compress :
    (path : List ℕ) (r k : ℕ) (nodes : List AndersNode)
    → All (LeadsTo nodes r) path
    → (x y : ℕ) → Within nodes k x y
    → Within (compress path r nodes) k x y
unfolding compress
Within-compress [] r k nodes all x y q = q
Within-compress (i ∷ path) r k nodes (p, all) x y (q, h) =
    Within-compress path r k (set_target i r nodes) (LeadsTo-shorter nodes i r p path all) x y
      (Within-shorter nodes i r k p q h)

length-set_target :
    (i v : ℕ) (nodes : List AndersNode) → length (set_target i v nodes) ≡ length nodes
unfolding set_target
length-set_target i v [] = refl
length-set_target zero v (node ∷ nodes) = refl
length-set_target (suc i) v (node ∷ nodes) = ground (arith, length-set_target i v nodes)

length-compress :
    (path : List ℕ) (r : ℕ) (nodes : List AndersNode)
    → length (compress path r nodes) ≡ length nodes
unfolding compress
length-compress [] r nodes = refl
length-compress (i ∷ path) r nodes =
    length-compress path r (set_target i r nodes) ∙ length-set_target i r nodes

-- Every node of the factory has its root `rep n`, in at most `k` steps.
pub record HasRoots (k size : ℕ) (rep : ℕ → ℕ) (f : AndersNodeFactory) : Type 0 where
  pub sized : length f.nodes ≡ size
  pub roots : (n : ℕ) → n < size → Within f.nodes k n (rep n)

-- `getMergeTarget` returns the root of a node and leaves every node its root, as near as before;
-- it changes nothing but the nodes.
pub get_merge_target-HasRoots :
    (k size : ℕ) (rep : ℕ → ℕ) (f : AndersNodeFactory)
    → HasRoots k size rep f
    → (n : ℕ) → n < size
    → (nodes : List AndersNode) × (get_merge_target (suc k) n f
        ≡ some (rep n, record f { nodes = nodes }))
      × HasRoots k size rep (record f { nodes = nodes })
get_merge_target-HasRoots k size rep f rooted n h =
    let (p, near) = rooted.roots n h in
    let (path, all, runs) = get_merge_target-path (suc k) n (rep n) f p (omega (arith, near)) in
    (
      compress path (rep n) f.nodes,
      runs,
      record {
        sized = length-compress path (rep n) f.nodes ∙ rooted.sized;
        roots = λ x j. Within-compress path (rep n) k f.nodes all x (rep x) (rooted.roots x j);
      },
    )

-- A root is its own root.
pub root_of_root :
    (k size : ℕ) (rep : ℕ → ℕ) (f : AndersNodeFactory)
    → HasRoots k size rep f
    → (n : ℕ) → n < size
    → (rep n < size) × (rep (rep n) ≡ rep n)
root_of_root k size rep f rooted n h =
    let (p, _) = rooted.roots n h in
    let inside : rep n < size =
      subst (λ m. rep n < m) rooted.sized (target-lt (rep n) (rep n) f.nodes (Root-target p)) in
    let (q, _) = rooted.roots (rep n) inside in
    (inside, Root-self f.nodes (rep n) (Root-target p) q refl)
