-- ===== src/NodeFactory/Target.antt =====
-- andersen/lib/NodeFactory.cpp, `mergeNode` and `getMergeTarget`: what they return and keep.
use programslicer.Common.{
  ℕ, zero, suc, ◌<◌, ◌≡◌, refl, sym, subst, ◌↔◌, inl, inr, false, some, List, [], ◌∷◌, ◌++◌, ◌==◌,
  if◌then◌else◌, arith, Bool-cases, eq_of_==, ==_refl, All, length,
}
use programslicer.NodeFactory.{
  AndersNode, AndersNodeFactory, target, set_target, merge_node, follow, compress, get_merge_target,
  follow_const, get_merge_target_const,
}
use programslicer.NodeFactory.Merge.{
  Root, here, up, depth, IsForest, target-set_target, Root-self, Root-shorter, shorter-Root,
  shorter,
}

abbrev pub LeadsTo : List AndersNode → ℕ → ℕ → Type 0
LeadsTo nodes r i = Root nodes i r

pub LeadsTo-shorter :
    (nodes : List AndersNode) (i r : ℕ) (p : Root nodes i r) (path : List ℕ)
    → All (LeadsTo nodes r) path
    → All (LeadsTo (shorter nodes i r p) r) path
LeadsTo-shorter nodes i r p [] all = tt
LeadsTo-shorter nodes i r p (j ∷ path) (q, all) =
    (Root-shorter nodes i r p q, LeadsTo-shorter nodes i r p path all)

compress-Root :
    (path : List ℕ) (r : ℕ) (nodes : List AndersNode)
    → All (LeadsTo nodes r) path
    → (x y : ℕ) → Root nodes x y ↔ Root (compress path r nodes) x y
unfolding compress
compress-Root [] r nodes all x y = (λ q. q, λ q. q)
compress-Root (i ∷ path) r nodes (p, all) x y =
    let rest =
      compress-Root path r (set_target i r nodes) (LeadsTo-shorter nodes i r p path all) x y in
    (λ q. rest.0 (Root-shorter nodes i r p q), λ q. shorter-Root nodes i r p (rest.1 q))

LeadsTo-append :
    (nodes : List AndersNode) (r i : ℕ) (path : List ℕ)
    → All (LeadsTo nodes r) path
    → Root nodes i r
    → All (LeadsTo nodes r) (path ++ i ∷ [])
LeadsTo-append nodes r i [] all p = (p, tt)
LeadsTo-append nodes r i (j ∷ path) (q, all) p = (q, LeadsTo-append nodes r i path all p)

follow-Root :
    (rounds : ℕ) (nodes : List AndersNode) (path : List ℕ) {n r : ℕ} (p : Root nodes n r)
    → depth p < rounds
    → All (LeadsTo nodes r) path
    → (path' : List ℕ) × (follow rounds nodes path n ≡ some (path', r))
      × All (LeadsTo nodes r) path'
unfolding follow
follow-Root zero nodes path p h all = absurd (omega (arith, h))
follow-Root (suc rounds) nodes path (here {r} e) h all = (path, ground (arith, ==_refl r), all)
follow-Root (suc rounds) nodes path {n} (up {m} {r} e q) h all =
    let (path', runs, all') =
      follow-Root rounds nodes (path ++ n ∷ []) q (omega (arith, h))
        (LeadsTo-append nodes r n path all (up e q)) in
    elim (Bool-cases (n == m)) [
      | inl same ↦
          let loop : target nodes n ≡ some n = ground (arith, eq_of_== n m) in
          let whole : r ≡ n = Root-self nodes n loop (up e q) refl in (path, ground arith, all)
      | inr other ↦ (path', ground arith, all')
    ]

follow_const-Root :
    (rounds : ℕ) (nodes : List AndersNode) {n r : ℕ} (p : Root nodes n r)
    → depth p < rounds
    → follow_const rounds nodes n ≡ some r
unfolding follow_const
follow_const-Root zero nodes p h = absurd (omega (arith, h))
follow_const-Root (suc rounds) nodes (here {r} e) h = ground (arith, ==_refl r)
follow_const-Root (suc rounds) nodes {n} (up {m} {r} e q) h =
    let runs = follow_const-Root rounds nodes q (omega (arith, h)) in
    elim (Bool-cases (n == m)) [
      | inl same ↦
          let loop : target nodes n ≡ some n = ground (arith, eq_of_== n m) in
          let whole : r ≡ n = Root-self nodes n loop (up e q) refl in ground arith
      | inr other ↦ ground arith
    ]

-- What `getMergeTarget` returns: the root, and the nodes with a path to it compressed.
pub get_merge_target-path :
    (rounds n r : ℕ) (f : AndersNodeFactory) (p : Root f.nodes n r)
    → depth p < rounds
    → (path : List ℕ) × All (LeadsTo f.nodes r) path
      × (get_merge_target rounds n f ≡ some (r, record f { nodes = compress path r f.nodes }))
unfolding get_merge_target compress
get_merge_target-path rounds n r f (here e) h = ([], tt, ground (arith, ==_refl n))
get_merge_target-path rounds n r f (up {m} e q) h =
    let (path, runs, all) = follow-Root rounds f.nodes (n ∷ []) q (omega (arith, h)) (up e q, tt) in
    elim (Bool-cases (m == n)) [
      | inl same ↦
          let loop : target f.nodes n ≡ some n = ground (arith, eq_of_== m n) in
          let whole : r ≡ n = Root-self f.nodes n loop (up e q) refl in ([], tt, ground arith)
      | inr other ↦ (path, all, ground arith)
    ]

-- And the `const` version.
pub get_merge_target_const-Root :
    (rounds n r : ℕ) (f : AndersNodeFactory) (p : Root f.nodes n r)
    → depth p < rounds
    → get_merge_target_const rounds n f ≡ some r
unfolding get_merge_target_const
get_merge_target_const-Root rounds n r f (here e) h =
    let runs = follow_const-Root rounds f.nodes (here e) h in ground arith
get_merge_target_const-Root rounds n r f (up e q) h =
    let runs = follow_const-Root rounds f.nodes q (omega (arith, h)) in ground arith

-- If the merge targets lead from a node to its root, then with more rounds than steps both versions
-- of `getMergeTarget` return that root, and the one that shortens the path changes the root of no
-- node.
pub get_merge_target-exact :
    (rounds n r : ℕ) (f : AndersNodeFactory) (p : Root f.nodes n r)
    → depth p < rounds
    → (f' : AndersNodeFactory) × (get_merge_target rounds n f ≡ some (r, f'))
      × (get_merge_target_const rounds n f ≡ some r)
      × ((x y : ℕ) → Root f.nodes x y ↔ Root f'.nodes x y)
get_merge_target-exact rounds n r f p h =
    let (path, all, runs) = get_merge_target-path rounds n r f p h in
    (_, runs, get_merge_target_const-Root rounds n r f p h, compress-Root path r f.nodes all)

module _ (n₀ n₁ : ℕ) (nodes : List AndersNode) (root₀ : target nodes n₀ ≡ some n₀)
    (root₁ : target nodes n₁ ≡ some n₁) (differ : (n₁ == n₀) ≡ false) where
  target-merged :
      (j : ℕ) → target (set_target n₁ n₀ nodes) j ≡ (if n₁ == j then some n₀ else target nodes j)
  target-merged j = target-set_target n₁ n₀ n₁ j nodes root₁

  Root-merged :
      {x y : ℕ} → Root nodes x y → Root (set_target n₁ n₀ nodes) x (if n₁ == y then n₀ else y)
  Root-merged (here {r = y} e) = elim (Bool-cases (n₁ == y)) [
    | inl same ↦
        let next : target (set_target n₁ n₀ nodes) y ≡ some n₀ = ground (arith, target-merged y) in
        let stays : target (set_target n₁ n₀ nodes) n₀ ≡ some n₀ =
          ground (arith, target-merged n₀) in
        rw same (up next (here stays))
    | inr other ↦
        let stays : target (set_target n₁ n₀ nodes) y ≡ some y = ground (arith, target-merged y) in
        rw other (here stays)
  ]
  Root-merged (up {n = x} {m} {r = y} e q) = elim (Bool-cases (n₁ == x)) [
    | inl same ↦
        let whole : y ≡ n₁ = Root-self nodes n₁ root₁ (up e q) (sym (eq_of_== n₁ x same)) in
        let next : target (set_target n₁ n₀ nodes) x ≡ some n₀ = ground (arith, target-merged x) in
        let stays : target (set_target n₁ n₀ nodes) n₀ ≡ some n₀ =
          ground (arith, target-merged n₀) in
        let end : n₀ ≡ (if n₁ == y then n₀ else y) = ground (arith, ==_refl n₁) in
        subst (λ k. Root (set_target n₁ n₀ nodes) x k) end (up next (here stays))
    | inr other ↦
        let next : target (set_target n₁ n₀ nodes) x ≡ some m = ground (arith, target-merged x) in
        up next (Root-merged q)
  ]

pub target-lt : (n m : ℕ) (nodes : List AndersNode) → target nodes n ≡ some m → n < length nodes
target-lt n m [] h = ground arith
target-lt zero m (node ∷ nodes) h = omega arith
target-lt (suc n) m (node ∷ nodes) h = omega (arith, target-lt n m nodes h)

-- If every node has a root and two different nodes are their own roots, `mergeNode` returns, every
-- node has a root again, and the nodes of the second root have the first one as their root, while
-- all other nodes keep theirs.
pub merge_node-exact :
    (n₀ n₁ : ℕ) (f : AndersNodeFactory)
    → IsForest f.nodes
    → target f.nodes n₀ ≡ some n₀
    → target f.nodes n₁ ≡ some n₁
    → (n₁ == n₀) ≡ false
    → (f' : AndersNodeFactory) × (merge_node n₀ n₁ f ≡ some f')
      × IsForest f'.nodes
      × ((x y : ℕ) → Root f.nodes x y → Root f'.nodes x (if n₁ == y then n₀ else y))
unfolding merge_node
merge_node-exact n₀ n₁ f forest root₀ root₁ differ = (
  record f { nodes = set_target n₁ n₀ f.nodes },
  ground (arith, target-lt n₀ n₀ f.nodes root₀, target-lt n₁ n₁ f.nodes root₁),
  (λ x m e.
      let (w, at_x) = old x m e in
      let (r, p) = forest x w at_x in (_, Root-merged n₀ n₁ f.nodes root₀ root₁ differ p)),
  λ x y p. Root-merged n₀ n₁ f.nodes root₀ root₁ differ p,
)
  where
    old :
        (x m : ℕ)
        → target (set_target n₁ n₀ f.nodes) x ≡ some m
        → (w : ℕ) × (target f.nodes x ≡ some w)
    old x m e = elim (Bool-cases (n₁ == x)) [
      | inl same ↦ (n₁, subst (λ k. target f.nodes k ≡ some n₁) (eq_of_== n₁ x same) root₁)
      | inr other ↦ (m, ground (arith, target-merged n₀ n₁ f.nodes root₀ root₁ differ x))
    ]
