-- ===== src/Andersen/Collapse.antt =====
-- andersen/lib/ConstraintSolving.cpp, `collapseNodes`: one node takes over the points-to set and the
-- edges of another.
use programslicer.Common.{
  ℕ, ◌≡◌, refl, inl, inr, Bool, false, ◌||◌, Option, none, some, List, [], ◌∷◌, ◌==◌, if◌then◌else◌,
  ◌>>=◌, arith, Bool-cases, Option-cases, eq_of_==, ap, ◌∙◌,
}
use programslicer.Common.Sets
use programslicer.Common.Sets.{contains-insert}
use programslicer.Common.Maps
use programslicer.Common.Maps.{Map, lookup-set, lookup-erase}
use programslicer.NodeFactory.{AndersNodeFactory, target, merge_node}
use programslicer.NodeFactory.Merge.{Root, IsForest}
use programslicer.NodeFactory.Target.{merge_node-exact}
use programslicer.Andersen.PtsSet
use programslicer.Andersen.PtsSet.{AndersPtsSet, has}
use programslicer.Andersen.PtsSet.Laws.{has-join}
use programslicer.Andersen.Graph.{
  ConstraintGraphNode, ConstraintGraph, new_node, node_or_new, merge_nodes, merge_edges, insert_all,
  delete_node,
}

-- What the function changes.
pub record Nodes : Type 0 where
  pub node_factory : AndersNodeFactory
  pub pts_graph : Map AndersPtsSet
  pub constraint_graph : ConstraintGraph

abbrev pub points : Map AndersPtsSet → ℕ → AndersPtsSet
points pts_graph n = elim (Maps.lookup n pts_graph) [ none ↦ [] | some pts ↦ pts ]

-- `if (ptsGraph.count(src)) ptsGraph[dst].unionWith(ptsGraph[src]);`
unfoldable pub join_points : ℕ → ℕ → Map AndersPtsSet → Map AndersPtsSet
unfolding Maps.set PtsSet.union_with
join_points dst src pts_graph = elim (Maps.lookup src pts_graph) [
  | none ↦ pts_graph
  | some pts ↦ Maps.set dst (PtsSet.union_with (points pts_graph dst) pts).1 pts_graph
]

unfoldable pub collapse_nodes : ℕ → ℕ → Nodes → Option Nodes
unfolding merge_node join_points merge_nodes delete_node Maps.erase
collapse_nodes dst src s = if dst == src then some s else (do
  factory ← merge_node dst src s.node_factory
  some (record {
    node_factory = factory;
    pts_graph = Maps.erase src (join_points dst src s.pts_graph);
    constraint_graph = delete_node src (merge_nodes dst src s.constraint_graph);
  }))

contains-insert_all :
    (x : ℕ) (set other : List ℕ)
    → Sets.contains x (insert_all set other) ≡ (Sets.contains x set || Sets.contains x other)
unfolding insert_all
contains-insert_all x set [] = ground arith
contains-insert_all x set (y ∷ other) =
    ground (arith, contains-insert_all x (Sets.insert y set) other, contains-insert y x set)

-- What `n` has after the collapse, by what the nodes had before.
abbrev pub taken : (dst src : ℕ) → (ℕ → Bool) → ℕ → Bool
taken dst src had n = if src == n then false else if dst == n then had dst || had src else had n

module _ (dst src : ℕ) (differ : (dst == src) ≡ false) where
  points-collapsed :
      (pts_graph : Map AndersPtsSet) (n x : ℕ)
      → has x (points (Maps.erase src (join_points dst src pts_graph)) n)
        ≡ taken dst src (λ m. has x (points pts_graph m)) n
  unfolding join_points PtsSet.union_with
  points-collapsed pts_graph n x = elim (Option-cases (Maps.lookup src pts_graph)) [
    | inl missing ↦
        ground (arith, lookup-erase src n (join_points dst src pts_graph), eq_of_== dst n)
    | inr (pts, found) ↦
        let joined = PtsSet.join (points pts_graph dst) pts in
        ground (
          arith,
          lookup-erase src n (Maps.set dst joined pts_graph),
          lookup-set dst n joined pts_graph,
          has-join x (points pts_graph dst) pts,
        )
  ]

  module _ (E : ConstraintGraphNode → List ℕ) (none_new : (i : ℕ) → E (new_node i) ≡ [])
      (joins : (a b : ConstraintGraphNode) → E (merge_edges a b) ≡ insert_all (E a) (E b)) where
    edges_at : (g : ConstraintGraph) (n d : ℕ) → Bool
    edges_at g n d = Sets.contains d (E (node_or_new n g))

    edges_missing :
        (g : ConstraintGraph) (n d : ℕ) → Maps.lookup n g ≡ none → edges_at g n d ≡ false
    unfolding edges_at
    edges_missing g n d missing =
        let e : node_or_new n g ≡ new_node n = ground arith in
        ap (λ node. Sets.contains d (E node)) e ∙ ap (Sets.contains d) (none_new n)

    edges_found :
        (g : ConstraintGraph) (n d : ℕ) (node : ConstraintGraphNode)
        → Maps.lookup n g ≡ some node
        → edges_at g n d ≡ Sets.contains d (E node)
    unfolding edges_at
    edges_found g n d node found =
        let e : node_or_new n g ≡ node = ground arith in ap (λ k. Sets.contains d (E k)) e

    edges_agree :
        (g h : ConstraintGraph) (n d : ℕ)
        → Maps.lookup n h ≡ Maps.lookup n g
        → edges_at h n d ≡ edges_at g n d
    unfolding edges_at
    edges_agree g h n d same =
        let e : node_or_new n h ≡ node_or_new n g = ground arith in
        ap (λ k. Sets.contains d (E k)) e

    edges-collapsed :
        (g : ConstraintGraph) (n d : ℕ)
        → edges_at (delete_node src (merge_nodes dst src g)) n d
          ≡ taken dst src (λ m. edges_at g m d) n
    unfolding merge_nodes delete_node
    edges-collapsed g n d =
        let after = delete_node src (merge_nodes dst src g) in
        let at_n = lookup-erase src n (merge_nodes dst src g) in
        elim (Bool-cases (src == n)) [
          | inl gone ↦
              let missing : Maps.lookup n after ≡ none = ground arith in
              rw gone (edges_missing after n d missing)
          | inr stays ↦ elim (Option-cases (Maps.lookup src g)) [
            | inl no_src ↦
                let same : Maps.lookup n after ≡ Maps.lookup n g = ground arith in
                let e = edges_agree g after n d same in
                let none_src = edges_missing g src d no_src in
                let at_dst = eq_of_== dst n in ground arith
            | inr (src_node, at_src) ↦ elim (Bool-cases (dst == n)) [
              | inl here ↦
                  let e_dst : dst ≡ n = eq_of_== dst n here in
                  elim (Option-cases (Maps.lookup dst g)) [
                    | inl no_dst ↦
                        let found : Maps.lookup n after ≡ some src_node =
                          ground (arith, lookup-set dst n src_node g) in
                        let e = edges_found after n d src_node found in
                        let e_src = edges_found g src d src_node at_src in
                        let none_dst = edges_missing g dst d no_dst in ground arith
                    | inr (dst_node, at_d) ↦
                        let both = merge_edges dst_node src_node in
                        let found : Maps.lookup n after ≡ some both =
                          ground (arith, lookup-set dst n both g) in
                        let e = edges_found after n d both found in
                        let j : Sets.contains d (E both)
                            ≡ (Sets.contains d (E dst_node) || Sets.contains d (E src_node)) =
                          rw (joins dst_node src_node)
                            (contains-insert_all d (E dst_node) (E src_node)) in
                        let e_src = edges_found g src d src_node at_src in
                        let e_d = edges_found g dst d dst_node at_d in ground arith
                  ]
              | inr other ↦
                  let same : Maps.lookup n after ≡ Maps.lookup n g =
                    elim (Option-cases (Maps.lookup dst g)) [
                      | inl no_dst ↦ ground (arith, lookup-set dst n src_node g)
                      | inr (dst_node, at_d) ↦
                          ground (arith, lookup-set dst n (merge_edges dst_node src_node) g)
                    ] in
                  let e = edges_agree g after n d same in ground arith
            ]
          ]
        ]

  module _ (s : Nodes) (forest : IsForest s.node_factory.nodes)
      (root_dst : target s.node_factory.nodes dst ≡ some dst)
      (root_src : target s.node_factory.nodes src ≡ some src) where
    -- For two different nodes that are their own roots, in a factory where every node has a root,
    -- `collapseNodes` returns; every node has a root again, and the nodes of `src` have the root
    -- `dst`; `dst` has the objects and the copy, load and store edges of both, `src` has none, and
    -- the other nodes keep theirs.
    pub collapse_nodes-exact :
        (s' : Nodes) × (collapse_nodes dst src s ≡ some s')
        × IsForest s'.node_factory.nodes
        × ((x y : ℕ)
            → Root s.node_factory.nodes x y
            → Root s'.node_factory.nodes x (if src == y then dst else y))
        × ((n x : ℕ)
            → has x (points s'.pts_graph n) ≡ taken dst src (λ m. has x (points s.pts_graph m)) n)
        × ((n d : ℕ)
            → Sets.contains d (node_or_new n s'.constraint_graph).copy_edges
              ≡ taken dst src
                  (λ m. Sets.contains d (node_or_new m s.constraint_graph).copy_edges)
                  n)
        × ((n d : ℕ)
            → Sets.contains d (node_or_new n s'.constraint_graph).load_edges
              ≡ taken dst src
                  (λ m. Sets.contains d (node_or_new m s.constraint_graph).load_edges)
                  n)
        × ((n d : ℕ)
            → Sets.contains d (node_or_new n s'.constraint_graph).store_edges
              ≡ taken dst src
                  (λ m. Sets.contains d (node_or_new m s.constraint_graph).store_edges)
                  n)
    unfolding collapse_nodes merge_edges edges_at
    collapse_nodes-exact =
        let apart : (src == dst) ≡ false = ground arith in
        let (f, e, forest', roots) =
          merge_node-exact dst src s.node_factory forest root_dst root_src apart in
        (
          record {
            node_factory = f;
            pts_graph = Maps.erase src (join_points dst src s.pts_graph);
            constraint_graph = delete_node src (merge_nodes dst src s.constraint_graph);
          },
          rw (differ, e) refl,
          forest',
          roots,
          points-collapsed s.pts_graph,
          edges-collapsed (λ k. k.copy_edges) (λ i. refl) (λ a b. refl) s.constraint_graph,
          edges-collapsed (λ k. k.load_edges) (λ i. refl) (λ a b. refl) s.constraint_graph,
          edges-collapsed (λ k. k.store_edges) (λ i. refl) (λ a b. refl) s.constraint_graph,
        )
