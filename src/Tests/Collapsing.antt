-- ===== src/Tests/Collapsing.antt =====
-- andersen/lib/ConstraintSolving.cpp, `collapseNodes`: an example.
use programslicer.Common.{ℕ, ◌≡◌, refl, some, [], ◌∷◌, ◌==◌, if◌then◌else◌}
use programslicer.Common.Sets
use programslicer.NodeFactory.{new_factory}
use programslicer.NodeFactory.Merge.{Root, IsForest}
use programslicer.Andersen.PtsSet.{has}
use programslicer.Andersen.Graph.{node_or_new}
use programslicer.Andersen.Collapse.{Nodes, points, taken, collapse_nodes, collapse_nodes-exact}
use programslicer.Tests.Merging.{new_factory-IsForest}

-- 0 points to 1 with a copy edge to 1, and 2 to 3 with a load edge to 3 and a store edge to 1.
abbrev nodes : Nodes
nodes = record {
  node_factory = new_factory;
  pts_graph = (0, 1 ∷ []) ∷ (2, 3 ∷ []) ∷ [];
  constraint_graph =
      (0, record { idx = 0; copy_edges = 1 ∷ []; load_edges = []; store_edges = [] })
      ∷ (2, record { idx = 2; copy_edges = []; load_edges = 3 ∷ []; store_edges = 1 ∷ [] })
      ∷ [];
}

collapse_nodes-exact_example :
    (s' : Nodes) × (collapse_nodes 0 2 nodes ≡ some s')
    × IsForest s'.node_factory.nodes
    × ((x y : ℕ)
        → Root new_factory.nodes x y
        → Root s'.node_factory.nodes x (if 2 == y then 0 else y))
    × ((n x : ℕ)
        → has x (points s'.pts_graph n) ≡ taken 0 2 (λ m. has x (points nodes.pts_graph m)) n)
    × ((n d : ℕ)
        → Sets.contains d (node_or_new n s'.constraint_graph).copy_edges
          ≡ taken 0 2 (λ m. Sets.contains d (node_or_new m nodes.constraint_graph).copy_edges) n)
    × ((n d : ℕ)
        → Sets.contains d (node_or_new n s'.constraint_graph).load_edges
          ≡ taken 0 2 (λ m. Sets.contains d (node_or_new m nodes.constraint_graph).load_edges) n)
    × ((n d : ℕ)
        → Sets.contains d (node_or_new n s'.constraint_graph).store_edges
          ≡ taken 0 2 (λ m. Sets.contains d (node_or_new m nodes.constraint_graph).store_edges) n)
collapse_nodes-exact_example = collapse_nodes-exact 0 2 refl nodes new_factory-IsForest refl refl
