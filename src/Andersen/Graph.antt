-- ===== src/Andersen/Graph.antt =====
-- andersen/lib/ConstraintSolving.cpp, `ConstraintGraphNode` and `ConstraintGraph`. An insertion
-- returns, as in the source, whether the edge is new.
pub mod Laws
use programslicer.Common.{
  ℕ, Bool, true, false, not, ◌&&◌, Option, none, some, List, [], ◌∷◌, if◌then◌else◌,
}
use programslicer.Common.Sets
use programslicer.Common.Maps
use programslicer.Common.Maps.{Map}

pub record ConstraintGraphNode : Type 0 where
  pub idx : ℕ
  pub copy_edges : List ℕ
  pub load_edges : List ℕ
  pub store_edges : List ℕ

-- `ConstraintGraphNode(i)`
abbrev pub new_node : ℕ → ConstraintGraphNode
new_node i = record { idx = i; copy_edges = []; load_edges = []; store_edges = [] }

abbrev pub ConstraintGraph : Type 0
ConstraintGraph = Map ConstraintGraphNode

-- `std::set::insert(…).second` and the set.
abbrev pub insert_edge : ℕ → List ℕ → Bool × List ℕ
insert_edge dst edges = (not (Sets.contains dst edges), Sets.insert dst edges)

-- The node that `find` gives, or a new one where there is none.
abbrev pub node_or_new : ℕ → ConstraintGraph → ConstraintGraphNode
node_or_new idx graph = elim (Maps.lookup idx graph) [ none ↦ new_node idx | some node ↦ node ]

unfoldable pub insert_copy_edge : ℕ → ℕ → ConstraintGraph → Bool × ConstraintGraph
unfolding Maps.set Sets.insert
insert_copy_edge src dst graph =
    let node = node_or_new src graph in
    let (is_new, edges) = insert_edge dst node.copy_edges in
    (is_new, Maps.set src (record node { copy_edges = edges }) graph)

unfoldable pub insert_load_edge : ℕ → ℕ → ConstraintGraph → Bool × ConstraintGraph
unfolding Maps.set Sets.insert
insert_load_edge src dst graph =
    let node = node_or_new src graph in
    let (is_new, edges) = insert_edge dst node.load_edges in
    (is_new, Maps.set src (record node { load_edges = edges }) graph)

unfoldable pub insert_store_edge : ℕ → ℕ → ConstraintGraph → Bool × ConstraintGraph
unfolding Maps.set Sets.insert
insert_store_edge src dst graph =
    let node = node_or_new src graph in
    let (is_new, edges) = insert_edge dst node.store_edges in
    (is_new, Maps.set src (record node { store_edges = edges }) graph)

-- `removeCopyEdge(old) && insertCopyEdge(new)`, and so for the other two kinds.
abbrev pub replace_edge : ℕ → ℕ → List ℕ → List ℕ
replace_edge old_idx new_idx edges =
    if Sets.contains old_idx edges then Sets.insert new_idx (Sets.erase old_idx edges) else edges

unfoldable pub replace_copy_edge : ℕ → ℕ → ConstraintGraphNode → ConstraintGraphNode
unfolding Sets.insert Sets.erase
replace_copy_edge old_idx new_idx node = record node {
  copy_edges = replace_edge old_idx new_idx node.copy_edges;
}

unfoldable pub replace_load_edge : ℕ → ℕ → ConstraintGraphNode → ConstraintGraphNode
unfolding Sets.insert Sets.erase
replace_load_edge old_idx new_idx node = record node {
  load_edges = replace_edge old_idx new_idx node.load_edges;
}

unfoldable pub replace_store_edge : ℕ → ℕ → ConstraintGraphNode → ConstraintGraphNode
unfolding Sets.insert Sets.erase
replace_store_edge old_idx new_idx node = record node {
  store_edges = replace_edge old_idx new_idx node.store_edges;
}

unfoldable pub get_node_with_index : ℕ → ConstraintGraph → Option ConstraintGraphNode
get_node_with_index idx graph = Maps.lookup idx graph

-- The node that is there, or a new one, and the graph.
unfoldable pub get_or_insert_node : ℕ → ConstraintGraph → ConstraintGraphNode × ConstraintGraph
unfolding Maps.set
get_or_insert_node idx graph = elim (Maps.lookup idx graph) [
  | none ↦ (new_node idx, Maps.set idx (new_node idx) graph)
  | some node ↦ (node, graph)
]

unfoldable pub delete_node : ℕ → ConstraintGraph → ConstraintGraph
unfolding Maps.erase
delete_node idx graph = Maps.erase idx graph

-- `set.insert(other.begin(), other.end())`
unfoldable pub insert_all : List ℕ → List ℕ → List ℕ
unfolding Sets.insert
insert_all edges [] = edges
insert_all edges (dst ∷ other) = insert_all (Sets.insert dst edges) other

unfoldable pub merge_edges : ConstraintGraphNode → ConstraintGraphNode → ConstraintGraphNode
unfolding insert_all
merge_edges node other = record {
  idx = node.idx;
  copy_edges = insert_all node.copy_edges other.copy_edges;
  load_edges = insert_all node.load_edges other.load_edges;
  store_edges = insert_all node.store_edges other.store_edges;
}

-- Where `dst` has no node, that of `src` is entered as it is, with the index of `src`.
unfoldable pub merge_nodes : ℕ → ℕ → ConstraintGraph → ConstraintGraph
unfolding merge_edges Maps.set
merge_nodes dst src graph = elim (Maps.lookup src graph) [
  | none ↦ graph
  | some src_node ↦ elim (Maps.lookup dst graph) [
    | none ↦ Maps.set dst src_node graph
    | some dst_node ↦ Maps.set dst (merge_edges dst_node src_node) graph
  ]
]
