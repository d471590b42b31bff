-- ===== src/Andersen/Solve.antt =====
-- andersen/lib/ConstraintSolving.cpp: `buildConstraintGraph` and `Andersen::solveConstraints`, with
-- the options enable-hcd and enable-lcd off, which is their default, so that no nodes are merged
-- here. `rounds` bounds the loops of `getMergeTarget`. `none` is a failed assertion, or fuel that
-- ran out.
pub mod State
pub mod Moves
pub mod Flow
pub mod Examine
pub mod Round
pub mod Loop
pub mod Build
pub mod Edges
pub mod Constraints
pub mod Start
pub mod Exact
pub mod Factory
use programslicer.Common.{
  ℕ, zero, suc, ◌+◌, ◌*◌, Bool, true, false, Option, none, some, List, [], ◌∷◌, ◌==◌, if◌then◌else◌,
  ◌>>=◌, for_each, length,
}
use programslicer.Common.Maps
use programslicer.Common.Maps.{Map}
use programslicer.NodeFactory.{AndersNodeFactory, get_merge_target}
use programslicer.Andersen.Constraint.{ConstraintType, addr_of, copy, load, store, AndersConstraint}
use programslicer.Andersen.PtsSet
use programslicer.Andersen.PtsSet.{AndersPtsSet}
use programslicer.Andersen.Graph.{
  ConstraintGraphNode, ConstraintGraph, node_or_new, insert_copy_edge, insert_load_edge,
  insert_store_edge, replace_copy_edge, replace_load_edge, replace_store_edge,
}
use programslicer.Andersen.WorkList
use programslicer.Andersen.WorkList.{AndersWorkList, enqueue, dequeue}

-- The members of `Andersen` that the phase uses, and its local variables; `update_map` is that of
-- the loop that runs.
pub record SolverState : Type 0 where
  pub node_factory : AndersNodeFactory
  pub pts_graph : Map AndersPtsSet
  pub constraint_graph : ConstraintGraph
  pub curr_work_list : AndersWorkList
  pub next_work_list : AndersWorkList
  pub update_map : Map ℕ

-- `ptsGraph[n]`, an empty set where there was none.
abbrev pub points_to : SolverState → ℕ → AndersPtsSet
points_to s n = elim (Maps.lookup n s.pts_graph) [ none ↦ [] | some pts ↦ pts ]

abbrev pub copies : SolverState → ℕ → List ℕ
copies s n = (node_or_new n s.constraint_graph).copy_edges

abbrev pub loads : SolverState → ℕ → List ℕ
loads s n = (node_or_new n s.constraint_graph).load_edges

abbrev pub stores : SolverState → ℕ → List ℕ
stores s n = (node_or_new n s.constraint_graph).store_edges

-- `if (constraintGraph.insertCopyEdge(src, dst)) nextWorkList->enqueue(src);`
unfoldable pub add_copy_edge : ℕ → ℕ → SolverState → SolverState
unfolding insert_copy_edge enqueue
add_copy_edge src dst s =
    let (is_new, graph) = insert_copy_edge src dst s.constraint_graph in
    record s {
      constraint_graph = graph;
      next_work_list = if is_new then enqueue src s.next_work_list else s.next_work_list;
    }

-- `if (tgtNode != dst) updateMap[dst] = tgtNode;`
unfoldable pub remember : ℕ → ℕ → SolverState → SolverState
unfolding Maps.set
remember dst tgt s =
    if tgt == dst then s else record s { update_map = Maps.set dst tgt s.update_map }

-- A loop over `updateMap` that replaces edges of a node.
unfoldable pub update_edges :
    (ℕ → ℕ → ConstraintGraphNode → ConstraintGraphNode)
    → Map ℕ
    → ConstraintGraphNode
    → ConstraintGraphNode
update_edges replace [] node = node
update_edges replace ((old_idx, new_idx) ∷ rest) node =
    update_edges replace rest (replace old_idx new_idx node)

-- The loop for the edges of node `n`, after which the map is empty again.
unfoldable pub perform_updates :
    (ℕ → ℕ → ConstraintGraphNode → ConstraintGraphNode) → ℕ → SolverState → SolverState
unfolding update_edges Maps.set
perform_updates replace n s = elim (Maps.lookup n s.constraint_graph) [
  | none ↦ record s { update_map = [] }
  | some node ↦ record s {
    constraint_graph = Maps.set n (update_edges replace s.update_map node) s.constraint_graph;
    update_map = [];
  }
]

-- `tgtPtsSet.unionWith(ptsSet)`, and what depends on its result.
unfoldable pub flow : ℕ → ℕ → SolverState → SolverState
unfolding PtsSet.union_with enqueue Maps.set
flow node tgt s =
    let (is_changed, pts) = PtsSet.union_with (points_to s tgt) (points_to s node) in
    record s {
      pts_graph = Maps.set tgt pts s.pts_graph;
      next_work_list = if is_changed then enqueue tgt s.next_work_list else s.next_work_list;
    }

-- The work list to go on with: the two are swapped when the current one is empty.
unfoldable pub swap_if_empty : SolverState → SolverState
swap_if_empty s =
    if WorkList.is_empty s.curr_work_list
    then record s { curr_work_list = s.next_work_list; next_work_list = s.curr_work_list }
    else s

-- The nodes that the map `ptsGraph` holds.
unfoldable pub pointers : Map AndersPtsSet → List ℕ
pointers [] = []
pointers ((n, pts) ∷ rest) = n ∷ pointers rest

module _ (rounds : ℕ) where
  -- `nodeFactory.getMergeTarget(n)`
  unfoldable pub merge_target : ℕ → SolverState → Option (ℕ × SolverState)
  unfolding get_merge_target
  merge_target n s = do
    (target, factory) ← get_merge_target rounds n s.node_factory
    some (target, record s { node_factory = factory })

  -- The body of the loop over the load edges.
  unfoldable pub follow_load : ℕ → ℕ → SolverState → Option SolverState
  unfolding merge_target add_copy_edge remember
  follow_load v_rep dst s = do
    (tgt, s₁) ← merge_target dst s
    some (remember dst tgt (add_copy_edge v_rep tgt s₁))

  -- The body of the loop over the store edges.
  unfoldable pub follow_store : ℕ → ℕ → SolverState → Option SolverState
  unfolding merge_target add_copy_edge remember
  follow_store v_rep dst s = do
    (tgt, s₁) ← merge_target dst s
    some (remember dst tgt (add_copy_edge tgt v_rep s₁))

  -- The body of the loop over the points-to set of `node`.
  unfoldable pub visit_pointee : ℕ → ℕ → SolverState → Option SolverState
  unfolding merge_target follow_load follow_store perform_updates replace_load_edge
      replace_store_edge for_each
  visit_pointee node v s = do
    (v_rep, s₁) ← merge_target v (record s { update_map = [] })
    s₂ ← for_each (follow_load v_rep) (loads s₁ node) s₁
    let s₃ = perform_updates replace_load_edge node s₂
    s₄ ← for_each (follow_store v_rep) (stores s₃ node) s₃
    some (perform_updates replace_store_edge node s₄)

  -- The body of the loop over the copy edges.
  unfoldable pub propagate : ℕ → ℕ → SolverState → Option SolverState
  unfolding merge_target flow remember
  propagate node dst s = do
    (tgt, s₁) ← merge_target dst s
    some (if node == tgt then s₁ else remember dst tgt (flow node tgt s₁))

  -- The body of the inner `while` loop, for the node that was taken off the list.
  unfoldable pub examine : ℕ → SolverState → Option SolverState
  unfolding merge_target visit_pointee propagate perform_updates replace_copy_edge for_each
  examine n s = do
    (node, s₁) ← merge_target n s
    elim (Maps.lookup node s₁.constraint_graph) [
      | none ↦ some s₁
      | some c_node ↦ elim (Maps.lookup node s₁.pts_graph) [
        | none ↦ some s₁
        | some pts_set ↦ do
          s₂ ← for_each (visit_pointee node) pts_set s₁
          s₃ ← for_each (propagate node) (copies s₂ node) (record s₂ { update_map = [] })
          some (perform_updates replace_copy_edge node s₃)
      ]
    ]

  -- The two `while` loops.
  unfoldable pub solve : ℕ → SolverState → Option SolverState
  unfolding swap_if_empty dequeue examine
  solve zero s = none
  solve (suc fuel) s =
      let s₁ = swap_if_empty s in
      let rest = (do
        (n, work) ← dequeue s₁.curr_work_list
        s₂ ← examine n (record s₁ { curr_work_list = work })
        solve fuel s₂) in
      if WorkList.is_empty s₁.curr_work_list then some s₁ else rest

  -- The loop of `buildConstraintGraph`.
  unfoldable pub build_constraint : AndersConstraint → SolverState → Option SolverState
  unfolding merge_target insert_copy_edge insert_load_edge insert_store_edge PtsSet.insert Maps.set
  build_constraint c s = do
    (src, s₁) ← merge_target c.src s
    (dst, s₂) ← merge_target c.dest s₁
    some (elim c.type [
      | addr_of ↦ record s₂ {
        pts_graph = Maps.set dst (PtsSet.insert c.src (points_to s₂ dst)).1 s₂.pts_graph;
      }
      | load ↦ record s₂ { constraint_graph = (insert_load_edge src dst s₂.constraint_graph).1 }
      | store ↦ record s₂ { constraint_graph = (insert_store_edge dst src s₂.constraint_graph).1 }
      | copy ↦ record s₂ { constraint_graph = (insert_copy_edge src dst s₂.constraint_graph).1 }
    ])

  unfoldable pub build_constraint_graph : List AndersConstraint → SolverState → Option SolverState
  unfolding build_constraint for_each
  build_constraint_graph = for_each build_constraint

  -- The scan for the first work list.
  unfoldable pub start_node : ℕ → SolverState → Option SolverState
  unfolding merge_target enqueue
  start_node node s = do
    (tgt, s₁) ← merge_target node s
    some (
        if tgt == node
        then elim (Maps.lookup node s₁.constraint_graph) [
          | none ↦ s₁
          | some c_node ↦ record s₁ { curr_work_list = enqueue node s₁.curr_work_list }
        ]
        else s₁)

  -- The loop of `buildOfflineConstraintGraph`, which the constructor of `OfflineCycleDetector` calls:
  -- what it does to the nodes. The graph that it builds is read with enable-hcd only, and stays out.
  unfoldable pub build_offline_constraint :
      AndersConstraint → AndersNodeFactory → Option AndersNodeFactory
  unfolding get_merge_target
  build_offline_constraint c f = do
    (src, f₁) ← get_merge_target rounds c.src f
    (dst, f₂) ← get_merge_target rounds c.dest f₁
    some f₂

  unfoldable pub build_offline_constraint_graph :
      List AndersConstraint → AndersNodeFactory → Option AndersNodeFactory
  unfolding build_offline_constraint for_each
  build_offline_constraint_graph = for_each build_offline_constraint

  -- `solveConstraints`, for the nodes and the points-to graph that it is called with. The fuel is
  -- for as many rounds as there can be edges, elements of sets, and nodes in the first work list.
  unfoldable pub solve_constraints :
      List AndersConstraint → AndersNodeFactory → Map AndersPtsSet → Option SolverState
  unfolding build_offline_constraint_graph build_constraint_graph start_node pointers solve for_each
  solve_constraints cs factory pts_graph = do
    offline ← build_offline_constraint_graph cs factory
    s₁ ← build_constraint_graph cs (record {
      node_factory = offline;
      pts_graph = pts_graph;
      constraint_graph = [];
      curr_work_list = WorkList.empty;
      next_work_list = WorkList.empty;
      update_map = [];
    })
    s₂ ← for_each start_node (pointers s₁.pts_graph) s₁
    let nodes = length s₂.node_factory.nodes
    solve (suc (nodes * nodes + nodes * nodes + length s₂.curr_work_list.list)) s₂
