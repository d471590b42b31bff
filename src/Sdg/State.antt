-- ===== src/Sdg/State.antt =====
-- SDG.h: the members of `class SDG`, and the statements of SDG.cpp that make a node or an edge.
-- The control dependence graph is the member of the `CDG` pass, which no run clears.
use programslicer.Common.{ℕ, none, some, List}
use programslicer.Common.Maps
use programslicer.Common.Maps.{Map}
use programslicer.DirectedGraph.{DirectedGraph, insert}
use programslicer.Sdg.Node.{NodeAttr, SdgNode, emplace, subscript, site}

pub record SdgState : Type 0 where
  pub graph : DirectedGraph ℕ
  pub inst_node_map : Map SdgNode
  pub entry_node_map : Map SdgNode
  pub callee_input_node_map : Map SdgNode
  pub caller_input_node_map : Map (Map SdgNode)
  pub callee_output_node_map : Map SdgNode
  pub caller_output_node_map : Map (Map SdgNode)
  pub def_node_map : Map (List ℕ)
  pub cdg : DirectedGraph ℕ

-- `graph.insert(src, dst, new SDGEdge(attr))`.
unfoldable pub add_edge : ℕ → ℕ → ℕ → SdgState → SdgState
unfolding insert
add_edge src dst attr s = record s { graph = insert src dst (some attr) s.graph }

-- Nodes are made by `insert` with a node, or by `operator[]`.
abbrev pub insert_inst : ℕ → SdgState → SdgState
insert_inst i s = record s {
  inst_node_map = emplace i (record { attr = NodeAttr.instruction; value = i }) s.inst_node_map;
}

abbrev pub insert_entry : ℕ → SdgState → SdgState
insert_entry f s = record s {
  entry_node_map = emplace f (record { attr = NodeAttr.entry; value = f }) s.entry_node_map;
}

abbrev pub insert_callee_input : ℕ → SdgState → SdgState
insert_callee_input a s = record s {
  callee_input_node_map =
      emplace a (record { attr = NodeAttr.callee_aux; value = a }) s.callee_input_node_map;
}

abbrev pub insert_callee_output : ℕ → SdgState → SdgState
insert_callee_output f s = record s {
  callee_output_node_map =
      emplace f (record { attr = NodeAttr.callee_aux; value = f }) s.callee_output_node_map;
}

abbrev pub insert_caller_input : ℕ → ℕ → SdgState → SdgState
insert_caller_input c v s = record s {
  caller_input_node_map =
      Maps.set c
        (emplace v (record { attr = NodeAttr.caller_aux; value = v })
          (site c s.caller_input_node_map))
        s.caller_input_node_map;
}

abbrev pub insert_caller_output : ℕ → ℕ → SdgState → SdgState
insert_caller_output c v s = record s {
  caller_output_node_map =
      Maps.set c
        (emplace v (record { attr = NodeAttr.caller_aux; value = v })
          (site c s.caller_output_node_map))
        s.caller_output_node_map;
}

abbrev pub use_inst : ℕ → SdgState → SdgState
use_inst i s = record s { inst_node_map = subscript i s.inst_node_map }

abbrev pub use_entry : ℕ → SdgState → SdgState
use_entry f s = record s { entry_node_map = subscript f s.entry_node_map }

abbrev pub use_callee_input : ℕ → SdgState → SdgState
use_callee_input a s = record s { callee_input_node_map = subscript a s.callee_input_node_map }

abbrev pub use_callee_output : ℕ → SdgState → SdgState
use_callee_output f s = record s { callee_output_node_map = subscript f s.callee_output_node_map }

abbrev pub use_caller_output : ℕ → ℕ → SdgState → SdgState
use_caller_output c v s = record s {
  caller_output_node_map =
      Maps.set c (subscript v (site c s.caller_output_node_map)) s.caller_output_node_map;
}

-- `callerInputNodeMap[CI]` and `callerOutputNodeMap[CI]`.
abbrev pub use_site : ℕ → SdgState → SdgState
use_site c s = record s {
  caller_input_node_map = Maps.set c (site c s.caller_input_node_map) s.caller_input_node_map;
  caller_output_node_map = Maps.set c (site c s.caller_output_node_map) s.caller_output_node_map;
}

-- The value of a node that a map holds, null where it holds none.
abbrev pub value_of : ℕ → Map SdgNode → ℕ
value_of k m = elim (Maps.lookup k m) [ none ↦ 0 | some node ↦ node.value ]
