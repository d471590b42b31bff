-- ===== src/Sdg/Keeps/Edges.antt =====
-- SDG.cpp: the kinds of edges that each step makes, as closure conditions.
use programslicer.Common.{ℕ, List}
use programslicer.Common.Maps.{Map}
use programslicer.DirectedGraph.{DirectedGraph}
use programslicer.Sdg.Edge.{control, flow, call, param_in, param_out}
use programslicer.Sdg.Node.{
  Placement, inst_node, entry_node, callee_input, callee_output, caller_input, caller_output,
}
use programslicer.Sdg.State.{SdgState}

-- The edges of each step, by their ends and their attribute.
pub record ControlEdges (p : Placement) (A : ℕ → ℕ → ℕ → Type 0) : Type 0 where
  pub terminator : (i j : ℕ) → A (p.addr (inst_node i)) (p.addr (inst_node j)) control
  pub from_entry : (f j : ℕ) → A (p.addr (entry_node f)) (p.addr (inst_node j)) control
  pub to_argument : (f a : ℕ) → A (p.addr (entry_node f)) (p.addr (callee_input a)) control
  pub to_result : (f g : ℕ) → A (p.addr (entry_node f)) (p.addr (callee_output g)) control

pub record CallEdges (p : Placement) (A : ℕ → ℕ → ℕ → Type 0) : Type 0 where
  pub to_entry : (i f : ℕ) → A (p.addr (inst_node i)) (p.addr (entry_node f)) call
  pub to_actual : (i c v : ℕ) → A (p.addr (inst_node i)) (p.addr (caller_input c v)) control
  pub to_formal : (c v a : ℕ) → A (p.addr (caller_input c v)) (p.addr (callee_input a)) param_in
  pub to_return : (i c v : ℕ) → A (p.addr (inst_node i)) (p.addr (caller_output c v)) control
  pub returned : (f c v : ℕ) → A (p.addr (callee_output f)) (p.addr (caller_output c v)) param_out

pub record DataEdges (p : Placement) (A : ℕ → ℕ → ℕ → Type 0) : Type 0 where
  pub def_use : (i j : ℕ) → A (p.addr (inst_node i)) (p.addr (inst_node j)) flow
  pub argument_use : (a j : ℕ) → A (p.addr (callee_input a)) (p.addr (inst_node j)) flow
  pub return_value : (i f : ℕ) → A (p.addr (inst_node i)) (p.addr (callee_output f)) flow
  pub call_value : (c v j : ℕ) → A (p.addr (caller_output c v)) (p.addr (inst_node j)) flow

abbrev pub Holds : (DirectedGraph ℕ → Map (List ℕ) → Type 0) → SdgState → Type 0
Holds P s = P s.graph s.def_node_map
