-- ===== src/Sdg/Keeps.antt =====
-- SDG.cpp: how an invariant of the graph passes through the builder. The predicate is on the graph
-- and on the definition map; each step asks that the edges which it makes keep it.
mod Edges
mod Control
mod Calls
mod Data
mod Pointer
mod Build
pub use Edges.*
pub use Build.{run_on_module-keeps}
pub use Calls.{call_function-keeps, call_opcode-keeps}
pub use Data.{operand-keeps, result_edge-keeps, data_instruction-keeps, generate_intra_ddg-keeps}
pub use Pointer.{
  Sources, Sources-redefine, generate_def_node_map-keeps, generate_pointer_edges-keeps,
}
