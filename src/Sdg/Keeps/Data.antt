-- ===== src/Sdg/Keeps/Data.antt =====
-- SDG.cpp, step 3, `generateIntraDDG`: it keeps what its edges keep.
use programslicer.Common.{ℕ, none, some, List, for_each, Ok, Ok->>=, Ok-if, Ok-for_each, is_some}
use programslicer.Common.Maps
use programslicer.Common.Maps.{Map}
use programslicer.DirectedGraph.{DirectedGraph, insert}
use programslicer.Ir.{Value, Instruction, Opcode, Function}
use programslicer.Sdg.Edge.{flow}
use programslicer.Sdg.Node.{Placement, inst_node}
use programslicer.Sdg.State.{SdgState, add_edge}
use programslicer.Sdg.Calls.{instructions}
use programslicer.Sdg.Data.{operand, result_edge, data_instruction, generate_intra_ddg}
use programslicer.Sdg.Keeps.Edges.{DataEdges, Holds}

module _ (p : Placement) (A : ℕ → ℕ → ℕ → Type 0) (P : DirectedGraph ℕ → Map (List ℕ) → Type 0)
    (keep : (src dst attr : ℕ) (g : DirectedGraph ℕ) (defs : Map (List ℕ))
      → A src dst attr
      → P g defs
      → P (insert src dst (some attr) g) defs) where
  module _ (edges : DataEdges p A) where
    pub operand-keeps :
        (i : ℕ) (v : Value) (s : SdgState)
        → Holds P s
        → Ok (Holds P) (operand p (p.addr (inst_node i)) v s)
    unfolding operand add_edge
    operand-keeps i (Value.instruction d) s h =
        Ok-if (Holds P) (is_some (Maps.lookup d s.inst_node_map)) _ none
          (keep _ _ flow _ _ (edges.def_use d i) h) tt
    operand-keeps i (Value.argument a) s h =
        Ok-if (Holds P) (is_some (Maps.lookup a s.callee_input_node_map)) _ none
          (keep _ _ flow _ _ (edges.argument_use a i) h) tt
    operand-keeps i (Value.other v) s h = h

    pub result_edge-keeps :
        (f i : ℕ) (op : Opcode) (s : SdgState) → Holds P s → Holds P (result_edge p f i op s)
    unfolding result_edge add_edge
    result_edge-keeps f i Opcode.ret s h = keep _ _ flow _ _ (edges.return_value i f) h
    result_edge-keeps f i (Opcode.call c vs) s h = keep _ _ flow _ _ (edges.call_value i i i) h
    result_edge-keeps f i (Opcode.store v b) s h = h
    result_edge-keeps f i Opcode.load s h = h
    result_edge-keeps f i Opcode.misc s h = h

    pub data_instruction-keeps :
        (f : ℕ) (i : Instruction) (s : SdgState)
        → Holds P s
        → Ok (Holds P) (data_instruction p f i s)
    unfolding data_instruction
    data_instruction-keeps f i s h =
        Ok-if (Holds P) (is_some (Maps.lookup i.id s.inst_node_map)) _ none
          (Ok->>= (Holds P) (Holds P) (for_each (operand p (p.addr (inst_node i.id))) i.operands s)
            _ (Ok-for_each (Holds P) _ (operand-keeps i.id) i.operands s h)
            (λ t q. result_edge-keeps f i.id i.opcode t q))
          tt

    pub generate_intra_ddg-keeps :
        (f : Function) (s : SdgState) → Holds P s → Ok (Holds P) (generate_intra_ddg p f s)
    unfolding generate_intra_ddg
    generate_intra_ddg-keeps f s h =
        Ok-for_each (Holds P) (data_instruction p f.id) (data_instruction-keeps f.id)
          (instructions f) s h
