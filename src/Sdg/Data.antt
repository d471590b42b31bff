-- ===== src/Sdg/Data.antt =====
-- SDG.cpp, `generateIntraDDG`: data dependence without pointers. `none` is a failed `assert`.
use programslicer.Common.{ℕ, Option, none, some, ◌>>=◌, for_each, if◌then◌else◌, is_some}
use programslicer.Common.Maps
use programslicer.Ir.{Value, Instruction, Opcode, Function}
use programslicer.Sdg.Edge.{flow}
use programslicer.Sdg.Node.{Placement, inst_node, callee_input, callee_output, caller_output}
use programslicer.Sdg.State.{SdgState, add_edge, use_callee_output, use_caller_output}
use programslicer.Sdg.Calls.{instructions}

module _ (p : Placement) where
  -- The loop over the operands; `dst` is the node of the user.
  unfoldable pub operand : ℕ → Value → SdgState → Option SdgState
  unfolding add_edge
  operand dst (Value.instruction d) s =
      if is_some (Maps.lookup d s.inst_node_map)
      then some (add_edge (p.addr (inst_node d)) dst flow s)
      else none
  operand dst (Value.argument a) s =
      if is_some (Maps.lookup a s.callee_input_node_map)
      then some (add_edge (p.addr (callee_input a)) dst flow s)
      else none
  operand dst (Value.other v) s = some s

  -- The edges of a return and of a call.
  unfoldable pub result_edge : ℕ → ℕ → Opcode → SdgState → SdgState
  unfolding add_edge
  result_edge f i Opcode.ret s =
      add_edge (p.addr (inst_node i)) (p.addr (callee_output f)) flow (use_callee_output f s)
  result_edge f i (Opcode.call callee actuals) s =
      add_edge (p.addr (caller_output i i)) (p.addr (inst_node i)) flow (use_caller_output i i s)
  result_edge f i (Opcode.store v is_pointer) s = s
  result_edge f i Opcode.load s = s
  result_edge f i Opcode.misc s = s

  unfoldable pub data_instruction : ℕ → Instruction → SdgState → Option SdgState
  unfolding operand result_edge
  data_instruction f i s =
      if is_some (Maps.lookup i.id s.inst_node_map)
      then (do
        s' ← for_each (operand (p.addr (inst_node i.id))) i.operands s
        some (result_edge f i.id i.opcode s'))
      else none

  unfoldable pub generate_intra_ddg : Function → SdgState → Option SdgState
  unfolding data_instruction
  generate_intra_ddg f = for_each (data_instruction f.id) (instructions f)
