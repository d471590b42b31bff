-- ===== src/Sdg/Calls.antt =====
-- SDG.cpp, step 2 of `runOnModule`: call sites. `none` is a failed `assert`, or a null dereference
-- where the called function is not known.
use programslicer.Common.{
  ℕ, Option, none, some, List, [], ◌∷◌, ◌++◌, ◌||◌, ◌>>=◌, for_each, ◌==◌, if◌then◌else◌,
}
use programslicer.Ir.{Value, address, Instruction, Opcode, Block, Function, Module}
use programslicer.Sdg.Edge.{control, call, param_in, param_out}
use programslicer.Sdg.Node.{
  Placement, inst_node, entry_node, callee_input, callee_output, caller_input, caller_output,
}
use programslicer.Sdg.State.{
  SdgState, add_edge, insert_caller_input, insert_caller_output, use_inst, use_entry,
  use_callee_input, use_callee_output, use_site, value_of,
}

-- `inst_begin(F)` to `inst_end(F)`.
unfoldable pub block_instructions : List Block → List Instruction
block_instructions [] = []
block_instructions (b ∷ bs) = b.instructions ++ block_instructions bs

abbrev pub instructions : Function → List Instruction
instructions f = block_instructions f.blocks

unfoldable pub find_function : ℕ → Module → Option Function
find_function a [] = none
find_function a (f ∷ fs) = if f.id == a then some f else find_function a fs

module _ (p : Placement) where
  -- The loop over the operands of the call, beside the arguments of the function.
  unfoldable pub caller_arguments : ℕ → List Value → List ℕ → SdgState → Option SdgState
  unfolding add_edge
  caller_arguments ci [] formals s = some s
  caller_arguments ci (actual ∷ actuals) [] s = none
  caller_arguments ci (actual ∷ actuals) (formal ∷ formals) s =
      let aux = p.addr (caller_input ci (address actual)) in
      let s₁ =
        add_edge (p.addr (inst_node ci)) aux control
          (use_inst ci (insert_caller_input ci (address actual) s)) in
      caller_arguments ci actuals formals
        (add_edge aux (p.addr (callee_input formal)) param_in (use_callee_input formal s₁))

  -- Step 2.1, with its two assertions, and step 2.2.
  unfoldable pub call_site : ℕ → List Value → Function → SdgState → Option SdgState
  unfolding add_edge caller_arguments
  call_site ci actuals cf s =
      let s₁ = use_entry cf.id (use_inst ci s) in
      if value_of ci s₁.inst_node_map == 0 || value_of cf.id s₁.entry_node_map == 0
      then none
      else (do
        s₂ ←
            caller_arguments ci actuals cf.arguments
              (add_edge (p.addr (inst_node ci)) (p.addr (entry_node cf.id)) call s₁)
        let out = p.addr (caller_output ci ci)
        let s₃ =
            add_edge (p.addr (inst_node ci)) out control
              (use_inst ci (insert_caller_output ci ci s₂))
        some (add_edge (p.addr (callee_output cf.id)) out param_out (use_callee_output cf.id s₃)))

  -- What the loop does at an instruction: only a call has nodes of its own.
  unfoldable pub call_opcode : Module → ℕ → Opcode → SdgState → Option SdgState
  unfolding call_site find_function
  call_opcode m ci (Opcode.call callee actuals) s = do
    cf ← find_function callee m
    if cf.is_declaration then some (use_site ci s) else call_site ci actuals cf (use_site ci s)
  call_opcode m ci Opcode.ret s = some s
  call_opcode m ci (Opcode.store v is_pointer) s = some s
  call_opcode m ci Opcode.load s = some s
  call_opcode m ci Opcode.misc s = some s

  unfoldable pub call_instruction : Module → Instruction → SdgState → Option SdgState
  unfolding call_opcode
  call_instruction m i = call_opcode m i.id i.opcode

  unfoldable pub call_function : Module → Function → SdgState → Option SdgState
  unfolding call_instruction block_instructions
  call_function m f = for_each (call_instruction m) (instructions f)
