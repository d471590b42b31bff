-- ===== src/Tests/Builder.antt =====
-- SDG.cpp: an example.
use programslicer.Common.{
  ℕ, ◌≡◌, inl, inr, refl, true, false, Option, none, some, is_some, arith, List, [], ◌∷◌,
}
use programslicer.DirectedGraph.{empty, succ_edge}
use programslicer.DirectedGraph.Laws.{empty-IsValid}
use programslicer.Ir.{Value, Opcode, Instruction, Function, Module}
use programslicer.Sdg.Edge.{flow}
use programslicer.Sdg.Node.{inst_node, emplace}
use programslicer.Sdg.State.{SdgState}
use programslicer.Sdg.Calls.{block_instructions}
use programslicer.Sdg.Build.{Analyses, run_on_module}
use programslicer.Sdg.Shape.{Shape, run_on_module-Shape}
use programslicer.Sdg.Complete.{run_on_module-Flows}
use programslicer.Tests.Placing.{placement}

abbrev instruction : ℕ → Opcode → List Value → Instruction
instruction i opcode operands = record { id = i; opcode = opcode; operands = operands }

-- `caller` stores to a variable, calls `callee` with it, and loads it.
abbrev caller : Function
caller = record {
  id = 1;
  name = 1;
  is_declaration = false;
  arguments = [];
  blocks =
      record {
        id = 10;
        parent = 1;
        instructions =
            instruction 11 Opcode.misc []
            ∷ instruction 12 (Opcode.store (Value.instruction 11) true) (Value.instruction 11 ∷ [])
            ∷ instruction 13 (Opcode.call 2 (Value.instruction 11 ∷ [])) (Value.instruction 11 ∷ [])
            ∷ instruction 14 Opcode.load (Value.instruction 11 ∷ [])
            ∷ instruction 15 Opcode.ret (Value.instruction 14 ∷ [])
            ∷ [];
        successors = [];
      }
      ∷ [];
}

abbrev callee : Function
callee = record {
  id = 2;
  name = 2;
  is_declaration = false;
  arguments = 25 ∷ [];
  blocks =
      record {
        id = 20;
        parent = 2;
        instructions = instruction 21 Opcode.ret (Value.argument 25 ∷ []) ∷ [];
        successors = [];
      }
      ∷ [];
}

abbrev two_functions : Module
two_functions = caller ∷ callee ∷ []

abbrev analyses : Analyses
analyses = record {
  pdt = λ f. record { get_node = λ b. some b; get_idom = λ x. none; get_block = λ x. x };
  alias_set = λ v. v ∷ [];
}

abbrev new_sdg : SdgState
new_sdg = record {
  graph = empty;
  inst_node_map = [];
  entry_node_map = [];
  callee_input_node_map = [];
  caller_input_node_map = [];
  callee_output_node_map = [];
  caller_output_node_map = [];
  def_node_map = [];
  cdg = empty;
}

result :
    (s : SdgState) (o : Option SdgState)
    → is_some o ≡ true
    → o ≡ some (elim o [ none ↦ s | some t ↦ t ])
result s none h = ground arith
result s (some t) h = refl

abbrev built_sdg : SdgState
built_sdg = elim (run_on_module placement analyses two_functions new_sdg) [
  | none ↦ new_sdg
  | some s ↦ s
]

built_sdg-built : run_on_module placement analyses two_functions new_sdg ≡ some built_sdg
unfolding run_on_module emplace
built_sdg-built = result new_sdg (run_on_module placement analyses two_functions new_sdg) refl

run_on_module-Shape_example : Shape placement built_sdg.graph built_sdg.def_node_map
run_on_module-Shape_example =
    run_on_module-Shape placement analyses two_functions new_sdg built_sdg built_sdg-built
      (empty-IsValid, (λ x y e h. ground arith), tt)

run_on_module-Flows_example :
    succ_edge built_sdg.graph (placement.addr (inst_node 14)) (placement.addr (inst_node 15))
    ≡ some (some flow)
unfolding block_instructions
run_on_module-Flows_example =
    run_on_module-Flows placement 14 (instruction 15 Opcode.ret (Value.instruction 14 ∷ []))
      analyses two_functions caller new_sdg built_sdg (inl refl) (inr (inr (inr (inr (inl refl)))))
      (inl refl) built_sdg-built
