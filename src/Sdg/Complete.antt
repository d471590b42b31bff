-- ===== src/Sdg/Complete.antt =====
-- SDG.cpp, `runOnModule`: the dependences that the graph is sure to hold at the end.
use programslicer.Common.{
  ℕ, ◌≡◌, refl, none, some, List, [], ◌∷◌, arith, Ok, Ok-some, Any, for_each, Ok-establishes,
  Ok->>=, Ok-any, Ok-if, is_some, ==_refl, All,
}
use programslicer.Common.Maps
use programslicer.Common.Maps.{Map}
use programslicer.DirectedGraph.{DirectedGraph, insert, succ_edge}
use programslicer.DirectedGraph.Laws.{succ_edge-insert}
use programslicer.Ir.{Module, Function, Instruction, Value}
use programslicer.Sdg.Edge.{flow}
use programslicer.Sdg.Node.{Placement, inst_node}
use programslicer.Sdg.State.{SdgState, add_edge}
use programslicer.Sdg.Calls.{instructions}
use programslicer.Sdg.Control.{control_function}
use programslicer.Sdg.Calls.{call_function}
use programslicer.Sdg.Pointer.{generate_def_node_map}
use programslicer.Sdg.Data.{operand, data_instruction, generate_intra_ddg}
use programslicer.Sdg.Build.{Analyses, run_on_module}
use programslicer.Sdg.Keeps.{
  DataEdges, Holds, Sources, operand-keeps, result_edge-keeps, data_instruction-keeps,
  generate_intra_ddg-keeps, generate_def_node_map-keeps, generate_pointer_edges-keeps,
}

abbrev Anything : ℕ → Type 0
Anything _ = Unit {0}

All-any : (xs : List ℕ) → All Anything xs
All-any [] = tt
All-any (x ∷ xs) = (tt, All-any xs)

Sources-any : (defs : Map (List ℕ)) → Sources Anything defs
Sources-any [] = tt
Sources-any ((d, srcs) ∷ defs) = (All-any srcs, Sources-any defs)

-- The edge from a definition to its user reads `flow`.
abbrev Flows : Placement → ℕ → ℕ → DirectedGraph ℕ → Type 0
Flows p d i g = succ_edge g (p.addr (inst_node d)) (p.addr (inst_node i)) ≡ some (some flow)

abbrev IsFlow : ℕ → ℕ → ℕ → Type 0
IsFlow src dst attr = attr ≡ flow

IsFlow-edges : (p : Placement) → DataEdges p IsFlow
IsFlow-edges p = record {
  def_use = λ i j. refl;
  argument_use = λ a j. refl;
  return_value = λ i f. refl;
  call_value = λ c v j. refl;
}

Flows-insert :
    (p : Placement) (d i src dst attr : ℕ) (g : DirectedGraph ℕ)
    → attr ≡ flow
    → Flows p d i g
    → Flows p d i (insert src dst (some attr) g)
Flows-insert p d i src dst attr g e h =
    ground
      (arith, succ_edge-insert src dst (p.addr (inst_node d)) (p.addr (inst_node i)) (some attr) g)

module _ (p : Placement) (d : ℕ) (i : Instruction) where
  abbrev F : DirectedGraph ℕ → Map (List ℕ) → Type 0
  F g defs = Flows p d i.id g

  keep :
      (src dst attr : ℕ) (g : DirectedGraph ℕ) (defs : Map (List ℕ))
      → IsFlow src dst attr
      → F g defs
      → F (insert src dst (some attr) g) defs
  keep src dst attr g defs e h = Flows-insert p d i.id src dst attr g e h

  operand-Flows :
      (s : SdgState) → Ok (Holds F) (operand p (p.addr (inst_node i.id)) (Value.instruction d) s)
  unfolding operand add_edge
  operand-Flows s =
      let src = p.addr (inst_node d) in
      let dst = p.addr (inst_node i.id) in
      Ok-if (Holds F) (is_some (Maps.lookup d s.inst_node_map)) _ none
        (ground
          (arith, succ_edge-insert src dst src dst (some flow) s.graph, ==_refl src, ==_refl dst))
        tt

  data_instruction-Flows :
      (f : ℕ) (s : SdgState)
      → Any (λ v. v ≡ Value.instruction d) i.operands
      → Ok (Holds F) (data_instruction p f i s)
  unfolding data_instruction
  data_instruction-Flows f s among =
      Ok-if (Holds F) (is_some (Maps.lookup i.id s.inst_node_map)) _ none
        (Ok->>= (Holds F) (Holds F) (for_each (operand p (p.addr (inst_node i.id))) i.operands s) _
          (Ok-establishes (Holds F) (operand p (p.addr (inst_node i.id))) (Value.instruction d)
            operand-Flows (operand-keeps p IsFlow F keep (IsFlow-edges p) i.id) i.operands among s)
          (λ t q. result_edge-keeps p IsFlow F keep (IsFlow-edges p) f i.id i.opcode t q))
        tt

  generate_intra_ddg-Flows :
      (f : Function) (s : SdgState)
      → Any (λ j. j ≡ i) (instructions f)
      → Any (λ v. v ≡ Value.instruction d) i.operands
      → Ok (Holds F) (generate_intra_ddg p f s)
  unfolding generate_intra_ddg
  generate_intra_ddg-Flows f s at_i at_d =
      Ok-establishes (Holds F) (data_instruction p f.id) i (λ t. data_instruction-Flows f.id t at_d)
        (data_instruction-keeps p IsFlow F keep (IsFlow-edges p) f.id) (instructions f) at_i s

  -- If the builder returns, then for every instruction of the module and every instruction among
  -- its operands the graph has an edge from the operand to the user, and it is a flow edge, also
  -- where step 1 had put a control edge there.
  pub run_on_module-Flows :
      (a : Analyses) (m : Module) (f : Function) (s s' : SdgState)
      → Any (λ h. h ≡ f) m
      → Any (λ j. j ≡ i) (instructions f)
      → Any (λ v. v ≡ Value.instruction d) i.operands
      → run_on_module p a m s ≡ some s'
      → succ_edge s'.graph (p.addr (inst_node d)) (p.addr (inst_node i.id)) ≡ some (some flow)
  unfolding run_on_module
  run_on_module-Flows a m f s s' at_f at_i at_d run =
      Ok-some (Holds F) (run_on_module p a m s) s'
        (Ok->>= (λ _. Unit {0}) (Holds F) (for_each (control_function p m a.pdt) m s) _ (Ok-any _)
          (λ s₁ _.
            Ok->>= (λ _. Unit {0}) (Holds F) (for_each (call_function p m) m s₁) _ (Ok-any _)
              (λ s₂ _.
                Ok->>= (Holds F) (Holds F) (for_each (generate_intra_ddg p) m s₂) _
                  (Ok-establishes (Holds F) (generate_intra_ddg p) f
                    (λ t. generate_intra_ddg-Flows f t at_i at_d)
                    (generate_intra_ddg-keeps p IsFlow F keep (IsFlow-edges p)) m at_f s₂)
                  (λ s₃ h₃.
                    Ok->>= (Holds F) (Holds F) (generate_def_node_map p a.alias_set m s₃) _
                      (generate_def_node_map-keeps p IsFlow F keep (λ i n g defs h. h) a.alias_set m
                        s₃ h₃)
                      (λ s₄ h₄.
                        generate_pointer_edges-keeps p IsFlow F keep (λ i n g defs h. h) Anything
                          (λ src i _. refl) m s₄ (Sources-any s₄.def_node_map) h₄)))))
        run
