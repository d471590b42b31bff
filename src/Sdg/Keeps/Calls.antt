-- ===== src/Sdg/Keeps/Calls.antt =====
-- SDG.cpp, step 2: it keeps what its edges keep.
use programslicer.Common.{ℕ, none, some, List, [], ◌∷◌, Ok, Ok->>=, Ok-if, Ok-for_each, Ok-any}
use programslicer.Common.Maps.{Map}
use programslicer.DirectedGraph.{DirectedGraph, insert}
use programslicer.Ir.{Value, address, Opcode, Function, Module}
use programslicer.Sdg.Edge.{control, call, param_in, param_out}
use programslicer.Sdg.Node.{Placement}
use programslicer.Sdg.State.{SdgState, add_edge}
use programslicer.Sdg.Calls.{
  caller_arguments, call_site, call_instruction, call_opcode, call_function, find_function,
  instructions,
}
use programslicer.Sdg.Keeps.Edges.{CallEdges, Holds}

module _ (p : Placement) (A : ℕ → ℕ → ℕ → Type 0) (P : DirectedGraph ℕ → Map (List ℕ) → Type 0)
    (keep : (src dst attr : ℕ) (g : DirectedGraph ℕ) (defs : Map (List ℕ))
      → A src dst attr
      → P g defs
      → P (insert src dst (some attr) g) defs) where
  module _ (edges : CallEdges p A) where
    caller_arguments-keeps :
        (ci : ℕ) (actuals : List Value) (formals : List ℕ) (s : SdgState)
        → Holds P s
        → Ok (Holds P) (caller_arguments p ci actuals formals s)
    unfolding caller_arguments add_edge
    caller_arguments-keeps ci [] formals s h = h
    caller_arguments-keeps ci (actual ∷ actuals) [] s h = tt
    caller_arguments-keeps ci (actual ∷ actuals) (formal ∷ formals) s h =
        caller_arguments-keeps ci actuals formals _ (
          keep _ _ param_in _ _ (edges.to_formal ci (address actual) formal)
            (keep _ _ control _ _ (edges.to_actual ci ci (address actual)) h))

    call_site-keeps :
        (ci : ℕ) (actuals : List Value) (cf : Function) (s : SdgState)
        → Holds P s
        → Ok (Holds P) (call_site p ci actuals cf s)
    unfolding call_site add_edge
    call_site-keeps ci actuals cf s h = Ok-if (Holds P) _ none _ tt (
        Ok->>= (Holds P) (Holds P) (caller_arguments p ci actuals cf.arguments _) _
          (caller_arguments-keeps ci actuals cf.arguments _
            (keep _ _ call _ _ (edges.to_entry ci cf.id) h))
          (λ s₂ h₂.
            keep _ _ param_out _ _ (edges.returned cf.id ci ci)
              (keep _ _ control _ _ (edges.to_return ci ci ci) h₂)))

    pub call_opcode-keeps :
        (m : Module) (ci : ℕ) (op : Opcode) (s : SdgState)
        → Holds P s
        → Ok (Holds P) (call_opcode p m ci op s)
    unfolding call_opcode
    call_opcode-keeps m ci (Opcode.call callee actuals) s h =
        Ok->>= (λ _. Unit {0}) (Holds P) (find_function callee m) _ (Ok-any _)
          (λ cf _. Ok-if (Holds P) cf.is_declaration _ _ h (call_site-keeps ci actuals cf _ h))
    call_opcode-keeps m ci Opcode.ret s h = h
    call_opcode-keeps m ci (Opcode.store v b) s h = h
    call_opcode-keeps m ci Opcode.load s h = h
    call_opcode-keeps m ci Opcode.misc s h = h

    pub call_function-keeps :
        (m : Module) (f : Function) (s : SdgState)
        → Holds P s
        → Ok (Holds P) (call_function p m f s)
    unfolding call_function call_instruction
    call_function-keeps m f s h =
        Ok-for_each (Holds P) (call_instruction p m)
          (λ i t q. call_opcode-keeps m i.id i.opcode t q) (instructions f) s h
