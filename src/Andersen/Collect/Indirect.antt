-- ===== src/Andersen/Collect/Indirect.antt =====
-- andersen/lib/ConstraintCollect.cpp: the constraint of an indirect call's result.
use programslicer.Common.{
  ◌≡◌, refl, true, none, List, arith, Yields, yields, Yields->>=, Yields-for_each, Yields-map,
  Yields-both, branch,
}
use programslicer.NodeFactory.{plain, universal_ptr_index}
use programslicer.Andersen.Constraint.{copy}
use programslicer.Andersen.Code.{Module, Function, Instruction, Operand, CallSite}
use programslicer.Andersen.Collect.{Collector}
use programslicer.Andersen.Collect.Calls.{unknown_result, call_indirect, add_constraint_for_call}
use programslicer.Andersen.Collect.Valid.{IsValid, Extends-refl}
use programslicer.Andersen.Collect.Keeps.Calls.{unknown_result-Keeps, try_function-Keeps}
use programslicer.Andersen.Collect.Places.{
  value_node-Found, of_value, universal, Joined, add-Joined, Joined-Extends,
}

-- The result, if it is a pointer, can be anything.
abbrev pub AnyReturned : Instruction → Collector → Type 0
AnyReturned inst t =
    inst.is_pointer ≡ true → Joined copy (of_value (plain inst.address)) universal t

unknown_result-Joined :
    (cs : CallSite) (s : Collector) → Yields (AnyReturned cs.instruction) (unknown_result cs s)
unfolding unknown_result
unknown_result-Joined cs s =
    branch (Yields (AnyReturned cs.instruction)) cs.instruction.is_pointer
      (λ _. Yields->>= (value_node-Found (plain cs.instruction.address) s) (λ d at_d. yields (λ _.
        add-Joined copy (of_value (plain cs.instruction.address)) universal d universal_ptr_index s
          at_d refl)))
      (λ no_pointer. yields (λ pointer. absurd (ground arith)))

call_indirect-AnyReturned :
    (m : Module) (cs : CallSite) (s : Collector)
    → IsValid s
    → Yields (AnyReturned cs.instruction) (call_indirect m cs s)
unfolding call_indirect
call_indirect-AnyReturned m cs s v =
    Yields->>=
      (Yields-both (unknown_result-Keeps s cs s (v, Extends-refl s)) (unknown_result-Joined cs s))
      (λ s₁ (keeps₁, first).
        Yields-map
          (Yields-for_each (try_function-Keeps s₁ m cs) m.functions s₁ (keeps₁.0, Extends-refl s₁))
          (λ t keeps pointer.
            Joined-Extends copy (of_value (plain cs.instruction.address)) universal s₁ t keeps.1
              (first pointer)))

pub add_constraint_for_call-AnyReturned :
    (m : Module) (inst : Instruction) (f : Function) (args : List Operand) (s : Collector)
    → IsValid s
    → Yields (AnyReturned inst) (
        add_constraint_for_call m
          (record { instruction = inst; parent = f; called = none; arguments = args })
          s)
unfolding add_constraint_for_call
add_constraint_for_call-AnyReturned m inst f args s v = call_indirect-AnyReturned m _ s v
