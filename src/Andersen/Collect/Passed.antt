-- ===== src/Andersen/Collect/Passed.antt =====
-- andersen/lib/ConstraintCollect.cpp: the constraints of the arguments of direct calls.
use programslicer.Common.{
  ℕ, ◌≡◌, inl, inr, refl, Bool, true, false, ◌||◌, some, List, [], ◌∷◌, if◌then◌else◌, ◌>>=◌, arith,
  subst, Option-cases, Bool-cases, Yields, fails, yields, Yields->>=, Yields-any, Yields-if,
  Yields-for_each, Yields-map, Yields-both, branch,
}
use mathlib.Core.Option.{some-injective}
use programslicer.NodeFactory.{Value, plain, universal_ptr_index}
use programslicer.Andersen.Constraint.{copy}
use programslicer.Andersen.Code.{
  Module, Function, Argument, Instruction, Operand, CallSite, function_at,
}
use programslicer.Andersen.Collect.{Collector, add, value_node}
use programslicer.Andersen.Collect.Calls.{
  pass_argument, pass_arguments, add_argument_constraint_for_call, call_direct,
  add_constraint_for_call,
}
use programslicer.Andersen.Collect.Valid.{IsValid, Extends, Keeps, Extends-refl}
use programslicer.Andersen.Collect.Keeps.{Keeps-trans}
use programslicer.Andersen.Collect.Keeps.Calls.{
  pass_argument-Keeps, pass_vararg-Keeps, return_result-Keeps,
}
use programslicer.Andersen.Collect.Places.{
  Found, value_node-Found, of_value, of_return, universal, Joined, add-Joined, Joined-Extends,
}
use programslicer.Andersen.Collect.Demands.{Defines, Passed, passed_from}
use programslicer.Andersen.Collect.Returned.{AllReturned, return_result-Joined}

-- The constraint of a formal argument, if it is a pointer.
abbrev pub PassedTo : Argument → Operand → Collector → Type 0
PassedTo formal actual t =
    formal.is_pointer ≡ true → Joined copy (of_value (plain formal.address)) (passed_from actual) t

PassedTo-Extends :
    (formal : Argument) (actual : Operand) (s t : Collector)
    → Extends s t
    → PassedTo formal actual s
    → PassedTo formal actual t
PassedTo-Extends formal actual s t ext passed pointer =
    Joined-Extends copy (of_value (plain formal.address)) (passed_from actual) s t ext
      (passed pointer)

pass_actual :
    (formal : Argument) (v : Value) (b : Bool) (d : ℕ) (s : Collector)
    → Found (plain formal.address) s d
    → Yields
        (λ t. Joined copy (of_value (plain formal.address)) (if b then of_value v else universal) t)
        (if b
          then (value_node v s >>= λ r. some (add copy d r s))
          else some (add copy d universal_ptr_index s))
pass_actual formal v true d s at_d = Yields->>= (value_node-Found v s) (λ r at_r.
    yields (add-Joined copy (of_value (plain formal.address)) (of_value v) d r s at_d at_r))
pass_actual formal v false d s at_d =
    yields (
      add-Joined copy (of_value (plain formal.address)) universal d universal_ptr_index s at_d refl)

pass_argument-Joined :
    (formal : Argument) (actual : Operand) (s : Collector)
    → Yields (PassedTo formal actual) (pass_argument formal actual s)
unfolding pass_argument
pass_argument-Joined formal actual s =
    branch (Yields (PassedTo formal actual)) formal.is_pointer
      (λ _. Yields->>= (value_node-Found (plain formal.address) s) (λ d at_d.
        Yields-map (pass_actual formal actual.value actual.is_pointer d s at_d)
          (λ t joined _. joined)))
      (λ no_pointer. yields (λ pointer. absurd (ground arith)))

-- The constraints of all the arguments that stand at the same place.
abbrev pub AllPassed : List Argument → List Operand → Collector → Type 0
AllPassed formals actuals t =
    (formal : Argument) (actual : Operand)
    → Passed formal actual formals actuals
    → PassedTo formal actual t

pass_arguments-AllPassed :
    (formals : List Argument) (actuals : List Operand) (s : Collector)
    → IsValid s
    → Yields
        (λ (rest, t). Keeps s t × AllPassed formals actuals t)
        (pass_arguments formals actuals s)
unfolding pass_arguments
pass_arguments-AllPassed [] actuals s v =
    yields ((v, Extends-refl s), λ formal actual among. absurd among)
pass_arguments-AllPassed (x ∷ xs) [] s v =
    yields ((v, Extends-refl s), λ formal actual among. absurd among)
pass_arguments-AllPassed (x ∷ xs) (y ∷ ys) s v =
    Yields->>=
      (Yields-both (pass_argument-Keeps s x y s (v, Extends-refl s)) (pass_argument-Joined x y s))
      (λ s₁ (keeps₁, first).
        Yields-map (pass_arguments-AllPassed xs ys s₁ keeps₁.0) (λ (rest, t) (keeps, all). (
          Keeps-trans s s₁ t keeps₁ keeps,
          λ formal actual among. elim among [
            | inl (e, e') ↦
                subst (λ a. PassedTo a actual t) e
                  (subst (λ b. PassedTo x b t) e' (PassedTo-Extends x y s₁ t keeps.1 first))
            | inr later ↦ all formal actual later
          ],
        )))

add_argument_constraint_for_call-AllPassed :
    (cs : CallSite) (g : Function) (s : Collector)
    → IsValid s
    → Yields
        (λ t. Keeps s t × AllPassed g.arguments cs.arguments t)
        (add_argument_constraint_for_call cs g s)
unfolding add_argument_constraint_for_call
add_argument_constraint_for_call-AllPassed cs g s v =
    Yields->>= (pass_arguments-AllPassed g.arguments cs.arguments s v) (λ (rest, s₁) (keeps₁, all).
      Yields-if g.is_var_arg
        (Yields-map (Yields-for_each (pass_vararg-Keeps s₁ g) rest s₁ (keeps₁.0, Extends-refl s₁))
          (λ t keeps. (
            Keeps-trans s s₁ t keeps₁ keeps,
            λ formal actual among.
                PassedTo-Extends formal actual s₁ t keeps.1 (all formal actual among),
          )))
        (yields (keeps₁, all)))

module _ (m : Module) (cs : CallSite) (g : Function) (s : Collector) (v : IsValid s) where
  call_direct-AllPassed :
      (g.is_declaration || g.is_intrinsic) ≡ false
      → Yields
          (λ t. AllReturned cs.instruction g t × AllPassed g.arguments cs.arguments t)
          (call_direct m cs g s)
  unfolding call_direct
  call_direct-AllPassed defined = rw defined (
      Yields->>=
        (Yields-both (return_result-Keeps s m cs g s (v, Extends-refl s))
          (return_result-Joined cs g s))
        (λ s₁ (keeps₁, returned).
          Yields-map (add_argument_constraint_for_call-AllPassed cs g s₁ keeps₁.0)
            (λ t (keeps, all). (
              λ pointer.
                  Joined-Extends copy (of_value (plain cs.instruction.address))
                    (of_return g.address) s₁ t keeps.1 (returned pointer),
              all,
            ))))

module _ (m : Module) (inst : Instruction) (f : Function) (a : ℕ) (args : List Operand)
    (s : Collector) (v : IsValid s) where
  pub add_constraint_for_call-AllPassed :
      Yields
        (λ t. (g : Function) → Defines m a g → AllReturned inst g t × AllPassed g.arguments args t)
        (add_constraint_for_call m
          (record { instruction = inst; parent = f; called = some a; arguments = args })
          s)
  unfolding add_constraint_for_call
  add_constraint_for_call-AllPassed = elim (Option-cases (function_at m.functions a)) [
    | inl missing ↦ rw missing fails
    | inr (h, e) ↦ elim (Bool-cases (h.is_declaration || h.is_intrinsic)) [
      | inl outside ↦
          rw e (Yields-map (Yields-any _) (λ t _ g (e', defined). absurd (ground arith)))
      | inr defined ↦ rw e (
          Yields-map (call_direct-AllPassed m _ h s v defined) (λ t both g (e', _).
            subst (λ k. AllReturned inst k t × AllPassed k.arguments args t) (some-injective _ _ e')
              both))
    ]
  ]
