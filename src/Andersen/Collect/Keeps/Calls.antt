-- ===== src/Andersen/Collect/Keeps/Calls.antt =====
-- andersen/lib/ConstraintCollect.cpp, `addConstraintForCall`: calls keep the state valid.
use programslicer.Common.{
  ℕ, ◌<◌, not, ◌&&◌, ◌||◌, Option, none, some, List, [], ◌∷◌, ◌==◌, ◌>>=◌, arith, length, Yields,
  yields, Yields->>=, Yields-any, Yields-if, Yields-for_each,
}
use programslicer.NodeFactory.{
  plain, constant, global_value, invalid_index, universal_ptr_index, get_value_node_for,
}
use programslicer.Andersen.Constraint.{copy}
use programslicer.Andersen.Code.{Module, Function, Argument, Operand, CallSite, function_at}
use programslicer.Andersen.Collect.{Collector}
use programslicer.Andersen.Collect.Calls.{
  pass_argument, pass_arguments, pass_vararg, add_argument_constraint_for_call, unknown_result,
  unknown_argument, unknown_pointer, call_external, return_result, call_direct, call_candidate,
  try_function, call_indirect, add_constraint_for_call,
}
use programslicer.Andersen.Collect.Valid.{size, Keeps, value_node-bound, valid-found}
use programslicer.Andersen.Collect.Keeps.{added}
use programslicer.Andersen.Collect.Keeps.Library.{add_constraint_for_external_library-Keeps}

module _ (k : Collector) where
  universal : (s : Collector) → Keeps k s → universal_ptr_index < size s
  universal s (v, _) = omega (arith, v.base)

  pub pass_argument-Keeps :
      (formal : Argument) (actual : Operand) (s : Collector)
      → Keeps k s
      → Yields (Keeps k) (pass_argument formal actual s)
  unfolding pass_argument
  pass_argument-Keeps formal actual s keeps =
      Yields-if formal.is_pointer
        (Yields->>= (value_node-bound (plain formal.address) s keeps.0) (λ d hd.
          Yields-if actual.is_pointer
            (Yields->>= (value_node-bound actual.value s keeps.0) (λ r hr. added copy keeps hd hr))
            (added copy keeps hd (universal s keeps))))
        (yields keeps)

  pass_arguments-Keeps :
      (formals : List Argument) (actuals : List Operand) (s : Collector)
      → Keeps k s
      → Yields (λ (rest, s'). Keeps k s') (pass_arguments formals actuals s)
  unfolding pass_arguments
  pass_arguments-Keeps [] actuals s keeps = yields keeps
  pass_arguments-Keeps (formal ∷ formals) [] s keeps = yields keeps
  pass_arguments-Keeps (formal ∷ formals) (actual ∷ actuals) s keeps =
      Yields->>= (pass_argument-Keeps formal actual s keeps)
        (λ s' keeps'. pass_arguments-Keeps formals actuals s' keeps')

  pub pass_vararg-Keeps :
      (f : Function) (actual : Operand) (s : Collector)
      → Keeps k s
      → Yields (Keeps k) (pass_vararg f actual s)
  unfolding pass_vararg
  pass_vararg-Keeps f actual s keeps =
      Yields-if actual.is_pointer
        (Yields->>= (value_node-bound actual.value s keeps.0) (λ r hr.
          Yields->>= (valid-found (size s) f.address s.node_factory.vararg_map keeps.0.varargs)
            (λ d hd. added copy keeps hd hr)))
        (yields keeps)

  add_argument_constraint_for_call-Keeps :
      (cs : CallSite) (f : Function) (s : Collector)
      → Keeps k s
      → Yields (Keeps k) (add_argument_constraint_for_call cs f s)
  unfolding add_argument_constraint_for_call
  add_argument_constraint_for_call-Keeps cs f s keeps =
      Yields->>= (pass_arguments-Keeps f.arguments cs.arguments s keeps) (λ (rest, s₁) keeps₁.
        Yields-if f.is_var_arg (Yields-for_each (pass_vararg-Keeps f) rest s₁ keeps₁)
          (yields keeps₁))

  pub unknown_result-Keeps :
      (cs : CallSite) (s : Collector) → Keeps k s → Yields (Keeps k) (unknown_result cs s)
  unfolding unknown_result
  unknown_result-Keeps cs s keeps =
      Yields-if cs.instruction.is_pointer
        (Yields->>= (value_node-bound (plain cs.instruction.address) s keeps.0)
          (λ d hd. added copy keeps hd (universal s keeps)))
        (yields keeps)

  unknown_argument-Keeps :
      (arg : Operand) (s : Collector) → Keeps k s → Yields (Keeps k) (unknown_argument arg s)
  unfolding unknown_argument
  unknown_argument-Keeps arg s keeps =
      Yields->>= (value_node-bound arg.value s keeps.0)
        (λ d hd. added copy keeps hd (universal s keeps))

  unknown_pointer-Keeps :
      (arg : Operand) (s : Collector) → Keeps k s → Yields (Keeps k) (unknown_pointer arg s)
  unfolding unknown_pointer
  unknown_pointer-Keeps arg s keeps =
      Yields-if arg.is_pointer (unknown_argument-Keeps arg s keeps) (yields keeps)

  module _ (m : Module) (cs : CallSite) where
    call_external-Keeps :
        (f : Function) (s : Collector) → Keeps k s → Yields (Keeps k) (call_external m cs f s)
    unfolding call_external
    call_external-Keeps f s keeps =
        Yields->>= (add_constraint_for_external_library-Keeps k cs s keeps m f)
          (λ (is_known, s₁) keeps₁. Yields-if is_known (yields keeps₁) (
            Yields->>= (unknown_result-Keeps cs s₁ keeps₁)
              (λ s₂ keeps₂. Yields-for_each unknown_pointer-Keeps cs.arguments s₂ keeps₂)))

    pub return_result-Keeps :
        (f : Function) (s : Collector) → Keeps k s → Yields (Keeps k) (return_result cs f s)
    unfolding return_result
    return_result-Keeps f s keeps =
        Yields-if cs.instruction.is_pointer
          (Yields->>= (value_node-bound (plain cs.instruction.address) s keeps.0) (λ d hd.
            Yields->>= (valid-found (size s) f.address s.node_factory.return_map keeps.0.returns)
              (λ r hr. added copy keeps hd hr)))
          (yields keeps)

    call_direct-Keeps :
        (f : Function) (s : Collector) → Keeps k s → Yields (Keeps k) (call_direct m cs f s)
    unfolding call_direct
    call_direct-Keeps f s keeps =
        Yields-if (f.is_declaration || f.is_intrinsic) (call_external-Keeps f s keeps) (
          Yields->>= (return_result-Keeps f s keeps)
            (λ s₁ keeps₁. add_argument_constraint_for_call-Keeps cs f s₁ keeps₁))

    call_candidate-Keeps :
        (f : Function) (s : Collector) → Keeps k s → Yields (Keeps k) (call_candidate m cs f s)
    unfolding call_candidate
    call_candidate-Keeps f s keeps =
        Yields-if (f.is_declaration || f.is_intrinsic)
          (Yields->>= (add_constraint_for_external_library-Keeps k cs s keeps m f)
            (λ (is_known, s₁) keeps₁.
              Yields-if is_known (yields keeps₁)
                (Yields-for_each unknown_argument-Keeps cs.arguments s₁ keeps₁)))
          (add_argument_constraint_for_call-Keeps cs f s keeps)

    pub try_function-Keeps :
        (f : Function) (s : Collector) → Keeps k s → Yields (Keeps k) (try_function m cs f s)
    unfolding try_function
    try_function-Keeps f s keeps =
        Yields->>=
          (Yields-any (get_value_node_for (constant (global_value f.address)) s.node_factory))
          (λ index _. Yields-if (index == invalid_index) (yields keeps) (
            Yields-if (not f.is_var_arg && not (length f.arguments == length cs.arguments))
              (yields keeps) (call_candidate-Keeps f s keeps)))

    call_indirect-Keeps : (s : Collector) → Keeps k s → Yields (Keeps k) (call_indirect m cs s)
    unfolding call_indirect
    call_indirect-Keeps s keeps =
        Yields->>= (unknown_result-Keeps cs s keeps)
          (λ s₁ keeps₁. Yields-for_each try_function-Keeps m.functions s₁ keeps₁)

    by_called :
        (called : Option ℕ) (s : Collector)
        → Keeps k s
        → Yields (Keeps k) (elim called [
          | none ↦ call_indirect m cs s
          | some a ↦ function_at m.functions a >>= λ f. call_direct m cs f s
        ])
    by_called none s keeps = call_indirect-Keeps s keeps
    by_called (some a) s keeps =
        Yields->>= (Yields-any (function_at m.functions a)) (λ f _. call_direct-Keeps f s keeps)

    pub add_constraint_for_call-Keeps :
        (s : Collector) → Keeps k s → Yields (Keeps k) (add_constraint_for_call m cs s)
    unfolding add_constraint_for_call
    add_constraint_for_call-Keeps s keeps = by_called cs.called s keeps
