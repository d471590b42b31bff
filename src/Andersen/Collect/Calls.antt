-- ===== src/Andersen/Collect/Calls.antt =====
-- andersen/lib/ConstraintCollect.cpp, `addConstraintForCall` and `addArgumentConstraintForCall`.
use programslicer.Common.{
  not, ◌&&◌, ◌||◌, Option, none, some, List, [], ◌∷◌, ◌==◌, if◌then◌else◌, ◌>>=◌, for_each, length,
}
use programslicer.NodeFactory.{
  plain, constant, global_value, invalid_index, universal_ptr_index, get_value_node_for,
  get_return_node_for, get_vararg_node_for,
}
use programslicer.Andersen.Constraint.{copy}
use programslicer.Andersen.Code.{Module, Function, Argument, Operand, CallSite, function_at}
use programslicer.Andersen.Collect.{Collector, add, valid, value_node}
use programslicer.Andersen.Collect.Library.{add_constraint_for_external_library}

-- The body of the loop over the formal and the actual arguments.
unfoldable pub pass_argument : Argument → Operand → Collector → Option Collector
pass_argument formal actual s =
    let from_actual = (do
      f_index ← value_node (plain formal.address) s
      let from_pointer = (do a_index ← value_node actual.value s; some (add copy f_index a_index s))
      if actual.is_pointer then from_pointer else some (add copy f_index universal_ptr_index s)) in
    if formal.is_pointer then from_actual else some s

-- The loop, and the actual arguments that are left.
unfoldable pub pass_arguments :
    List Argument → List Operand → Collector → Option (List Operand × Collector)
pass_arguments [] actuals s = some (actuals, s)
pass_arguments (formal ∷ formals) [] s = some ([], s)
pass_arguments (formal ∷ formals) (actual ∷ actuals) s = do
  s₁ ← pass_argument formal actual s
  pass_arguments formals actuals s₁

-- The body of the loop over the arguments in the varargs section.
unfoldable pub pass_vararg : Function → Operand → Collector → Option Collector
pass_vararg f actual s =
    let from_pointer = (do
      a_index ← value_node actual.value s
      va_index ← valid (get_vararg_node_for f.address s.node_factory)
      some (add copy va_index a_index s)) in
    if actual.is_pointer then from_pointer else some s

unfoldable pub add_argument_constraint_for_call : CallSite → Function → Collector → Option Collector
add_argument_constraint_for_call cs f s = do
  (rest, s₁) ← pass_arguments f.arguments cs.arguments s
  if f.is_var_arg then for_each (pass_vararg f) rest s₁ else some s₁

-- The result of a call can be anything.
unfoldable pub unknown_result : CallSite → Collector → Option Collector
unknown_result cs s =
    let anything = (do
      ret_index ← value_node (plain cs.instruction.address) s
      some (add copy ret_index universal_ptr_index s)) in
    if cs.instruction.is_pointer then anything else some s

-- And so can an argument.
unfoldable pub unknown_argument : Operand → Collector → Option Collector
unknown_argument arg s = do
  arg_index ← value_node arg.value s
  some (add copy arg_index universal_ptr_index s)

-- The body of the loop over the arguments of an unknown library function.
unfoldable pub unknown_pointer : Operand → Collector → Option Collector
unknown_pointer arg s =
    let polluted = unknown_argument arg s in if arg.is_pointer then polluted else some s

-- A direct call of a library function.
unfoldable pub call_external : Module → CallSite → Function → Collector → Option Collector
call_external m cs f s = do
  (is_known, s₁) ← add_constraint_for_external_library m cs f s
  let unresolved = (do s₂ ← unknown_result cs s₁; for_each unknown_pointer cs.arguments s₂)
  if is_known then some s₁ else unresolved

-- The result of a call of a function that is defined.
unfoldable pub return_result : CallSite → Function → Collector → Option Collector
return_result cs f s =
    let from_function = (do
      ret_index ← value_node (plain cs.instruction.address) s
      f_ret_index ← valid (get_return_node_for f.address s.node_factory)
      some (add copy ret_index f_ret_index s)) in
    if cs.instruction.is_pointer then from_function else some s

unfoldable pub call_direct : Module → CallSite → Function → Collector → Option Collector
call_direct m cs f s =
    let internal = (do s₁ ← return_result cs f s; add_argument_constraint_for_call cs f s₁) in
    if f.is_declaration || f.is_intrinsic then call_external m cs f s else internal

-- An indirect call of a function that may be meant.
unfoldable pub call_candidate : Module → CallSite → Function → Collector → Option Collector
call_candidate m cs f s =
    let external = (do
      (is_known, s₁) ← add_constraint_for_external_library m cs f s
      if is_known then some s₁ else for_each unknown_argument cs.arguments s₁) in
    if f.is_declaration || f.is_intrinsic then external else add_argument_constraint_for_call cs f s

-- The body of the loop over the functions of the module.
unfoldable pub try_function : Module → CallSite → Function → Collector → Option Collector
try_function m cs f s = do
  fun_ptr_index ← get_value_node_for (constant (global_value f.address)) s.node_factory
  let called = call_candidate m cs f s
  if fun_ptr_index == invalid_index
      then some s
      else if not f.is_var_arg && not (length f.arguments == length cs.arguments)
      then some s
      else called

unfoldable pub call_indirect : Module → CallSite → Collector → Option Collector
call_indirect m cs s = do s₁ ← unknown_result cs s; for_each (try_function m cs) m.functions s₁

unfoldable pub add_constraint_for_call : Module → CallSite → Collector → Option Collector
add_constraint_for_call m cs s = elim cs.called [
  | none ↦ call_indirect m cs s
  | some a ↦ do f ← function_at m.functions a; call_direct m cs f s
]
