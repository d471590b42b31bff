-- ===== src/Andersen/Collect/Library.antt =====
-- andersen/lib/ExternalLibrary.cpp, `addConstraintForExternalLibrary`: calls of library functions.
use text.Mathlib.Text.{◌==◌ as same_text}
use programslicer.Common.{
  ℕ, Bool, true, false, not, ◌&&◌, ◌||◌, Option, none, some, ◌==◌, if◌then◌else◌, ◌>>=◌,
}
use programslicer.NodeFactory.{
  plain, invalid_index, create_value_node, create_object_node, get_value_node_for,
  get_vararg_node_for,
}
use programslicer.Andersen.Constraint.{addr_of, copy, load, store}
use programslicer.Andersen.Code.{Module, Function, CallSite, function_at, get_argument, is_null}
use programslicer.Andersen.Collect.{Collector, add, valid, value_node}
use programslicer.Andersen.Collect.Names.{
  noop_funcs, malloc_funcs, realloc_funcs, ret_arg0_funcs, ret_arg1_funcs, ret_arg2_funcs,
  memcpy_funcs, convert_funcs, lookup_name,
}

-- The node of an argument of the call.
unfoldable pub argument_node : ℕ → CallSite → Collector → Option ℕ
argument_node n cs s = do arg ← get_argument cs.arguments n; value_node arg.value s

-- `isa<ConstantPointerNull>(cs.getArgument(n))`
unfoldable pub is_null_argument : ℕ → CallSite → Option Bool
is_null_argument n cs = do arg ← get_argument cs.arguments n; some (is_null arg.value)

-- The node of the call's result, which may not be there.
unfoldable pub result_node : CallSite → Collector → Option ℕ
result_node cs s = get_value_node_for (plain cs.instruction.address) s.node_factory

-- Whether the called function, which is dereferenced, is `posix_memalign`.
unfoldable pub is_posix_memalign : Module → CallSite → Option Bool
is_posix_memalign m cs = do
  called ← cs.called
  f ← function_at m.functions called
  some (same_text f.name "posix_memalign")

-- The calls that allocate memory.
unfoldable pub allocate : Module → CallSite → Collector → Option Collector
allocate m cs s = do
  (obj_index, factory) ← create_object_node cs.instruction.address s.node_factory
  let s₁ = record s { node_factory = factory }
  ptr_index ← result_node cs s₁
  let through_argument = (do
    is_memalign ← is_posix_memalign m cs
    ptr ← argument_node 0 cs s₁
    if is_memalign then some (add store ptr obj_index s₁) else none)
  if ptr_index == invalid_index then through_argument else some (add addr_of ptr_index obj_index s₁)

-- The calls that return an argument.
unfoldable pub return_argument : ℕ → CallSite → Collector → Option Collector
return_argument n cs s = do
  ret_index ← value_node (plain cs.instruction.address) s
  arg_index ← argument_node n cs s
  some (add copy ret_index arg_index s)

-- The calls that copy memory.
unfoldable pub copy_memory : CallSite → Collector → Option Collector
copy_memory cs s = do
  arg0_index ← argument_node 0 cs s
  arg1_index ← argument_node 1 cs s
  (temp_index, factory) ← create_value_node 0 s.node_factory
  let s₁ =
      add store arg0_index temp_index
        (add load temp_index arg1_index (record s { node_factory = factory }))
  ret_index ← result_node cs s₁
  some (if ret_index == invalid_index then s₁ else add copy ret_index arg0_index s₁)

-- The calls that convert text to a number.
unfoldable pub convert : CallSite → Collector → Option Collector
convert cs s = do
  no_end ← is_null_argument 1 cs
  let with_end = (do
    arg0_index ← argument_node 0 cs s
    arg1_index ← argument_node 1 cs s
    some (add store arg0_index arg1_index s))
  if no_end then some s else with_end

-- `llvm.va_start`
unfoldable pub start_varargs : CallSite → Collector → Option Collector
start_varargs cs s = do
  arg0_index ← argument_node 0 cs s
  va_index ← valid (get_vararg_node_for cs.parent.address s.node_factory)
  if cs.parent.is_var_arg then some (add addr_of arg0_index va_index s) else none

-- A known function, whose constraints have been added.
abbrev pub known : Option Collector → Option (Bool × Collector)
known m = do s ← m; some (true, s)

-- The choice by the tables, where `null_first` says whether the first argument of a function like
-- `realloc` is null.
unfoldable pub by_name : Module → CallSite → Function → Bool → Collector → Option (Bool × Collector)
by_name m cs f null_first s =
    let is_realloc_like = lookup_name realloc_funcs f.name in
    if lookup_name malloc_funcs f.name || is_realloc_like && not null_first
    then known (allocate m cs s)
    else if lookup_name ret_arg0_funcs f.name || is_realloc_like && null_first
    then known (return_argument 0 cs s)
    else if lookup_name ret_arg1_funcs f.name
    then known (return_argument 1 cs s)
    else if lookup_name ret_arg2_funcs f.name
    then known (return_argument 2 cs s)
    else if lookup_name memcpy_funcs f.name
    then known (copy_memory cs s)
    else if lookup_name convert_funcs f.name
    then known (convert cs s)
    else if same_text f.name "llvm.va_start"
    then known (start_varargs cs s)
    else some (false, s)

-- Whether the function is known, and the constraints with those of the call.
unfoldable pub add_constraint_for_external_library :
    Module → CallSite → Function → Collector → Option (Bool × Collector)
add_constraint_for_external_library m cs f s =
    let by_tables = (do
      null_first ← (if lookup_name realloc_funcs f.name then is_null_argument 0 cs else some false)
      by_name m cs f null_first s) in
    if not (f.is_declaration || f.is_intrinsic)
    then none
    else if lookup_name noop_funcs f.name
    then some (true, s)
    else by_tables
