-- ===== src/Andersen/Collect/Whole.antt =====
-- andersen/lib/ConstraintCollect.cpp, `collectConstraints`.
use programslicer.Common.{◌||◌, Option, some, if◌then◌else◌, ◌>>=◌, for_each}
use programslicer.NodeFactory.{
  universal_ptr_index, universal_obj_index, null_ptr_index, null_object_index, create_value_node,
}
use programslicer.Andersen.Constraint.{addr_of, store}
use programslicer.Andersen.Code.{Module, Function, Instruction}
use programslicer.Andersen.Collect.{Collector, add}
use programslicer.Andersen.Collect.Globals.{create_if, collect_constraints_for_globals}
use programslicer.Andersen.Collect.Instructions.{collect_constraints_for_instruction}

-- The body of the first loop over the instructions.
unfoldable pub create_instruction : Instruction → Collector → Option Collector
create_instruction inst s =
    create_if inst.is_pointer (create_value_node inst.address s.node_factory) s

-- The body of the loop over the functions.
unfoldable pub collect_function : Module → Function → Collector → Option Collector
collect_function m f s =
    let scanned = (do
      s₁ ← for_each create_instruction f.body s
      for_each (collect_constraints_for_instruction m f) f.body s₁) in
    if f.is_declaration || f.is_intrinsic then some s else scanned

-- The constraints on the universal and the null nodes.
abbrev pub first_constraints : Collector → Collector
first_constraints s = add addr_of null_ptr_index null_object_index (
    add store universal_obj_index universal_obj_index
      (add addr_of universal_ptr_index universal_obj_index s))

unfoldable pub collect_constraints : Module → Collector → Option Collector
collect_constraints m s = do
  s₁ ← collect_constraints_for_globals m (first_constraints s)
  for_each (collect_function m) m.functions s₁
