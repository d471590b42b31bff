-- ===== src/Sdg/Build.antt =====
-- SDG.cpp, `runOnModule`. The printing of the graph between steps 3 and 4 is left out.
use programslicer.Common.{Option, some, List, ◌>>=◌, for_each}
use programslicer.Ir.{Value, Function, Module}
use programslicer.Cdg.{PostDominatorTree}
use programslicer.Sdg.Node.{Placement}
use programslicer.Sdg.State.{SdgState}
use programslicer.Sdg.Control.{control_function}
use programslicer.Sdg.Calls.{call_function}
use programslicer.Sdg.Data.{generate_intra_ddg}
use programslicer.Sdg.Pointer.{generate_def_node_map, generate_pointer_edges}

-- The analyses of LLVM and the AndersenAA pass that the builder asks.
pub record Analyses : Type 0 where
  pub pdt : Function → PostDominatorTree
  pub alias_set : Value → List Value

module _ (p : Placement) (a : Analyses) (m : Module) where
  unfoldable pub run_on_module : SdgState → Option SdgState
  unfolding control_function call_function generate_intra_ddg generate_def_node_map
      generate_pointer_edges
  run_on_module s = do
    s₁ ← for_each (control_function p m a.pdt) m s
    s₂ ← for_each (call_function p m) m s₁
    s₃ ← for_each (generate_intra_ddg p) m s₂
    s₄ ← generate_def_node_map p a.alias_set m s₃
    some (generate_pointer_edges p m s₄)
