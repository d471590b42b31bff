-- ===== src/Slice/Run.antt =====
-- BackSlice.cpp and ForwardSlice.cpp, `runOnModule`: the file, if it can be opened, is read, the
-- criterion is marked, the slice is computed and the module is cut down to it. The result is what
-- the pass returns, and the module. `rounds` bounds the loop of `readInit`, which may not end.
use programslicer.Common.{ℕ, Bool, true, false, Option, none, some, List, [], ◌>>=◌}
use programslicer.Ir.{Module}
use programslicer.Sdg.Node.{Placement}
use programslicer.Sdg.State.{SdgState}
use programslicer.Slice.Input.{Stream, Criterion, Marking, read_loop, mark_functions}
use programslicer.Slice.Mark.{mark_vertices_of_back_slice, mark_vertices_of_forward_slice}
use programslicer.Slice.Remove.{back_slice_module, forward_slice_module}

-- The variables of `readInit` before its loop; those without an initial value hold 0.
abbrev pub no_criterion : Criterion
no_criterion = record {
  func_name = 0;
  inst_num = 0;
  lower = 0;
  upper = 0;
  use_range = true;
  to_slice_list = [];
  line_to_bounds = [];
}

module _ (p : Placement) (rounds : ℕ) where
  unfoldable pub read_init : Bool → Module → Stream → List ℕ → SdgState → Option Marking
  unfolding read_loop mark_functions
  read_init bounded m input marked_nodes s = do
    c ← read_loop rounds no_criterion input
    some (
        mark_functions p bounded c m
          (record { marked_nodes = marked_nodes; bounds_map = []; state = s }))

  unfoldable pub back_slice_run_on_module :
      Option Stream → List ℕ → SdgState → Module → Option (Bool × Module)
  unfolding read_init mark_vertices_of_back_slice back_slice_module
  back_slice_run_on_module none marked_nodes s m = some (false, m)
  back_slice_run_on_module (some input) marked_nodes s m = do
    k ← read_init true m input marked_nodes s
    (slice, graph) ← mark_vertices_of_back_slice k.state.graph k.marked_nodes
    m' ← back_slice_module p slice (record k.state { graph = graph }) m
    some (true, m')

  unfoldable pub forward_slice_run_on_module :
      Option Stream → List ℕ → SdgState → Module → Option (Bool × Module)
  unfolding read_init mark_vertices_of_forward_slice forward_slice_module
  forward_slice_run_on_module none marked_nodes s m = some (false, m)
  forward_slice_run_on_module (some input) marked_nodes s m = do
    k ← read_init false m input marked_nodes s
    (slice, graph) ← mark_vertices_of_forward_slice k.state.graph k.marked_nodes
    m' ← forward_slice_module p slice (record k.state { graph = graph }) m
    some (true, m')
