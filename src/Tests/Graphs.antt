-- ===== src/Tests/Graphs.antt =====
-- DirectedGraph.h, BackSlice.cpp, ForwardSlice.cpp: examples.
use programslicer.Common.{ℕ, ◌≡◌, ◌↔◌, true, none, some, List, [], ◌∷◌}
use programslicer.Common.Sets
use programslicer.DirectedGraph.{insert, empty, IsValid}
use programslicer.DirectedGraph.Laws.{empty-IsValid, insert-IsValid}
use programslicer.DirectedGraph.Abstract.{
  Call, insert_call, erase_call, get_succ_set_call, get_pred_set_call, Refines, run, view_run,
  no_edges, run-Refines,
}
use programslicer.Sdg.Edge.{control, flow, call, param_out}
use programslicer.Slice.Mark.{
  back, forward, Sdg, mark_reaching_vertices, mark_vertices_of_back_slice,
  mark_vertices_of_forward_slice, mark_reaching_vertices_for_back_slice,
  mark_reaching_vertices_for_forward_slice,
}
use programslicer.Slice.Mark.Neighbours.{Reaches}
use programslicer.Slice.Mark.Phases.{InSlice}
use programslicer.Slice.Mark.Exact.{
  Marks, mark_reaching_vertices-exact, mark_vertices_of_back_slice-exact,
  mark_vertices_of_forward_slice-exact,
}
use programslicer.Slice.Mark.Duality.{back-forward}

abbrev some_calls : List (Call ℕ)
some_calls =
    insert_call 1 2 (some control)
    ∷ insert_call 1 2 (some flow)
    ∷ get_pred_set_call 7
    ∷ insert_call 2 3 none
    ∷ get_succ_set_call 3
    ∷ erase_call 2 3
    ∷ []

run-Refines_example : Refines (run empty some_calls) (view_run no_edges some_calls)
run-Refines_example = run-Refines some_calls

-- A call node 1, the called function 2, its result 3, a node 4 that uses it.
abbrev small_sdg : Sdg
small_sdg =
    insert 1 2 (some call)
      (insert 2 3 (some control) (insert 3 4 (some param_out) (insert 1 4 (some flow) empty)))

small_sdg-IsValid : IsValid small_sdg
small_sdg-IsValid = insert-IsValid 1 2 (some call) _ (
    insert-IsValid 2 3 (some control) _
      (insert-IsValid 3 4 (some param_out) _ (insert-IsValid 1 4 (some flow) _ empty-IsValid)))

mark_reaching_vertices-exact_example :
    (end : List ℕ × Sdg) × (mark_reaching_vertices back small_sdg (4 ∷ []) (4 ∷ []) control
      ≡ some end)
    × Marks back small_sdg (Reaches back control small_sdg (4 ∷ [])) end
mark_reaching_vertices-exact_example =
    mark_reaching_vertices-exact back control small_sdg (4 ∷ []) (4 ∷ []) small_sdg-IsValid
      (λ x h. h)

mark_vertices_of_back_slice-exact_example :
    (end : List ℕ × Sdg) × (mark_vertices_of_back_slice small_sdg (4 ∷ []) ≡ some end)
    × Marks back small_sdg (InSlice back small_sdg (4 ∷ [])) end
mark_vertices_of_back_slice-exact_example =
    mark_vertices_of_back_slice-exact small_sdg (4 ∷ []) small_sdg-IsValid

mark_vertices_of_forward_slice-exact_example :
    (end : List ℕ × Sdg) × (mark_vertices_of_forward_slice small_sdg (1 ∷ []) ≡ some end)
    × Marks forward small_sdg (InSlice forward small_sdg (1 ∷ [])) end
mark_vertices_of_forward_slice-exact_example =
    mark_vertices_of_forward_slice-exact small_sdg (1 ∷ []) small_sdg-IsValid

back-forward_example :
    (b f : List ℕ × Sdg) × (mark_reaching_vertices_for_back_slice small_sdg
        (4 ∷ [])
        (4 ∷ [])
        param_out
      ≡ some b)
    × (mark_reaching_vertices_for_forward_slice small_sdg (3 ∷ []) (3 ∷ []) param_out ≡ some f)
    × ((Sets.contains 3 b.0 ≡ true) ↔ (Sets.contains 4 f.0 ≡ true))
back-forward_example = back-forward param_out 4 3 small_sdg small_sdg-IsValid
