-- ===== src/Slice/Mark.antt =====
-- BackSlice.cpp and ForwardSlice.cpp, `markReachingVertices…` and `markVertices…`: the worklist
-- search that makes a slice, with one parameter, since the two files differ only in the neighbour
-- map that they read. Nodes are the addresses of `SDGNode` objects, and an edge is its attribute.
pub mod Neighbours
pub mod Search
pub mod Fuel
pub mod Phases
pub mod Exact
pub mod Duality
use programslicer.Common.{
  ℕ, zero, suc, Bool, true, false, not, ◌&&◌, Option, none, some, List, [], ◌∷◌, ◌==◌, bit_and,
  if◌then◌else◌, length, ◌+◌,
}
use programslicer.Common.{◌>>=◌}
use programslicer.Common.Sets
use programslicer.Common.Maps.{Map}
use Prim.Native.Nat.{bit_or}
use programslicer.Sdg.Edge.{if_mask, control, flow, call, param_in, param_out}
use programslicer.DirectedGraph.{DirectedGraph, get_succ_set, get_pred_set, succ_edge, pred_edge}

pub data Direction : Type 0 where
  back forward : Direction

abbrev pub Sdg : Type 0
Sdg = DirectedGraph ℕ

unfoldable pub neighbours : Direction → ℕ → Sdg → Map (Option ℕ) × Sdg
neighbours back node g = get_pred_set node g
neighbours forward node g = get_succ_set node g

-- The three conditions under which a neighbour is put on the worklist.
unfoldable pub is_new : List ℕ → ℕ → ℕ → Option ℕ → Bool
is_new result mask node none = false
is_new result mask node (some attr) = not (Sets.contains node result) && if_mask attr mask

-- The loop over the neighbour map.
unfoldable pub scan : List ℕ → ℕ → Map (Option ℕ) → List ℕ → List ℕ
unfolding is_new if_mask
scan result mask [] work = work
scan result mask ((node, edge) ∷ rest) work =
    scan result mask rest (if is_new result mask node edge then Sets.insert node work else work)

-- The `while` loop: the result set and the graph, whose maps the reads may have extended; `none`
-- if the fuel ran out.
unfoldable pub mark : Direction → ℕ → ℕ → Sdg → List ℕ → List ℕ → Option (List ℕ × Sdg)
unfolding scan neighbours get_succ_set get_pred_set Sets.insert
mark dir mask zero g result [] = some (result, g)
mark dir mask zero g result (node ∷ work) = none
mark dir mask (suc fuel) g result [] = some (result, g)
mark dir mask (suc fuel) g result (node ∷ work) =
    let marked = Sets.insert node result in
    let (around, g') = neighbours dir node g in
    mark dir mask fuel g' marked (scan marked mask around work)

-- `markReachingVerticesFor…Slice`. The rounds are bounded by the nodes of the graph and the first
-- worklist.
unfoldable pub mark_reaching_vertices :
    Direction → Sdg → List ℕ → List ℕ → ℕ → Option (List ℕ × Sdg)
unfolding mark
mark_reaching_vertices dir sdg result_set work_set mask =
    mark dir mask (length sdg.node_set + length work_set) sdg result_set work_set

-- The masks of the two steps.
abbrev pub first_mask : ℕ
first_mask = bit_or (bit_or (bit_or control flow) call) param_in

abbrev pub second_mask : ℕ
second_mask = bit_or (bit_or control flow) param_out

-- `markVerticesOf…Slice`: both steps start from all that is marked.
unfoldable pub mark_vertices : Direction → Sdg → List ℕ → Option (List ℕ × Sdg)
unfolding mark_reaching_vertices
mark_vertices dir sdg result_set = do
  (first, sdg') ← mark_reaching_vertices dir sdg result_set result_set first_mask
  mark_reaching_vertices dir sdg' first first second_mask

-- BackSlice.cpp
unfoldable pub mark_reaching_vertices_for_back_slice :
    Sdg → List ℕ → List ℕ → ℕ → Option (List ℕ × Sdg)
unfolding mark_reaching_vertices
mark_reaching_vertices_for_back_slice = mark_reaching_vertices back

unfoldable pub mark_vertices_of_back_slice : Sdg → List ℕ → Option (List ℕ × Sdg)
unfolding mark_vertices
mark_vertices_of_back_slice = mark_vertices back

-- ForwardSlice.cpp
unfoldable pub mark_reaching_vertices_for_forward_slice :
    Sdg → List ℕ → List ℕ → ℕ → Option (List ℕ × Sdg)
unfolding mark_reaching_vertices
mark_reaching_vertices_for_forward_slice = mark_reaching_vertices forward

unfoldable pub mark_vertices_of_forward_slice : Sdg → List ℕ → Option (List ℕ × Sdg)
unfolding mark_vertices
mark_vertices_of_forward_slice = mark_vertices forward
