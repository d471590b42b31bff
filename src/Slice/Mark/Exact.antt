-- ===== src/Slice/Mark/Exact.antt =====
-- BackSlice.cpp and ForwardSlice.cpp: what `markReachingVertices…` and `markVertices…` return.
use programslicer.Common.{
  ℕ, ◌+◌, ◌≡◌, refl, ◌↔◌, inl, inr, ◌∙◌, true, some, List, arith, length, count_if-le-length,
}
use programslicer.Common.Sets
use programslicer.DirectedGraph.{IsValid}
use programslicer.Slice.Mark.{
  Direction, back, forward, Sdg, mark_reaching_vertices, mark_vertices, first_mask, second_mask,
  mark_vertices_of_back_slice, mark_vertices_of_forward_slice,
}
use programslicer.Slice.Mark.Neighbours.{edge, Reaches, from}
use programslicer.Slice.Mark.Search.{Inv, mark-Inv, Inv-exact}
use programslicer.Slice.Mark.Fuel.{mark-total, is_fresh}
use programslicer.Slice.Mark.Phases.{InSlice, Reaches-InSlice, InSlice-Reaches}

-- The graph is valid and has the same edges and nodes as another.
pub record Unchanged (dir : Direction) (g₀ g : Sdg) : Type 0 where
  pub valid : IsValid g
  pub same : (x y : ℕ) → edge dir g x y ≡ edge dir g₀ x y
  pub nodes : g.node_set ≡ g₀.node_set

-- What one search returns: the marked set of nodes, by the predicate that it decides.
pub record Marks (dir : Direction) (g₀ : Sdg) (P : ℕ → Type 0) (end : List ℕ × Sdg) : Type 0 where
  pub unchanged : Unchanged dir g₀ end.1
  pub exact : (x : ℕ) → (Sets.contains x end.0 ≡ true) ↔ P x

module _ (dir : Direction) (mask : ℕ) (g : Sdg) (result work : List ℕ) (v : IsValid g)
    (inside : (x : ℕ) → Sets.contains x result ≡ true → Sets.contains x work ≡ true) where
  initial : Inv dir mask g work g result work
  initial = record {
    valid = v;
    same = λ x y. refl;
    nodes = refl;
    result_sound = λ x h. from (inside x h);
    work_sound = λ x h. from h;
    started = λ x h. inr h;
    closed = λ x y h s. inl (inside x h);
  }

  -- On a valid graph, if all that is marked is also queued, `markReachingVertices…` returns, it
  -- marks exactly the nodes that the worklist reaches over edges of the mask, and the graph keeps
  -- its edges.
  pub mark_reaching_vertices-exact :
      (end : List ℕ × Sdg) × (mark_reaching_vertices dir g result work mask ≡ some end)
      × Marks dir g (Reaches dir mask g work) end
  unfolding mark_reaching_vertices
  mark_reaching_vertices-exact =
      let fuel = length g.node_set + length work in
      let (end, e) =
        mark-total dir mask g work fuel g result work initial
          (omega (arith, count_if-le-length (is_fresh result work) g.node_set)) in
      let inv = mark-Inv dir mask g work fuel g end.1 result end.0 work initial e in
      (
        end,
        e,
        record {
          unchanged = record { valid = inv.valid; same = inv.same; nodes = inv.nodes };
          exact = Inv-exact dir mask g end.1 work end.0 inv;
        },
      )

module _ (dir : Direction) (g : Sdg) (criterion : List ℕ) (v : IsValid g) where
  -- `markVertices…` returns, and it marks exactly the slice.
  pub mark_vertices-exact :
      (end : List ℕ × Sdg) × (mark_vertices dir g criterion ≡ some end)
      × Marks dir g (InSlice dir g criterion) end
  unfolding mark_vertices
  mark_vertices-exact =
      let (end₁, e₁, m₁) =
        mark_reaching_vertices-exact dir first_mask g criterion criterion v (λ x h. h) in
      let u₁ = m₁.unchanged in
      let (end₂, e₂, m₂) =
        mark_reaching_vertices-exact dir second_mask end₁.1 end₁.0 end₁.0 u₁.valid (λ x h. h) in
      let u₂ = m₂.unchanged in
      (
        end₂,
        rw e₁ e₂,
        record {
          unchanged = record {
            valid = u₂.valid;
            same = λ x y. u₂.same x y ∙ u₁.same x y;
            nodes = u₂.nodes ∙ u₁.nodes;
          };
          exact = λ x. (
            λ h. Reaches-InSlice dir g end₁.1 criterion end₁.0 u₁.same m₁.exact ((m₂.exact x).0 h),
            λ i. (m₂.exact x).1 (InSlice-Reaches dir g end₁.1 criterion end₁.0 u₁.same m₁.exact i),
          );
        },
      )

-- On a valid dependence graph the backward slicer returns, it marks exactly the nodes from which
-- the criterion is met by a path of control, flow, paramOut edges followed by a path of control,
-- flow, call and paramIn edges, and the edges of the graph stay.
pub mark_vertices_of_back_slice-exact :
    (g : Sdg) (criterion : List ℕ)
    → IsValid g
    → (end : List ℕ × Sdg) × (mark_vertices_of_back_slice g criterion ≡ some end)
      × Marks back g (InSlice back g criterion) end
unfolding mark_vertices_of_back_slice
mark_vertices_of_back_slice-exact g criterion v = mark_vertices-exact back g criterion v

-- On a valid dependence graph the forward slicer returns, it marks exactly the nodes that the
-- criterion meets by a path of control, flow, call and paramIn edges followed by a path of control,
-- flow and paramOut edges, and the edges of the graph stay.
pub mark_vertices_of_forward_slice-exact :
    (g : Sdg) (criterion : List ℕ)
    → IsValid g
    → (end : List ℕ × Sdg) × (mark_vertices_of_forward_slice g criterion ≡ some end)
      × Marks forward g (InSlice forward g criterion) end
unfolding mark_vertices_of_forward_slice
mark_vertices_of_forward_slice-exact g criterion v = mark_vertices-exact forward g criterion v
