-- ===== src/Andersen/Solve/Edges.antt =====
-- andersen/lib/ConstraintSolving.cpp, `buildConstraintGraph`: the edge that a constraint adds.
use programslicer.Common.{ℕ, inl, inr, refl, sym, subst}
use mathlib.Core.Logic.{⊎_elim}
use programslicer.Common.Sets
use programslicer.Common.Sets.{contains-insert}
use programslicer.Common.Maps
use programslicer.Common.Maps.{Map, lookup-set}
use programslicer.Andersen.Graph.{
  ConstraintGraphNode, node_or_new, insert_copy_edge, insert_load_edge, insert_store_edge,
}
use programslicer.Andersen.Solve.{SolverState, copies, loads, stores}
use programslicer.Andersen.Solve.State.{MergeTargets, ◌∈◌, IsRep}
use programslicer.Andersen.Graph.Laws.{edges_same, edges_from, edges_grow, edges_added}
use programslicer.Andersen.Solve.Build.{with_graph, Early, Grow}

module _ (rounds : ℕ) (t : MergeTargets rounds) (P : ℕ → ℕ → Type 0) where
  pub add_copy :
      (src dst : ℕ) (s : SolverState)
      → Early rounds t P s
      → IsRep rounds t P dst
      → ((x : ℕ) → P src x → P dst x)
      → Early rounds t P
          (record s { constraint_graph = (insert_copy_edge src dst s.constraint_graph).1 })
        × Grow rounds t P s
            (record s { constraint_graph = (insert_copy_edge src dst s.constraint_graph).1 })
        × (dst
            ∈ copies
                (record s { constraint_graph = (insert_copy_edge src dst s.constraint_graph).1 })
                src)
  unfolding insert_copy_edge
  add_copy src dst s early rep_d sound =
      let g = s.constraint_graph in
      let node : ConstraintGraphNode = record (node_or_new src g) {
        copy_edges = Sets.insert dst (copies s src);
      } in
      let load_same = edges_same (λ k. k.load_edges) src node g refl in
      let store_same = edges_same (λ k. k.store_edges) src node g refl in
      (
        record {
          valid =
              with_graph rounds t P s (Maps.set src node g) early.valid
                (λ n d h.
                  ⊎_elim (λ (at_s, at_d). inr (rw (← at_d) rep_d, rw (← at_s, ← at_d) sound)) inl
                    (edges_from (λ k. k.copy_edges) src node g dst refl n d h))
                (λ n d h. inl (subst (λ ds. d ∈ ds) (load_same n) h))
                (λ n d h. inl (subst (λ ds. d ∈ ds) (store_same n) h));
          none_waits = early.none_waits;
          no_current = early.no_current;
          no_next = early.no_next;
          keys = early.keys;
        },
        record {
          copies_grow = edges_grow (λ k. k.copy_edges) src node g dst refl;
          loads_grow = λ n d h. subst (λ ds. d ∈ ds) (sym (load_same n)) h;
          stores_grow = λ n d h. subst (λ ds. d ∈ ds) (sym (store_same n)) h;
          points_grow = λ n v h. h;
        },
        edges_added (λ k. k.copy_edges) src node g dst refl,
      )

  pub add_load :
      (src dst : ℕ) (s : SolverState)
      → Early rounds t P s
      → IsRep rounds t P dst
      → ((w x : ℕ) → P src w → P (t.rep w) x → P dst x)
      → Early rounds t P
          (record s { constraint_graph = (insert_load_edge src dst s.constraint_graph).1 })
        × Grow rounds t P s
            (record s { constraint_graph = (insert_load_edge src dst s.constraint_graph).1 })
        × (dst
            ∈ loads
                (record s { constraint_graph = (insert_load_edge src dst s.constraint_graph).1 })
                src)
  unfolding insert_load_edge
  add_load src dst s early rep_d sound =
      let g = s.constraint_graph in
      let node : ConstraintGraphNode = record (node_or_new src g) {
        load_edges = Sets.insert dst (loads s src);
      } in
      let copy_same = edges_same (λ k. k.copy_edges) src node g refl in
      let store_same = edges_same (λ k. k.store_edges) src node g refl in
      (
        record {
          valid =
              with_graph rounds t P s (Maps.set src node g) early.valid
                (λ n d h. inl (subst (λ ds. d ∈ ds) (copy_same n) h))
                (λ n d h.
                  ⊎_elim (λ (at_s, at_d). inr (rw (← at_d) rep_d, rw (← at_s, ← at_d) sound)) inl
                    (edges_from (λ k. k.load_edges) src node g dst refl n d h))
                (λ n d h. inl (subst (λ ds. d ∈ ds) (store_same n) h));
          none_waits = early.none_waits;
          no_current = early.no_current;
          no_next = early.no_next;
          keys = early.keys;
        },
        record {
          copies_grow = λ n d h. subst (λ ds. d ∈ ds) (sym (copy_same n)) h;
          loads_grow = edges_grow (λ k. k.load_edges) src node g dst refl;
          stores_grow = λ n d h. subst (λ ds. d ∈ ds) (sym (store_same n)) h;
          points_grow = λ n v h. h;
        },
        edges_added (λ k. k.load_edges) src node g dst refl,
      )

  pub add_store :
      (src dst : ℕ) (s : SolverState)
      → Early rounds t P s
      → IsRep rounds t P src
      → ((w x : ℕ) → P dst w → P src x → P (t.rep w) x)
      → Early rounds t P
          (record s { constraint_graph = (insert_store_edge dst src s.constraint_graph).1 })
        × Grow rounds t P s
            (record s { constraint_graph = (insert_store_edge dst src s.constraint_graph).1 })
        × (src
            ∈ stores
                (record s { constraint_graph = (insert_store_edge dst src s.constraint_graph).1 })
                dst)
  unfolding insert_store_edge
  add_store src dst s early rep_s sound =
      let g = s.constraint_graph in
      let node : ConstraintGraphNode = record (node_or_new dst g) {
        store_edges = Sets.insert src (stores s dst);
      } in
      let copy_same = edges_same (λ k. k.copy_edges) dst node g refl in
      let load_same = edges_same (λ k. k.load_edges) dst node g refl in
      (
        record {
          valid =
              with_graph rounds t P s (Maps.set dst node g) early.valid
                (λ n d h. inl (subst (λ ds. d ∈ ds) (copy_same n) h))
                (λ n d h. inl (subst (λ ds. d ∈ ds) (load_same n) h))
                (λ n d h.
                  ⊎_elim (λ (at_s, at_d). inr (rw (← at_d) rep_s, rw (← at_s, ← at_d) sound)) inl
                    (edges_from (λ k. k.store_edges) dst node g src refl n d h));
          none_waits = early.none_waits;
          no_current = early.no_current;
          no_next = early.no_next;
          keys = early.keys;
        },
        record {
          copies_grow = λ n d h. subst (λ ds. d ∈ ds) (sym (copy_same n)) h;
          loads_grow = λ n d h. subst (λ ds. d ∈ ds) (sym (load_same n)) h;
          stores_grow = edges_grow (λ k. k.store_edges) dst node g src refl;
          points_grow = λ n v h. h;
        },
        edges_added (λ k. k.store_edges) dst node g src refl,
      )
