-- ===== src/Andersen/Solve/State.antt =====
-- andersen/lib/ConstraintSolving.cpp, `solveConstraints`: the invariant of the solver, and what one
-- of its steps may change.
use programslicer.Common.{
  ℕ, ◌+◌, ◌≤◌, ◌<◌, ◌≡◌, ◌⊎◌, inl, inr, refl, some, arith, length, sym, ◌∙◌, ap, subst,
}
use programslicer.Common.Sets
use programslicer.Common.Maps.{Map}
use programslicer.Common.Missing.{missing, missing_mono}
use programslicer.NodeFactory.{AndersNodeFactory, get_merge_target}
pub use programslicer.Andersen.Graph.Laws.{◌∈◌}
use programslicer.Andersen.Graph.{ConstraintGraph, node_or_new}
use programslicer.Andersen.WorkList.Laws.{IsWorkList}
use programslicer.Andersen.Solve.{SolverState, points_to, copies, loads, stores, merge_target}

-- What the solver relies on in `getMergeTarget`: it returns the representative of a node, and this
-- does not change. `Good` is the invariant of the factory, `rep n` the representative of `n`.
pub record MergeTargets (rounds : ℕ) : Type 1 where
  pub num_nodes : ℕ
  pub rep : ℕ → ℕ
  pub Good : AndersNodeFactory → Type 0
  pub rep_range : (n : ℕ) → n < num_nodes → rep n < num_nodes
  pub rep_idem : (n : ℕ) → n < num_nodes → rep (rep n) ≡ rep n
  pub size : (f : AndersNodeFactory) → Good f → length f.nodes ≡ num_nodes
  pub runs :
      (f : AndersNodeFactory)
      → Good f
      → (n : ℕ) → n < num_nodes
      → (f' : AndersNodeFactory) × (get_merge_target rounds n f ≡ some (rep n, f')) × Good f'

module _ (rounds : ℕ) (t : MergeTargets rounds) (P : ℕ → ℕ → Type 0) where
  -- A node that is its own representative.
  abbrev pub IsRep : ℕ → Type 0
  IsRep n = (n < t.num_nodes) × (t.rep n ≡ n)

  -- Every index is in range, the ends of edges and the queued nodes are representatives, and all
  -- that was found holds in a relation `P` between nodes and the objects they point to.
  pub record Valid (s : SolverState) : Type 0 where
    pub good : t.Good s.node_factory
    pub copy_ends : (n d : ℕ) → d ∈ copies s n → IsRep d
    pub load_ends : (n d : ℕ) → d ∈ loads s n → IsRep d
    pub store_ends : (n d : ℕ) → d ∈ stores s n → IsRep d
    pub pointees : (n v : ℕ) → v ∈ points_to s n → v < t.num_nodes
    pub current : (n : ℕ) → n ∈ s.curr_work_list.list → IsRep n
    pub next : (n : ℕ) → n ∈ s.next_work_list.list → IsRep n
    pub current_list : IsWorkList s.curr_work_list
    pub next_list : IsWorkList s.next_work_list
    pub sound_points : (n v : ℕ) → v ∈ points_to s n → P n v
    pub sound_copy : (n d : ℕ) → d ∈ copies s n → (v : ℕ) → P n v → P d v
    pub sound_load : (n d : ℕ) → d ∈ loads s n → (w v : ℕ) → P n w → P (t.rep w) v → P d v
    pub sound_store : (n d : ℕ) → d ∈ stores s n → (w v : ℕ) → P n w → P d v → P (t.rep w) v

  -- What is still to be found, and what is queued.
  abbrev pub measure : SolverState → ℕ
  measure s =
      missing t.num_nodes t.num_nodes (λ n d. Sets.contains d (copies s n))
      + missing t.num_nodes t.num_nodes (λ n v. Sets.contains v (points_to s n))
      + length s.next_work_list.list

  -- A part of a round: it adds copy edges and elements of points-to sets, and queues every node
  -- that it adds to.
  pub record Step (s s' : SolverState) : Type 0 where
    pub loads_same : (n : ℕ) → loads s' n ≡ loads s n
    pub stores_same : (n : ℕ) → stores s' n ≡ stores s n
    pub copies_grow : (n d : ℕ) → d ∈ copies s n → d ∈ copies s' n
    pub points_grow : (n v : ℕ) → v ∈ points_to s n → v ∈ points_to s' n
    pub next_grow : (n : ℕ) → n ∈ s.next_work_list.list → n ∈ s'.next_work_list.list
    pub changed :
        (n : ℕ)
        → (n ∈ s'.next_work_list.list)
          ⊎ (copies s' n ≡ copies s n) × (points_to s' n ≡ points_to s n)
    pub current_same : s'.curr_work_list ≡ s.curr_work_list
    pub measured : measure s' ≤ measure s

  pub Step-refl : (s : SolverState) → Step s s
  Step-refl s = record {
    loads_same = λ n. refl;
    stores_same = λ n. refl;
    copies_grow = λ n d h. h;
    points_grow = λ n v h. h;
    next_grow = λ n h. h;
    changed = λ n. inr (refl, refl);
    current_same = refl;
    measured = omega arith;
  }

  pub Step-trans : (s s' s'' : SolverState) → Step s s' → Step s' s'' → Step s s''
  Step-trans s s' s'' a b = record {
    loads_same = λ n. b.loads_same n ∙ a.loads_same n;
    stores_same = λ n. b.stores_same n ∙ a.stores_same n;
    copies_grow = λ n d h. b.copies_grow n d (a.copies_grow n d h);
    points_grow = λ n v h. b.points_grow n v (a.points_grow n v h);
    next_grow = λ n h. b.next_grow n (a.next_grow n h);
    changed = λ n. elim (b.changed n) [
      | inl queued ↦ inl queued
      | inr (c, p) ↦ elim (a.changed n) [
        | inl queued ↦ inl (b.next_grow n queued)
        | inr (c', p') ↦ inr (c ∙ c', p ∙ p')
      ]
    ];
    current_same = b.current_same ∙ a.current_same;
    measured = omega (arith, a.measured, b.measured);
  }

  -- What a step makes, from a valid state.
  abbrev pub Next : SolverState → SolverState → Type 0
  Next s s' = Valid s' × Step s s'

  -- The factory and the local map may change freely, and the graph as long as its nodes stay.
  pub with_locals :
      (s : SolverState) (f : AndersNodeFactory) (g : ConstraintGraph) (u : Map ℕ)
      → Valid s
      → t.Good f
      → ((n : ℕ) → node_or_new n g ≡ node_or_new n s.constraint_graph)
      → Next s (record s { node_factory = f; constraint_graph = g; update_map = u })
  with_locals s f g u v good same = (
    record {
      good = good;
      copy_ends = λ n d h. v.copy_ends n d (subst (λ node. d ∈ node.copy_edges) (same n) h);
      load_ends = λ n d h. v.load_ends n d (subst (λ node. d ∈ node.load_edges) (same n) h);
      store_ends = λ n d h. v.store_ends n d (subst (λ node. d ∈ node.store_edges) (same n) h);
      pointees = v.pointees;
      current = v.current;
      next = v.next;
      current_list = v.current_list;
      next_list = v.next_list;
      sound_points = v.sound_points;
      sound_copy = λ n d h. v.sound_copy n d (subst (λ node. d ∈ node.copy_edges) (same n) h);
      sound_load = λ n d h. v.sound_load n d (subst (λ node. d ∈ node.load_edges) (same n) h);
      sound_store = λ n d h. v.sound_store n d (subst (λ node. d ∈ node.store_edges) (same n) h);
    },
    record {
      loads_same = λ n. ap (λ node. node.load_edges) (same n);
      stores_same = λ n. ap (λ node. node.store_edges) (same n);
      copies_grow = λ n d h. subst (λ node. d ∈ node.copy_edges) (sym (same n)) h;
      points_grow = λ n x h. h;
      next_grow = λ n h. h;
      changed = λ n. inr (ap (λ node. node.copy_edges) (same n), refl);
      current_same = refl;
      measured = omega (
        arith,
        missing_mono t.num_nodes (λ n d. Sets.contains d (copies s n))
            (λ n d. Sets.contains d (node_or_new n g).copy_edges)
            (λ n d h. subst (λ node. d ∈ node.copy_edges) (sym (same n)) h) t.num_nodes,
      );
    },
  )

  -- `getMergeTarget` in a valid state.
  pub merge_target-Next :
      (n : ℕ) (s : SolverState)
      → Valid s
      → n < t.num_nodes
      → (f : AndersNodeFactory) × (merge_target rounds n s
          ≡ some (t.rep n, record s { node_factory = f }))
        × Next s (record s { node_factory = f })
  unfolding merge_target
  merge_target-Next n s v h =
      let (f, e, g) = t.runs s.node_factory v.good n h in
      (f, rw e refl, with_locals s f s.constraint_graph s.update_map v g (λ k. refl))
