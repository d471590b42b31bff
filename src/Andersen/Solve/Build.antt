-- ===== src/Andersen/Solve/Build.antt =====
-- andersen/lib/ConstraintSolving.cpp, `buildConstraintGraph`: what a constraint adds.
use programslicer.Common.{
  ℕ, ◌<◌, ◌≡◌, ◌⊎◌, inl, inr, [], ◌∷◌, ◌==◌, if◌then◌else◌, arith, Bool-cases, eq_of_==,
}
use mathlib.Core.Logic.{⊎_elim}
use programslicer.Common.Sets
use programslicer.Common.Sets.{contains-insert}
use programslicer.Common.Maps
use programslicer.Common.Maps.{Map, lookup-set}
use programslicer.Andersen.Constraint.{ConstraintType, addr_of, copy, load, store, AndersConstraint}
use programslicer.Andersen.PtsSet
use programslicer.Andersen.PtsSet.{AndersPtsSet}
use programslicer.Andersen.Graph.{ConstraintGraph, node_or_new}
use programslicer.Andersen.WorkList
use programslicer.Andersen.Solve.{SolverState, points_to, copies, loads, stores, pointers}
use programslicer.Andersen.Solve.State.{MergeTargets, ◌∈◌, IsRep, Valid}

module _ (rounds : ℕ) (t : MergeTargets rounds) (P : ℕ → ℕ → Type 0) where
  -- The state with another graph, whose new edges are sound.
  pub with_graph :
      (s : SolverState) (g : ConstraintGraph)
      → Valid rounds t P s
      → ((n d : ℕ)
          → d ∈ (node_or_new n g).copy_edges
          → (d ∈ copies s n) ⊎ IsRep rounds t P d × ((x : ℕ) → P n x → P d x))
      → ((n d : ℕ)
          → d ∈ (node_or_new n g).load_edges
          → (d ∈ loads s n) ⊎ IsRep rounds t P d × ((w x : ℕ) → P n w → P (t.rep w) x → P d x))
      → ((n d : ℕ)
          → d ∈ (node_or_new n g).store_edges
          → (d ∈ stores s n) ⊎ IsRep rounds t P d × ((w x : ℕ) → P n w → P d x → P (t.rep w) x))
      → Valid rounds t P (record s { constraint_graph = g })
  with_graph s g v by_copy by_load by_store = record {
    good = v.good;
    copy_ends = λ n d h. ⊎_elim (v.copy_ends n d) (λ new. new.0) (by_copy n d h);
    load_ends = λ n d h. ⊎_elim (v.load_ends n d) (λ new. new.0) (by_load n d h);
    store_ends = λ n d h. ⊎_elim (v.store_ends n d) (λ new. new.0) (by_store n d h);
    pointees = v.pointees;
    current = v.current;
    next = v.next;
    current_list = v.current_list;
    next_list = v.next_list;
    sound_points = v.sound_points;
    sound_copy = λ n d h. ⊎_elim (v.sound_copy n d) (λ new. new.1) (by_copy n d h);
    sound_load = λ n d h. ⊎_elim (v.sound_load n d) (λ new. new.1) (by_load n d h);
    sound_store = λ n d h. ⊎_elim (v.sound_store n d) (λ new. new.1) (by_store n d h);
  }

  pub with_points :
      (s : SolverState) (g : Map AndersPtsSet)
      → Valid rounds t P s
      → ((n x : ℕ)
          → x ∈ points_to (record s { pts_graph = g }) n
          → (x ∈ points_to s n) ⊎ (x < t.num_nodes) × P n x)
      → Valid rounds t P (record s { pts_graph = g })
  with_points s g v from = record {
    good = v.good;
    copy_ends = v.copy_ends;
    load_ends = v.load_ends;
    store_ends = v.store_ends;
    pointees = λ n x h. ⊎_elim (v.pointees n x) (λ new. new.0) (from n x h);
    current = v.current;
    next = v.next;
    current_list = v.current_list;
    next_list = v.next_list;
    sound_points = λ n x h. ⊎_elim (v.sound_points n x) (λ new. new.1) (from n x h);
    sound_copy = v.sound_copy;
    sound_load = v.sound_load;
    sound_store = v.sound_store;
  }

  -- What the constraint leaves in the state.
  abbrev pub BuiltAs : ConstraintType → (src dst : ℕ) → SolverState → Type 0
  BuiltAs addr_of src dst s = src ∈ points_to s (t.rep dst)
  BuiltAs copy src dst s = t.rep dst ∈ copies s (t.rep src)
  BuiltAs load src dst s = t.rep dst ∈ loads s (t.rep src)
  BuiltAs store src dst s = t.rep src ∈ stores s (t.rep dst)

  abbrev pub Built : AndersConstraint → SolverState → Type 0
  Built c = BuiltAs c.type c.src c.dest

  -- The state before the first work list is filled.
  pub record Early (s : SolverState) : Type 0 where
    pub valid : Valid rounds t P s
    pub none_waits : s.update_map ≡ []
    pub no_current : s.curr_work_list ≡ WorkList.empty
    pub no_next : s.next_work_list ≡ WorkList.empty
    pub keys : (n : ℕ) → n ∈ pointers s.pts_graph → IsRep rounds t P n

  pub record Grow (s s' : SolverState) : Type 0 where
    pub copies_grow : (n d : ℕ) → d ∈ copies s n → d ∈ copies s' n
    pub loads_grow : (n d : ℕ) → d ∈ loads s n → d ∈ loads s' n
    pub stores_grow : (n d : ℕ) → d ∈ stores s n → d ∈ stores s' n
    pub points_grow : (n v : ℕ) → v ∈ points_to s n → v ∈ points_to s' n

  pub Grow-refl : (s : SolverState) → Grow s s
  Grow-refl s = record {
    copies_grow = λ n d h. h;
    loads_grow = λ n d h. h;
    stores_grow = λ n d h. h;
    points_grow = λ n v h. h;
  }

  pub Grow-trans : (s u w : SolverState) → Grow s u → Grow u w → Grow s w
  Grow-trans s u w a b = record {
    copies_grow = λ n d h. b.copies_grow n d (a.copies_grow n d h);
    loads_grow = λ n d h. b.loads_grow n d (a.loads_grow n d h);
    stores_grow = λ n d h. b.stores_grow n d (a.stores_grow n d h);
    points_grow = λ n v h. b.points_grow n v (a.points_grow n v h);
  }

  pub BuiltAs-Grow :
      (ty : ConstraintType) (src dst : ℕ) (s s' : SolverState)
      → Grow s s'
      → BuiltAs ty src dst s
      → BuiltAs ty src dst s'
  BuiltAs-Grow addr_of src dst s s' grow h = grow.points_grow _ _ h
  BuiltAs-Grow copy src dst s s' grow h = grow.copies_grow _ _ h
  BuiltAs-Grow load src dst s s' grow h = grow.loads_grow _ _ h
  BuiltAs-Grow store src dst s s' grow h = grow.stores_grow _ _ h

  pub points_to-set :
      (v n : ℕ) (s : SolverState) (k : ℕ)
      → points_to
          (record s { pts_graph = Maps.set n (PtsSet.insert v (points_to s n)).1 s.pts_graph })
          k
        ≡ (if n == k then Sets.insert v (points_to s k) else points_to s k)
  unfolding PtsSet.insert
  points_to-set v n s k = elim (Bool-cases (n == k)) [
    | inl same ↦
        let e = eq_of_== n k same in
        ground (arith, lookup-set n k (Sets.insert v (points_to s n)) s.pts_graph)
    | inr other ↦ ground (arith, lookup-set n k (Sets.insert v (points_to s n)) s.pts_graph)
  ]

  pub pointers-set :
      (k n : ℕ) (p : AndersPtsSet) (m : Map AndersPtsSet)
      → n ∈ pointers (Maps.set k p m)
      → (k ≡ n) ⊎ (n ∈ pointers m)
  unfolding Maps.set pointers
  pointers-set k n p [] h = ground (arith, eq_of_== k n)
  pointers-set k n p ((j, q) ∷ m) h = ground (arith, eq_of_== k n, pointers-set k n p m)
