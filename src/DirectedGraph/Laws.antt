-- ===== src/DirectedGraph/Laws.antt =====
-- DirectedGraph.h: what each operation does to the edges, and that it keeps the graph valid.
use programslicer.Common.{ℕ, ◌≡◌, refl, ◌&&◌, ◌||◌, Option, none, some, ◌==◌, if◌then◌else◌, arith}
use programslicer.Common.Sets
use programslicer.Common.Sets.{contains-insert, insert-IsSorted}
use programslicer.Common.Maps
use programslicer.Common.Maps.{Map, lookup-set, lookup-erase, set-IsSorted, erase-IsSorted}
use programslicer.DirectedGraph.{
  DirectedGraph, at, touch, insert, erase, get_succ_set, get_pred_set, succ_edge, pred_edge,
  is_edge, IsValid, empty,
}

module _ {E : Type 0} where
  pub at-set :
      (a x : ℕ) (inner : Map (Option E)) (m : Map (Map (Option E)))
      → at (Maps.set a inner m) x ≡ (if a == x then inner else at m x)
  at-set a x inner m = ground (arith, lookup-set a x inner m)

  pub at-touch : (a x : ℕ) (m : Map (Map (Option E))) → at (touch m a) x ≡ at m x
  at-touch a x m = ground (arith, lookup-set a x (at m a) m)

  pub succ_edge-insert :
      (a b x y : ℕ) (e : Option E) (g : DirectedGraph E)
      → succ_edge (insert a b e g) x y ≡ (if a == x && b == y then some e else succ_edge g x y)
  unfolding insert
  succ_edge-insert a b x y e g = ground (
    arith,
    lookup-set a x (Maps.set b e (at g.succ_map a)) g.succ_map,
    lookup-set b y e (at g.succ_map a),
  )

  pub pred_edge-insert :
      (a b x y : ℕ) (e : Option E) (g : DirectedGraph E)
      → pred_edge (insert a b e g) y x ≡ (if a == x && b == y then some e else pred_edge g y x)
  unfolding insert
  pred_edge-insert a b x y e g = ground (
    arith,
    lookup-set b y (Maps.set a e (at g.pred_map b)) g.pred_map,
    lookup-set a x e (at g.pred_map b),
  )

  pub succ_edge-erase :
      (a b x y : ℕ) (g : DirectedGraph E)
      → succ_edge (erase a b g) x y ≡ (if a == x && b == y then none else succ_edge g x y)
  unfolding erase
  succ_edge-erase a b x y g = ground (
    arith,
    lookup-set a x (Maps.erase b (at g.succ_map a)) g.succ_map,
    lookup-erase b y (at g.succ_map a),
  )

  pub pred_edge-erase :
      (a b x y : ℕ) (g : DirectedGraph E)
      → pred_edge (erase a b g) y x ≡ (if a == x && b == y then none else pred_edge g y x)
  unfolding erase
  pred_edge-erase a b x y g = ground (
    arith,
    lookup-set b y (Maps.erase a (at g.pred_map b)) g.pred_map,
    lookup-erase a x (at g.pred_map b),
  )

  -- A read of a neighbour map changes no edge.
  pub succ_edge-get_succ_set :
      (a x y : ℕ) (g : DirectedGraph E) → succ_edge (get_succ_set a g).1 x y ≡ succ_edge g x y
  unfolding get_succ_set
  succ_edge-get_succ_set a x y g = rw (at-touch a x g.succ_map)

  pub pred_edge-get_pred_set :
      (a x y : ℕ) (g : DirectedGraph E) → pred_edge (get_pred_set a g).1 y x ≡ pred_edge g y x
  unfolding get_pred_set
  pred_edge-get_pred_set a x y g = rw (at-touch a y g.pred_map)

  pub is_edge-insert :
      (a b x y : ℕ) (e : Option E) (g : DirectedGraph E)
      → is_edge (insert a b e g) x y ≡ (a == x && b == y || is_edge g x y)
  is_edge-insert a b x y e g = ground (arith, succ_edge-insert a b x y e g)

  pub empty-IsValid : IsValid (empty {E = E})
  empty-IsValid = record {
    succ_map_sorted = tt;
    pred_map_sorted = tt;
    succ_sorted = λ a. tt;
    pred_sorted = λ a. tt;
    set_sorted = tt;
    mirror = λ a b. refl;
    closed = λ a b e h. cc;
  }

  -- `insert` keeps the graph valid.
  pub insert-IsValid :
      (a b : ℕ) (e : Option E) (g : DirectedGraph E) → IsValid g → IsValid (insert a b e g)
  unfolding insert
  insert-IsValid a b e g v = record {
    succ_map_sorted = set-IsSorted a _ _ v.succ_map_sorted;
    pred_map_sorted = set-IsSorted b _ _ v.pred_map_sorted;
    succ_sorted = λ x. ground (
      arith,
      at-set a x (Maps.set b e (at g.succ_map a)) g.succ_map,
      set-IsSorted b e (at g.succ_map a),
      v.succ_sorted a,
      v.succ_sorted x,
    );
    pred_sorted = λ x. ground (
      arith,
      at-set b x (Maps.set a e (at g.pred_map b)) g.pred_map,
      set-IsSorted a e (at g.pred_map b),
      v.pred_sorted b,
      v.pred_sorted x,
    );
    set_sorted = insert-IsSorted b _ (insert-IsSorted a _ v.set_sorted);
    mirror = λ x y.
        ground (arith, succ_edge-insert a b x y e g, pred_edge-insert a b x y e g, v.mirror x y);
    closed = λ x y e' h. ground (
      arith,
      succ_edge-insert a b x y e g,
      v.closed x y e',
      contains-insert b x (Sets.insert a g.node_set),
      contains-insert a x g.node_set,
      contains-insert b y (Sets.insert a g.node_set),
      contains-insert a y g.node_set,
    );
  }

  pub erase-IsValid : (a b : ℕ) (g : DirectedGraph E) → IsValid g → IsValid (erase a b g)
  unfolding erase
  erase-IsValid a b g v = record {
    succ_map_sorted = set-IsSorted a _ _ v.succ_map_sorted;
    pred_map_sorted = set-IsSorted b _ _ v.pred_map_sorted;
    succ_sorted = λ x. ground (
      arith,
      at-set a x (Maps.erase b (at g.succ_map a)) g.succ_map,
      erase-IsSorted b (at g.succ_map a),
      v.succ_sorted a,
      v.succ_sorted x,
    );
    pred_sorted = λ x. ground (
      arith,
      at-set b x (Maps.erase a (at g.pred_map b)) g.pred_map,
      erase-IsSorted a (at g.pred_map b),
      v.pred_sorted b,
      v.pred_sorted x,
    );
    set_sorted = v.set_sorted;
    mirror =
        λ x y. ground (arith, succ_edge-erase a b x y g, pred_edge-erase a b x y g, v.mirror x y);
    closed = λ x y e' h. ground (arith, succ_edge-erase a b x y g, v.closed x y e');
  }

  pub get_succ_set-IsValid :
      (a : ℕ) (g : DirectedGraph E) → IsValid g → IsValid (get_succ_set a g).1
  unfolding get_succ_set
  get_succ_set-IsValid a g v = record {
    succ_map_sorted = set-IsSorted a _ _ v.succ_map_sorted;
    pred_map_sorted = v.pred_map_sorted;
    succ_sorted = λ x. rw (at-touch a x g.succ_map) (v.succ_sorted x);
    pred_sorted = v.pred_sorted;
    set_sorted = v.set_sorted;
    mirror = λ x y. rw (at-touch a x g.succ_map) (v.mirror x y);
    closed = λ x y e h. v.closed x y e (rw (at-touch a x g.succ_map) at h);
  }

  pub get_pred_set-IsValid :
      (a : ℕ) (g : DirectedGraph E) → IsValid g → IsValid (get_pred_set a g).1
  unfolding get_pred_set
  get_pred_set-IsValid a g v = record {
    succ_map_sorted = v.succ_map_sorted;
    pred_map_sorted = set-IsSorted a _ _ v.pred_map_sorted;
    succ_sorted = v.succ_sorted;
    pred_sorted = λ x. rw (at-touch a x g.pred_map) (v.pred_sorted x);
    set_sorted = v.set_sorted;
    mirror = λ x y. rw (at-touch a y g.pred_map) (v.mirror x y);
    closed = v.closed;
  }
