-- ===== src/DirectedGraph.antt =====
-- DirectedGraph.h: the graph template of the dependence graphs. A `NodeT*` is an address, and the
-- null pointer is 0; an `EdgeT*` is an `Option`, since an edge is made once and never written to.
-- The maps are created at a key by `operator[]`, also when they are only read.
pub mod Laws
pub mod Abstract
pub mod Dot
use programslicer.Common.{
  ℕ, ◌≡◌, ◌↔◌, Bool, true, false, Option, none, some, List, [], ◌∷◌, ◌==◌, if◌then◌else◌, is_some,
}
use programslicer.Common.Sets
use programslicer.Common.Maps
use programslicer.Common.Maps.{Map}

pub record DirectedGraph (E : Type 0) : Type 0 where
  pub succ_map : Map (Map (Option E))
  pub pred_map : Map (Map (Option E))
  pub node_set : List ℕ

abbrev pub null : ℕ
null = 0

abbrev pub empty : {E : Type 0} → DirectedGraph E
empty = record { succ_map = []; pred_map = []; node_set = [] }

module _ {E : Type 0} where
  -- The value of `m[a]`, an empty map where there was none.
  abbrev pub at : Map (Map (Option E)) → ℕ → Map (Option E)
  at m a = elim (Maps.lookup a m) [ none ↦ [] | some inner ↦ inner ]

  -- The map after `m[a]` was evaluated.
  abbrev pub touch : Map (Map (Option E)) → ℕ → Map (Map (Option E))
  touch m a = Maps.set a (at m a) m

  unfoldable pub insert : ℕ → ℕ → Option E → DirectedGraph E → DirectedGraph E
  unfolding Sets.insert Maps.set
  insert a b edge g = record {
    succ_map = Maps.set a (Maps.set b edge (at g.succ_map a)) g.succ_map;
    pred_map = Maps.set b (Maps.set a edge (at g.pred_map b)) g.pred_map;
    node_set = Sets.insert b (Sets.insert a g.node_set);
  }

  unfoldable pub erase : ℕ → ℕ → DirectedGraph E → DirectedGraph E
  unfolding Maps.erase Maps.set
  erase a b g = record g {
    succ_map = Maps.set a (Maps.erase b (at g.succ_map a)) g.succ_map;
    pred_map = Maps.set b (Maps.erase a (at g.pred_map b)) g.pred_map;
  }

  unfoldable pub get_succ_set : ℕ → DirectedGraph E → Map (Option E) × DirectedGraph E
  unfolding Maps.set
  get_succ_set a g = (at g.succ_map a, record g { succ_map = touch g.succ_map a })

  unfoldable pub get_pred_set : ℕ → DirectedGraph E → Map (Option E) × DirectedGraph E
  unfolding Maps.set
  get_pred_set a g = (at g.pred_map a, record g { pred_map = touch g.pred_map a })

  unfoldable pub get_node_set : DirectedGraph E → List ℕ
  get_node_set g = g.node_set

  -- The edge from a to b as the successor map has it, and as the predecessor map of b has it.
  abbrev pub succ_edge : DirectedGraph E → ℕ → ℕ → Option (Option E)
  succ_edge g a b = Maps.lookup b (at g.succ_map a)

  abbrev pub pred_edge : DirectedGraph E → ℕ → ℕ → Option (Option E)
  pred_edge g b a = Maps.lookup a (at g.pred_map b)

  abbrev pub is_edge : DirectedGraph E → ℕ → ℕ → Bool
  is_edge g a b = is_some (succ_edge g a b)

  -- Every map is in order, the two maps hold the same edges, and the node set has their ends.
  pub record IsValid (g : DirectedGraph E) : Type 0 where
    pub succ_map_sorted : Maps.IsSorted g.succ_map
    pub pred_map_sorted : Maps.IsSorted g.pred_map
    pub succ_sorted : (a : ℕ) → Maps.IsSorted (at g.succ_map a)
    pub pred_sorted : (a : ℕ) → Maps.IsSorted (at g.pred_map a)
    pub set_sorted : Sets.IsSorted g.node_set
    pub mirror : (a b : ℕ) → succ_edge g a b ≡ pred_edge g b a
    pub closed :
        (a b : ℕ) (e : Option E)
        → succ_edge g a b ≡ some e
        → (Sets.contains a g.node_set ≡ true) × (Sets.contains b g.node_set ≡ true)
