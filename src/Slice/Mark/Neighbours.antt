-- ===== src/Slice/Mark/Neighbours.antt =====
-- BackSlice.cpp and ForwardSlice.cpp: which edges the search follows, and what one scan of a
-- neighbour map puts on the worklist.
use programslicer.Common.{
  ℕ, ◌≡◌, refl, inl, inr, Bool, true, false, not, ◌&&◌, ◌||◌, Option, none, some, List, [], ◌∷◌,
  arith, Option-cases, ◌∙◌,
}
use mathlib.Core.Bool.{false≢true}
use programslicer.Common.Sets
use programslicer.Common.Sets.{contains-insert}
use programslicer.Common.Maps
use programslicer.Common.Maps.{Map, lookup_of_Above}
use programslicer.DirectedGraph.{get_succ_set, get_pred_set, succ_edge, pred_edge, IsValid}
use programslicer.DirectedGraph.Laws.{
  succ_edge-get_succ_set, pred_edge-get_pred_set, get_succ_set-IsValid, get_pred_set-IsValid,
}
use programslicer.Sdg.Edge.{if_mask}
use programslicer.Slice.Mark.{Direction, back, forward, Sdg, neighbours, is_new, scan}

-- The edge that a search in the direction meets at `node` with `next` at its other end.
abbrev pub edge : Direction → Sdg → ℕ → ℕ → Option (Option ℕ)
edge back g node next = pred_edge g node next
edge forward g node next = succ_edge g node next

-- There is an edge object, and its attribute has a bit of the mask.
abbrev pub allows : ℕ → Option (Option ℕ) → Bool
allows mask none = false
allows mask (some none) = false
allows mask (some (some attr)) = if_mask attr mask

abbrev pub Step : Direction → ℕ → Sdg → ℕ → ℕ → Type 0
Step dir mask g node next = allows mask (edge dir g node next) ≡ true

-- The nodes that paths of allowed edges join to the start set.
pub data Reaches (dir : Direction) (mask : ℕ) (g : Sdg) (start : List ℕ) : ℕ → Type 0 where
  from : {x : ℕ} → Sets.contains x start ≡ true → Reaches dir mask g start x
  along : {x y : ℕ} → Reaches dir mask g start x → Step dir mask g x y → Reaches dir mask g start y

pub lookup-neighbours :
    (dir : Direction) (node next : ℕ) (g : Sdg)
    → Maps.lookup next (neighbours dir node g).0 ≡ edge dir g node next
unfolding neighbours get_succ_set get_pred_set
lookup-neighbours back node next g = refl
lookup-neighbours forward node next g = refl

pub edge-neighbours :
    (dir : Direction) (node x y : ℕ) (g : Sdg)
    → edge dir (neighbours dir node g).1 x y ≡ edge dir g x y
unfolding neighbours
edge-neighbours back node x y g = pred_edge-get_pred_set node y x g
edge-neighbours forward node x y g = succ_edge-get_succ_set node x y g

pub node_set-neighbours :
    (dir : Direction) (node : ℕ) (g : Sdg) → (neighbours dir node g).1.node_set ≡ g.node_set
unfolding neighbours get_succ_set get_pred_set
node_set-neighbours back node g = refl
node_set-neighbours forward node g = refl

pub neighbours-IsValid :
    (dir : Direction) (node : ℕ) (g : Sdg) → IsValid g → IsValid (neighbours dir node g).1
unfolding neighbours
neighbours-IsValid back node g v = get_pred_set-IsValid node g v
neighbours-IsValid forward node g v = get_succ_set-IsValid node g v

pub neighbours-IsSorted :
    (dir : Direction) (node : ℕ) (g : Sdg) → IsValid g → Maps.IsSorted (neighbours dir node g).0
unfolding neighbours get_succ_set get_pred_set
neighbours-IsSorted back node g v = v.pred_sorted node
neighbours-IsSorted forward node g v = v.succ_sorted node

-- What a step leads to is in the node set.
pub Step-node_set :
    (dir : Direction) (mask x y : ℕ) (g : Sdg)
    → IsValid g
    → Step dir mask g x y
    → Sets.contains y g.node_set ≡ true
Step-node_set back mask x y g v s = elim (Option-cases (pred_edge g x y)) [
  | inl missing ↦ absurd (false≢true (rw missing at s))
  | inr (e, found) ↦ (v.closed y x e (v.mirror y x ∙ found)).0
]
Step-node_set forward mask x y g v s = elim (Option-cases (succ_edge g x y)) [
  | inl missing ↦ absurd (false≢true (rw missing at s))
  | inr (e, found) ↦ (v.closed x y e found).1
]

-- A scan adds exactly the unmarked neighbours over allowed edges.
pub contains-scan :
    (result : List ℕ) (mask q : ℕ) (m : Map (Option ℕ)) (work : List ℕ)
    → Maps.IsSorted m
    → Sets.contains q (scan result mask m work)
      ≡ (Sets.contains q work || (not (Sets.contains q result) && allows mask (Maps.lookup q m)))
unfolding scan is_new
contains-scan result mask q [] work s = ground arith
contains-scan result mask q ((j, none) ∷ m) work s =
    ground (arith, contains-scan result mask q m work, lookup_of_Above j m s.0)
contains-scan result mask q ((j, some attr) ∷ m) work s = ground (
  arith,
  contains-scan result mask q m work,
  contains-scan result mask q m (Sets.insert j work),
  contains-insert j q work,
  lookup_of_Above j m s.0,
)
