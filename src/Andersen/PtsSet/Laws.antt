-- ===== src/Andersen/PtsSet/Laws.antt =====
-- andersen/include/PtsSet.h: the operations as operations of sets.
use programslicer.Common.{
  ℕ, ◌≡◌, refl, true, false, ◌||◌, List, [], ◌∷◌, arith, Bool-cases, ==_refl, eq_of_==, inl, inr,
}
use programslicer.Common.Sets
use programslicer.Common.Sets.{contains-insert}
use programslicer.Andersen.PtsSet.{AndersPtsSet, has, contains, join}

pub has-join :
    (x : ℕ) (set other : AndersPtsSet) → has x (join set other) ≡ (has x set || has x other)
unfolding join
has-join x set [] = ground arith
has-join x set (y ∷ other) =
    ground (arith, has-join x (Sets.insert y set) other, contains-insert y x set)

pub contains_elim :
    (set other : AndersPtsSet)
    → contains set other ≡ true
    → (x : ℕ) → has x other ≡ true
    → has x set ≡ true
unfolding contains
contains_elim set [] c x h = ground arith
contains_elim set (y ∷ other) c x h =
    ground (arith, contains_elim set other (ground arith) x, eq_of_== y x)

-- A set that is no superset lacks an element of the other.
pub contains_witness :
    (set other : AndersPtsSet)
    → contains set other ≡ false
    → (x : ℕ) × (has x other ≡ true) × (has x set ≡ false)
unfolding contains
contains_witness set [] c = ground arith
contains_witness set (y ∷ other) c = elim (Bool-cases (has y set)) [
  | inl there ↦
      let (x, inside, outside) = contains_witness set other (ground arith) in
      (x, ground arith, outside)
  | inr missing ↦ (y, ground (arith, ==_refl y), missing)
]

pub insert_same : (x : ℕ) (set : List ℕ) → Sets.contains x set ≡ true → Sets.insert x set ≡ set
unfolding Sets.insert
insert_same x set h = ground arith

-- A join with a subset changes nothing.
pub join_same : (set other : AndersPtsSet) → contains set other ≡ true → join set other ≡ set
unfolding contains join
join_same set [] c = refl
join_same set (y ∷ other) c =
    let inside : has y set ≡ true = ground arith in
    let rest : contains set other ≡ true = ground arith in
    rw (insert_same y set inside) (join_same set other rest)
