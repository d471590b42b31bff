-- ===== src/Andersen/PtsSet.antt =====
-- andersen/include/PtsSet.h: points-to sets. LLVM's sparse bit vector is a set of numbers; an
-- operation that changes it returns the set beside what the source returns.
pub mod Laws
use programslicer.Common.{
  ℕ, zero, suc, Bool, true, false, not, ◌&&◌, ◌||◌, List, [], ◌∷◌, ◌==◌, if◌then◌else◌, length,
}
use programslicer.Common.Sets

abbrev pub AndersPtsSet : Type 0
AndersPtsSet = List ℕ

abbrev pub has : ℕ → AndersPtsSet → Bool
has idx set = Sets.contains idx set

unfoldable pub insert : ℕ → AndersPtsSet → Bool × AndersPtsSet
unfolding Sets.insert
insert idx set = (not (Sets.contains idx set), Sets.insert idx set)

-- Whether the first set is a superset of the second.
unfoldable pub contains : AndersPtsSet → AndersPtsSet → Bool
contains set [] = true
contains set (idx ∷ other) = has idx set && contains set other

unfoldable pub intersect_with : AndersPtsSet → AndersPtsSet → Bool
intersect_with set [] = false
intersect_with set (idx ∷ other) = has idx set || intersect_with set other

-- `bitvec |= other`
unfoldable pub join : AndersPtsSet → AndersPtsSet → AndersPtsSet
unfolding Sets.insert
join set [] = set
join set (idx ∷ other) = join (Sets.insert idx set) other

unfoldable pub union_with : AndersPtsSet → AndersPtsSet → Bool × AndersPtsSet
unfolding contains join
union_with set other = (not (contains set other), join set other)

abbrev pub get_size : AndersPtsSet → ℕ
get_size set = length set

abbrev pub is_empty : AndersPtsSet → Bool
is_empty [] = true
is_empty (idx ∷ set) = false
