-- ===== src/Andersen/WorkList.antt =====
-- andersen/lib/ConstraintSolving.cpp, `AndersWorkList`: a queue without duplicates.
pub mod Laws
use programslicer.Common.{
  ℕ, Option, none, some, List, [], ◌∷◌, ◌++◌, Bool, true, false, if◌then◌else◌,
}
use programslicer.Common.Sets

pub record AndersWorkList : Type 0 where
  pub list : List ℕ
  pub set : List ℕ

abbrev pub empty : AndersWorkList
empty = record { list = []; set = [] }

unfoldable pub enqueue : ℕ → AndersWorkList → AndersWorkList
unfolding Sets.insert
enqueue elem w =
    if Sets.contains elem w.set
    then w
    else record { list = w.list ++ elem ∷ []; set = Sets.insert elem w.set }

-- `none` is the failed assertion.
unfoldable pub dequeue : AndersWorkList → Option (ℕ × AndersWorkList)
unfolding Sets.erase
dequeue w = elim w.list [
  | [] ↦ none
  | ret ∷ rest ↦ some (ret, record { list = rest; set = Sets.erase ret w.set })
]

abbrev pub is_empty : AndersWorkList → Bool
is_empty w = elim w.list [ [] ↦ true | _ ∷ _ ↦ false ]
