-- ===== src/Andersen/Alias/Memory.antt =====
-- andersen/lib/AndersenAA.cpp, `pointsToConstantMemory`, after `solveConstraints`.
use programslicer.Common.{ℕ, ◌≡◌, ◌⊎◌, Bool, true, false, not, ◌&&◌, some, ◌==◌, if◌then◌else◌}
use programslicer.Common.Maps
use programslicer.NodeFactory.{AndersNodeFactory, Value, get_value_node_for, null_object_index}
use programslicer.Andersen.Constraint.Derives.{Derives}
use programslicer.Andersen.PtsSet.{AndersPtsSet, has}
use programslicer.Andersen.Alias.{Analysis, Location, get_value_for_node, points_to_constant_memory}

module _ (is_global_value is_global_variable is_constant : ℕ → Bool) where
  -- An object that is null, or whose value is a global one other than a variable that may change.
  abbrev pub IsConstant : AndersNodeFactory → ℕ → Type 0
  IsConstant f o =
      (val : ℕ) × (get_value_for_node o f ≡ some val)
      × (((val == 0) ≡ true) × ((o == null_object_index) ≡ true)
          ⊎ ((val == 0) ≡ false)
            × (is_global_value val ≡ true)
            × ((is_global_variable val && not (is_constant val)) ≡ false))

  abbrev AllConstant : AndersPtsSet → AndersNodeFactory → Type 0
  AllConstant set f = (o : ℕ) → has o set ≡ true → IsConstant f o

  -- The tests of the loop at an object and its value.
  abbrev passes : ℕ → ℕ → Bool
  passes o val =
      if val == 0
      then o == null_object_index
      else is_global_value val && not (is_global_variable val && not (is_constant val))

-- The ends of the function for a pointer with a node.
module _ (is_global_value is_global_variable is_constant : ℕ → Bool) (value : ℕ → Value)
    (base : Bool) (loc : Location) (i : ℕ) (a : Analysis)
    (at_loc : get_value_node_for (value loc.ptr) a.node_factory ≡ some i) where
  abbrev Answers : Bool → Type 0
  Answers r =
      points_to_constant_memory value is_global_value is_global_variable is_constant base loc a
      ≡ some r
