-- ===== src/Andersen/Collect.antt =====
-- andersen/lib/ConstraintCollect.cpp and andersen/lib/ExternalLibrary.cpp: the constraints of a
-- module. Here the state of the phase; the children follow the functions of the two files. `none` is
-- a failed assertion, a null dereference, or an argument out of range.
pub mod Names
pub mod Library
pub mod Calls
pub mod Instructions
pub mod Globals
pub mod Whole
pub mod Valid
pub mod Created
pub mod Keeps
pub mod Places
pub mod Demands
pub mod Linked
pub mod Returned
pub mod Passed
pub mod Indirect
pub mod Complete
pub mod Sound
pub mod Total
use programslicer.Common.{
  ℕ, Bool, true, false, Option, none, some, List, [], ◌∷◌, ◌++◌, ◌==◌, if◌then◌else◌, ◌>>=◌,
}
use programslicer.NodeFactory.{AndersNodeFactory, Value, invalid_index, get_value_node_for}
use programslicer.Andersen.Constraint.{ConstraintType, AndersConstraint, constraint}

-- The members of `Andersen` that the phase changes.
pub record Collector : Type 0 where
  pub node_factory : AndersNodeFactory
  pub constraints : List AndersConstraint

-- `constraints.emplace_back(type, dest, src)`
unfoldable pub add : ConstraintType → ℕ → ℕ → Collector → Collector
add type dest src s = record s { constraints = s.constraints ++ constraint type dest src ∷ [] }

-- An index that is asserted to be valid.
unfoldable pub valid : ℕ → Option ℕ
valid i = if i == invalid_index then none else some i

-- The node of a value, which is asserted to be there.
unfoldable pub value_node : Value → Collector → Option ℕ
value_node v s = do i ← get_value_node_for v s.node_factory; valid i
