-- ===== src/Andersen/Constraint.antt =====
-- andersen/include/Constraint.h: the constraints, by the indices of their nodes.
pub mod Meaning
pub mod Derives
use programslicer.Common.{ℕ, Bool, true, false, not, ◌&&◌, ◌==◌, ltb, if◌then◌else◌}

pub data ConstraintType : Type 0 where
  addr_of copy load store : ConstraintType

pub record AndersConstraint : Type 0 where
  pub type : ConstraintType
  pub dest : ℕ
  pub src : ℕ

-- `AndersConstraint(Ty, D, S)`.
abbrev pub constraint : ConstraintType → ℕ → ℕ → AndersConstraint
constraint t d s = record { type = t; dest = d; src = s }

-- The value of the enumerator.
abbrev pub ordinal : ConstraintType → ℕ
ordinal addr_of = 0
ordinal copy = 1
ordinal load = 2
ordinal store = 3

-- `operator==`
unfoldable pub equal : AndersConstraint → AndersConstraint → Bool
equal a b = ordinal b.type == ordinal a.type && (b.dest == a.dest && b.src == a.src)

-- `operator!=`
unfoldable pub not_equal : AndersConstraint → AndersConstraint → Bool
unfolding equal
not_equal a b = not (equal a b)

-- `operator<`
unfoldable pub less : AndersConstraint → AndersConstraint → Bool
less a b =
    if not (ordinal b.type == ordinal a.type)
    then ltb (ordinal b.type) (ordinal a.type)
    else if not (b.dest == a.dest)
    then ltb b.dest a.dest
    else ltb b.src a.src
