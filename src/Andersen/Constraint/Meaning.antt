-- ===== src/Andersen/Constraint/Meaning.antt =====
-- andersen/include/Constraint.h: what the four kinds of constraints say of a relation between nodes
-- and the objects that they may point to.
use programslicer.Common.{ℕ, ◌<◌}
use programslicer.Andersen.Constraint.{ConstraintType, addr_of, copy, load, store, AndersConstraint}

-- The indices of the constraint are those of nodes.
abbrev pub HasNodes : ℕ → AndersConstraint → Type 0
HasNodes num_nodes c = (c.src < num_nodes) × (c.dest < num_nodes)

-- Merged nodes point to the same objects: those of their representative `rep n`.
module _ (rep : ℕ → ℕ) (P : ℕ → ℕ → Type 0) where
  -- `dst = &src`, `dst = src`, `dst = *src` and `*dst = src`.
  abbrev pub SatisfiesAs : ConstraintType → (src dst : ℕ) → Type 0
  SatisfiesAs addr_of src dst = P (rep dst) src
  SatisfiesAs copy src dst = (x : ℕ) → P (rep src) x → P (rep dst) x
  SatisfiesAs load src dst = (w x : ℕ) → P (rep src) w → P (rep w) x → P (rep dst) x
  SatisfiesAs store src dst = (w x : ℕ) → P (rep dst) w → P (rep src) x → P (rep w) x

  abbrev pub Satisfies : AndersConstraint → Type 0
  Satisfies c = SatisfiesAs c.type c.src c.dest
