-- ===== src/Andersen/Constraint/Derives.antt =====
-- andersen/include/Constraint.h: what follows from a list of constraints, as rules.
use programslicer.Common.{ℕ, ◌≡◌, refl, inl, inr, subst, List, [], ◌∷◌, All, Any}
use programslicer.Andersen.Constraint.{
  ConstraintType, addr_of, copy, load, store, AndersConstraint, constraint,
}
use programslicer.Andersen.Constraint.Meaning.{SatisfiesAs, Satisfies}

-- The list has the constraint.
abbrev pub Among : List AndersConstraint → AndersConstraint → Type 0
Among cs c = Any (λ d. d ≡ c) cs

-- What the constraints of a list let one conclude: a node may point to an object.
pub data Derives (rep : ℕ → ℕ) (cs : List AndersConstraint) : ℕ → ℕ → Type 0 where
  address : {dst src : ℕ} → Among cs (constraint addr_of dst src) → Derives rep cs (rep dst) src
  copied :
      {dst src x : ℕ}
      → Among cs (constraint copy dst src)
      → Derives rep cs (rep src) x
      → Derives rep cs (rep dst) x
  loaded :
      {dst src w x : ℕ}
      → Among cs (constraint load dst src)
      → Derives rep cs (rep src) w
      → Derives rep cs (rep w) x
      → Derives rep cs (rep dst) x
  stored :
      {dst src w x : ℕ}
      → Among cs (constraint store dst src)
      → Derives rep cs (rep dst) w
      → Derives rep cs (rep src) x
      → Derives rep cs (rep w) x

module _ (rep : ℕ → ℕ) (cs : List AndersConstraint) where
  rule :
      (ty : ConstraintType) (src dst : ℕ)
      → Among cs (constraint ty dst src)
      → SatisfiesAs rep (Derives rep cs) ty src dst
  rule addr_of src dst among = address among
  rule copy src dst among = λ x p. copied among p
  rule load src dst among = λ w x p q. loaded among p q
  rule store src dst among = λ w x p q. stored among p q

  each :
      (ds : List AndersConstraint)
      → ((c : AndersConstraint) → Among ds c → Among cs c)
      → All (Satisfies rep (Derives rep cs)) ds
  each [] inside = tt
  each (c ∷ ds) inside =
      (rule c.type c.src c.dest (inside c (inl refl)), each ds (λ d h. inside d (inr h)))

  -- What follows satisfies the constraints.
  pub Derives-Satisfies : All (Satisfies rep (Derives rep cs)) cs
  Derives-Satisfies = each cs (λ c h. h)

  pub Among-Satisfies :
      (P : ℕ → ℕ → Type 0) (c : AndersConstraint) (ds : List AndersConstraint)
      → All (Satisfies rep P) ds
      → Among ds c
      → Satisfies rep P c
  Among-Satisfies P c [] all among = absurd among
  Among-Satisfies P c (d ∷ ds) (here, all) (inl e) = subst (Satisfies rep P) e here
  Among-Satisfies P c (d ∷ ds) (here, all) (inr later) = Among-Satisfies P c ds all later

  -- And it is in every relation that does.
  pub Derives-least :
      (P : ℕ → ℕ → Type 0) → All (Satisfies rep P) cs → {n v : ℕ} → Derives rep cs n v → P n v
  Derives-least P all (address among) = Among-Satisfies P _ cs all among
  Derives-least P all (copied among p) = Among-Satisfies P _ cs all among _ (Derives-least P all p)
  Derives-least P all (loaded among p q) =
      Among-Satisfies P _ cs all among _ _ (Derives-least P all p) (Derives-least P all q)
  Derives-least P all (stored among p q) =
      Among-Satisfies P _ cs all among _ _ (Derives-least P all p) (Derives-least P all q)
