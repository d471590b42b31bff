-- ===== src/Andersen/Collect/Keeps.antt =====
-- andersen/lib/ConstraintCollect.cpp and andersen/lib/ExternalLibrary.cpp: every part of the phase
-- keeps the state valid. Here the steps that the parts share; the children follow the files.
pub mod Library
pub mod Calls
pub mod Instructions
pub mod Globals
pub mod Whole
use programslicer.Common.{ℕ, ◌<◌, Option, some, arith, Yields, yields, Yields-map}
use programslicer.Andersen.Constraint.{ConstraintType}
use programslicer.Andersen.Collect.{Collector, add}
use programslicer.Andersen.Collect.Valid.{size, Keeps, Extends-refl, Extends-trans, add-Keeps}

pub Keeps-trans : (k s s' : Collector) → Keeps k s → Keeps s s' → Keeps k s'
Keeps-trans k s s' (_, a) (v, b) = (v, Extends-trans k s s' a b)

pub Keeps-self : (k s : Collector) → Keeps k s → Keeps s s
Keeps-self k s (v, _) = (v, Extends-refl s)

-- The end of a part that adds a constraint.
pub added :
    (ty : ConstraintType) {d r : ℕ} {k s : Collector}
    → Keeps k s
    → d < size s
    → r < size s
    → Yields (Keeps k) (some (add ty d r s))
added ty keeps hd hr = yields (add-Keeps ty _ _ _ _ keeps hd hr)

-- A part that was looked at from a state on.
pub from_size :
    {k s : Collector} {m : Option Collector} → Keeps k s → Yields (Keeps s) m → Yields (Keeps k) m
from_size keeps p = Yields-map p (λ s' keeps'. Keeps-trans _ _ s' keeps keeps')
