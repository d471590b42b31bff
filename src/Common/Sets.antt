-- ===== src/Common/Sets.antt =====
-- `std::set` of pointers or indices: a strictly increasing list, so that `*begin()` is its head
-- and a loop over the set meets the elements in the source's order.
use Prim.Native.Nat.{ℕ, suc, ◌<◌}
use mathlib.Core.Path.{◌≡◌, refl}
use mathlib.Core.Bool.{Bool, false, ◌||◌}
use mathlib.Core.List.{List, [], ◌∷◌}
use native.Mathlib.Omega.{arith}
use programslicer.Common.Tests.{ltb, ◌==◌, if◌then◌else◌, length}

-- `s.find(x) != s.end()`
abbrev pub contains : ℕ → List ℕ → Bool
contains x [] = false
contains x (y ∷ s) = y == x || contains x s

-- The position of a new element.
abbrev pub place : ℕ → List ℕ → List ℕ
place x [] = x ∷ []
place x (y ∷ s) = if ltb x y then x ∷ y ∷ s else y ∷ place x s

-- `s.insert(x)`
unfoldable pub insert : ℕ → List ℕ → List ℕ
insert x s = if contains x s then s else place x s

-- `s.erase(x)`
unfoldable pub erase : ℕ → List ℕ → List ℕ
erase x [] = []
erase x (y ∷ s) = if y == x then erase x s else y ∷ erase x s

contains-place : (x q : ℕ) (s : List ℕ) → contains q (place x s) ≡ (x == q || contains q s)
contains-place x q [] = refl
contains-place x q (y ∷ s) = ground (arith, contains-place x q s)

pub contains-insert : (x q : ℕ) (s : List ℕ) → contains q (insert x s) ≡ (x == q || contains q s)
unfolding insert
contains-insert x q s = ground (arith, contains-place x q s)

pub contains-erase :
    (x q : ℕ) (s : List ℕ) → contains q (erase x s) ≡ (if x == q then false else contains q s)
unfolding erase
contains-erase x q [] = ground arith
contains-erase x q (y ∷ s) = ground (arith, contains-erase x q s)

length-place : (x : ℕ) (s : List ℕ) → length (place x s) ≡ suc (length s)
length-place x [] = refl
length-place x (y ∷ s) = ground (arith, length-place x s)

-- An insertion adds one element, or none if it was there.
pub length-insert :
    (x : ℕ) (s : List ℕ) → length (insert x s) ≡ (if contains x s then length s else suc (length s))
unfolding insert
length-insert x s = ground (arith, length-place x s)

-- All elements are above a bound.
abbrev pub Above : ℕ → List ℕ → Type 0
Above x [] = Unit
Above x (y ∷ s) = (x < y) × Above x s

abbrev pub IsSorted : List ℕ → Type 0
IsSorted [] = Unit
IsSorted (x ∷ s) = Above x s × IsSorted s

Above-place : (b x : ℕ) (s : List ℕ) → b < x → Above b s → Above b (place x s)
Above-place b x [] h a = (h, tt)
Above-place b x (y ∷ s) h a = ground (arith, Above-place b x s)

Above-trans : (b x : ℕ) (s : List ℕ) → b < x → Above x s → Above b s
Above-trans b x [] h a = tt
Above-trans b x (y ∷ s) h a = (omega arith, Above-trans b x s h a.1)

not-contains_of_Above : (x : ℕ) (s : List ℕ) → Above x s → contains x s ≡ false
not-contains_of_Above x [] a = refl
not-contains_of_Above x (y ∷ s) a = ground (arith, not-contains_of_Above x s)

IsSorted-place : (x : ℕ) (s : List ℕ) → IsSorted s → contains x s ≡ false → IsSorted (place x s)
IsSorted-place x [] h n = (tt, tt)
IsSorted-place x (y ∷ s) h n =
    ground (arith, Above-place y x s, Above-trans x y s, IsSorted-place x s)

pub insert-IsSorted : (x : ℕ) (s : List ℕ) → IsSorted s → IsSorted (insert x s)
unfolding insert
insert-IsSorted x s h = ground (arith, IsSorted-place x s)
