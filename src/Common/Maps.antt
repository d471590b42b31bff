-- ===== src/Common/Maps.antt =====
-- `std::map` with pointers or indices as keys: the entries in increasing order of their keys.
use Prim.Native.Nat.{ℕ, ◌<◌}
use mathlib.Core.Path.{◌≡◌, refl}
use mathlib.Core.Option.{Option, none, some}
use mathlib.Core.List.{List, [], ◌∷◌}
use native.Mathlib.Omega.{arith}
use programslicer.Common.Tests.{ltb, ◌==◌, if◌then◌else◌}

abbrev pub Map {ℓ} : Type ℓ → Type ℓ
Map V = List (ℕ × V)

module _ {ℓ} {V : Type ℓ} where
  -- `m.find(k)`
  abbrev pub lookup : ℕ → Map V → Option V
  lookup k [] = none
  lookup k ((j, v) ∷ m) = if j == k then some v else lookup k m

  -- `m[k] = v`
  unfoldable pub set : ℕ → V → Map V → Map V
  set k v [] = (k, v) ∷ []
  set k v ((j, w) ∷ m) =
      if j == k then (k, v) ∷ m else if ltb k j then (k, v) ∷ (j, w) ∷ m else (j, w) ∷ set k v m

  -- `m.erase(k)`
  unfoldable pub erase : ℕ → Map V → Map V
  erase k [] = []
  erase k ((j, w) ∷ m) = if j == k then erase k m else (j, w) ∷ erase k m

  pub lookup-set :
      (k q : ℕ) (v : V) (m : Map V) → lookup q (set k v m) ≡ (if k == q then some v else lookup q m)
  unfolding set
  lookup-set k q v [] = refl
  lookup-set k q v ((j, w) ∷ m) = ground (arith, lookup-set k q v m)

  pub lookup-erase :
      (k q : ℕ) (m : Map V) → lookup q (erase k m) ≡ (if k == q then none else lookup q m)
  unfolding erase
  lookup-erase k q [] = ground arith
  lookup-erase k q ((j, w) ∷ m) = ground (arith, lookup-erase k q m)

  abbrev pub Above : ℕ → Map V → Type 0
  Above k [] = Unit
  Above k ((j, w) ∷ m) = (k < j) × Above k m

  -- The keys increase, so none stands twice.
  abbrev pub IsSorted : Map V → Type 0
  IsSorted [] = Unit
  IsSorted ((j, w) ∷ m) = Above j m × IsSorted m

  Above-trans : (b k : ℕ) (m : Map V) → b < k → Above k m → Above b m
  Above-trans b k [] h a = tt
  Above-trans b k ((j, w) ∷ m) h a = (omega arith, Above-trans b k m h a.1)

  pub lookup_of_Above : (k : ℕ) (m : Map V) → Above k m → lookup k m ≡ none
  lookup_of_Above k [] a = refl
  lookup_of_Above k ((j, w) ∷ m) a = ground (arith, lookup_of_Above k m)

  Above-set : (b k : ℕ) (v : V) (m : Map V) → b < k → Above b m → Above b (set k v m)
  unfolding set
  Above-set b k v [] h a = (h, tt)
  Above-set b k v ((j, w) ∷ m) h a = ground (arith, Above-set b k v m)

  pub set-IsSorted : (k : ℕ) (v : V) (m : Map V) → IsSorted m → IsSorted (set k v m)
  unfolding set
  set-IsSorted k v [] h = (tt, tt)
  set-IsSorted k v ((j, w) ∷ m) h =
      ground (arith, Above-set j k v m, Above-trans k j m, set-IsSorted k v m)

  Above-erase : (b k : ℕ) (m : Map V) → Above b m → Above b (erase k m)
  unfolding erase
  Above-erase b k [] a = tt
  Above-erase b k ((j, w) ∷ m) a = ground (arith, Above-erase b k m)

  pub erase-IsSorted : (k : ℕ) (m : Map V) → IsSorted m → IsSorted (erase k m)
  unfolding erase
  erase-IsSorted k [] h = tt
  erase-IsSorted k ((j, w) ∷ m) h = ground (arith, Above-erase j k m, erase-IsSorted k m)
