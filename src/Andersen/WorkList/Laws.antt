-- ===== src/Andersen/WorkList/Laws.antt =====
-- andersen/lib/ConstraintSolving.cpp, `AndersWorkList`: what a work list holds.
use programslicer.Common.{
  ℕ, suc, ◌≤◌, ◌≡◌, ◌⊎◌, inl, inr, refl, Bool, true, false, List, [], ◌∷◌, ◌++◌, ◌==◌, ◌||◌,
  if◌then◌else◌, arith, length, Bool-cases, ==_refl, eq_of_==,
}
use programslicer.Common.Sets
use programslicer.Common.Sets.{contains-insert, contains-erase}
use programslicer.Andersen.WorkList.{AndersWorkList, enqueue}

-- An element of the set is in the queue.
abbrev pub IsWorkList : AndersWorkList → Type 0
IsWorkList w = (x : ℕ) → Sets.contains x w.set ≡ true → Sets.contains x w.list ≡ true

contains-append :
    (x y : ℕ) (s : List ℕ) → Sets.contains y (s ++ x ∷ []) ≡ (Sets.contains y s || x == y)
contains-append x y [] = ground arith
contains-append x y (z ∷ s) = ground (arith, contains-append x y s)

length-append : (x : ℕ) (s : List ℕ) → length (s ++ x ∷ []) ≡ suc (length s)
length-append x [] = refl
length-append x (z ∷ s) = ground (arith, length-append x s)

module _ (x : ℕ) (w : AndersWorkList) where
  pub enqueue-in : IsWorkList w → Sets.contains x (enqueue x w).list ≡ true
  unfolding enqueue
  enqueue-in ok = ground (arith, ok x, contains-append x x w.list, ==_refl x)

  pub enqueue-grows :
      (y : ℕ) → Sets.contains y w.list ≡ true → Sets.contains y (enqueue x w).list ≡ true
  unfolding enqueue
  enqueue-grows y h = ground (arith, contains-append x y w.list)

  pub enqueue-from :
      (y : ℕ)
      → Sets.contains y (enqueue x w).list ≡ true
      → (x ≡ y) ⊎ (Sets.contains y w.list ≡ true)
  unfolding enqueue
  enqueue-from y h = elim (Bool-cases (x == y)) [
    | inl same ↦ inl (eq_of_== x y same)
    | inr other ↦ inr (ground (arith, contains-append x y w.list))
  ]

  pub length-enqueue : length (enqueue x w).list ≤ suc (length w.list)
  unfolding enqueue
  length-enqueue = ground (arith, length-append x w.list)

  pub enqueue-IsWorkList : IsWorkList w → IsWorkList (enqueue x w)
  unfolding enqueue
  enqueue-IsWorkList ok y h =
      ground (arith, ok y, contains-append x y w.list, contains-insert x y w.set)

-- Taking the first element off.
pub dequeue-IsWorkList :
    (x : ℕ) (rest set : List ℕ)
    → IsWorkList (record { list = x ∷ rest; set = set })
    → IsWorkList (record { list = rest; set = Sets.erase x set })
dequeue-IsWorkList x rest set ok y h = ground (arith, ok y, contains-erase x y set)

-- `if (changed) enqueue(x);`
module _ (x : ℕ) (w : AndersWorkList) where
  abbrev pub enqueue_if : Bool → AndersWorkList
  enqueue_if changed = if changed then enqueue x w else w

  pub enqueue_if-grows :
      (changed : Bool) (y : ℕ)
      → Sets.contains y w.list ≡ true
      → Sets.contains y (enqueue_if changed).list ≡ true
  enqueue_if-grows true y h = enqueue-grows x w y h
  enqueue_if-grows false y h = h

  pub enqueue_if-from :
      (changed : Bool) (y : ℕ)
      → Sets.contains y (enqueue_if changed).list ≡ true
      → (x ≡ y) ⊎ (Sets.contains y w.list ≡ true)
  enqueue_if-from true y h = enqueue-from x w y h
  enqueue_if-from false y h = inr h

  pub enqueue_if-IsWorkList : (changed : Bool) → IsWorkList w → IsWorkList (enqueue_if changed)
  enqueue_if-IsWorkList true ok = enqueue-IsWorkList x w ok
  enqueue_if-IsWorkList false ok = ok

  pub enqueue_if-cases :
      (changed : Bool)
      → IsWorkList w
      → ((changed ≡ true)
          × (Sets.contains x (enqueue_if changed).list ≡ true)
          × (length (enqueue_if changed).list ≤ suc (length w.list)))
        ⊎ (changed ≡ false) × (length (enqueue_if changed).list ≡ length w.list)
  enqueue_if-cases true ok = inl (refl, enqueue-in x w ok, length-enqueue x w)
  enqueue_if-cases false ok = inr (refl, refl)
