-- ===== src/Slice/Mark/Phases.antt =====
-- BackSlice.cpp and ForwardSlice.cpp: a slice as a relation, whatever the order of the search.
use programslicer.Common.{ℕ, ◌≡◌, ◌↔◌, true, List, subst, sym}
use programslicer.Common.Sets
use programslicer.Slice.Mark.{Direction, Sdg, first_mask, second_mask}
use programslicer.Slice.Mark.Neighbours.{edge, allows, Step, Reaches, from, along}

-- Paths of edges of the first mask from the criterion, and then paths of edges of the second.
pub data InSlice (dir : Direction) (g : Sdg) (criterion : List ℕ) : ℕ → Type 0 where
  ascending : {x : ℕ} → Reaches dir first_mask g criterion x → InSlice dir g criterion x
  descending :
      {x y : ℕ} → InSlice dir g criterion x → Step dir second_mask g x y → InSlice dir g criterion y

-- A path is one of every graph with the same edges.
pub Reaches-same :
    (dir : Direction) (mask : ℕ) (g h : Sdg) (start : List ℕ)
    → ((x y : ℕ) → edge dir g x y ≡ edge dir h x y)
    → {x : ℕ} → Reaches dir mask g start x
    → Reaches dir mask h start x
Reaches-same dir mask g h start same (from c) = from c
Reaches-same dir mask g h start same (along {x} {y} r s) =
    along (Reaches-same dir mask g h start same r) (subst (λ e. allows mask e ≡ true) (same x y) s)

pub Reaches-mono :
    (dir : Direction) (mask : ℕ) (g : Sdg) (start larger : List ℕ)
    → ((x : ℕ) → Sets.contains x start ≡ true → Sets.contains x larger ≡ true)
    → {x : ℕ} → Reaches dir mask g start x
    → Reaches dir mask g larger x
Reaches-mono dir mask g start larger sub (from {x} c) = from (sub x c)
Reaches-mono dir mask g start larger sub (along r s) =
    along (Reaches-mono dir mask g start larger sub r) s

pub InSlice-mono :
    (dir : Direction) (g : Sdg) (start larger : List ℕ)
    → ((x : ℕ) → Sets.contains x start ≡ true → Sets.contains x larger ≡ true)
    → {x : ℕ} → InSlice dir g start x
    → InSlice dir g larger x
InSlice-mono dir g start larger sub (ascending r) =
    ascending (Reaches-mono dir first_mask g start larger sub r)
InSlice-mono dir g start larger sub (descending i s) =
    descending (InSlice-mono dir g start larger sub i) s

-- The second search, from the nodes that the first marked, gives the slice.
module _ (dir : Direction) (g g' : Sdg) (criterion first : List ℕ)
    (same : (x y : ℕ) → edge dir g' x y ≡ edge dir g x y)
    (exact : (x : ℕ) → (Sets.contains x first ≡ true) ↔ Reaches dir first_mask g criterion x) where
  pub Reaches-InSlice : {x : ℕ} → Reaches dir second_mask g' first x → InSlice dir g criterion x
  Reaches-InSlice (from {x} c) = ascending ((exact x).0 c)
  Reaches-InSlice (along {x} {y} r s) =
      descending (Reaches-InSlice r) (subst (λ e. allows second_mask e ≡ true) (same x y) s)

  pub InSlice-Reaches : {x : ℕ} → InSlice dir g criterion x → Reaches dir second_mask g' first x
  InSlice-Reaches (ascending {x} r) = from ((exact x).1 r)
  InSlice-Reaches (descending {x} {y} i s) =
      along (InSlice-Reaches i) (subst (λ e. allows second_mask e ≡ true) (sym (same x y)) s)
