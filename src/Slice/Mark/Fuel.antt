-- ===== src/Slice/Mark/Fuel.antt =====
-- BackSlice.cpp and ForwardSlice.cpp, `markReachingVertices…`: the loop ends. A node leaves the
-- worklist once, so the nodes of the graph and the first worklist bound the rounds.
use programslicer.Common.{
  ℕ, zero, suc, ◌+◌, ◌≤◌, ◌≡◌, refl, Bool, true, false, not, ◌&&◌, Option, none, some, List, [],
  ◌∷◌, if◌then◌else◌, arith, eq_of_==, ==_refl, length, count_if, count_if_mono,
}
use programslicer.Common.Sets
use programslicer.Common.Sets.{contains-insert, length-insert}
use programslicer.Common.Maps
use programslicer.Common.Maps.{Map, lookup_of_Above}
use programslicer.Slice.Mark.{Direction, Sdg, neighbours, is_new, scan, mark}
use programslicer.Slice.Mark.Neighbours.{
  allows, lookup-neighbours, neighbours-IsSorted, Step-node_set,
}
use programslicer.Slice.Mark.Search.{Inv, round-Inv}

-- A node that was neither marked nor queued.
abbrev pub is_fresh : List ℕ → List ℕ → ℕ → Bool
is_fresh result work u = not (Sets.contains u result) && not (Sets.contains u work)

abbrev pub fresh : List ℕ → List ℕ → List ℕ → ℕ
fresh universe result work = count_if (is_fresh result work) universe

fresh-insert-le : (u r w : List ℕ) (x : ℕ) → fresh u r (Sets.insert x w) ≤ fresh u r w
fresh-insert-le u r w x =
    count_if_mono (is_fresh r (Sets.insert x w)) (is_fresh r w)
      (λ y h. ground (arith, contains-insert x y w)) u

-- To queue a fresh node of the universe makes one fewer.
fresh-insert-lt :
    (u r w : List ℕ) (x : ℕ)
    → Sets.contains x u ≡ true
    → Sets.contains x r ≡ false
    → Sets.contains x w ≡ false
    → suc (fresh u r (Sets.insert x w)) ≤ fresh u r w
fresh-insert-lt [] r w x c nr nw = absurd (ground arith)
fresh-insert-lt (y ∷ u) r w x c nr nw =
    ground
      (arith, fresh-insert-lt u r w x, fresh-insert-le u r w x, contains-insert x y w, eq_of_== y x)

-- To mark the node that leaves the worklist makes none fresh.
fresh-pop : (u r w : List ℕ) (x : ℕ) → fresh u (Sets.insert x r) w ≤ fresh u r (x ∷ w)
fresh-pop u r w x =
    count_if_mono (is_fresh (Sets.insert x r) w) (is_fresh r (x ∷ w))
      (λ y h. ground (arith, contains-insert x y r)) u

offer-measure :
    (u r w : List ℕ) (mask j : ℕ) (e : Option ℕ)
    → (allows mask (some e) ≡ true → Sets.contains j u ≡ true)
    → fresh u r (if is_new r mask j e then Sets.insert j w else w)
        + length (if is_new r mask j e then Sets.insert j w else w)
      ≤ fresh u r w + length w
unfolding is_new
offer-measure u r w mask j none inside = omega arith
offer-measure u r w mask j (some a) inside =
    ground (arith, fresh-insert-le u r w j, fresh-insert-lt u r w j, length-insert j w)

-- What the tail of a map allows, the map allows.
allows-tail :
    (mask j q : ℕ) (e : Option ℕ) (m : Map (Option ℕ))
    → Maps.Above j m
    → allows mask (Maps.lookup q m) ≡ true
    → allows mask (Maps.lookup q ((j, e) ∷ m)) ≡ true
allows-tail mask j q e m above h = ground (arith, lookup_of_Above j m above)

-- A scan moves nodes from the fresh ones to the worklist.
scan-measure :
    (u r : List ℕ) (mask : ℕ) (m : Map (Option ℕ)) (w : List ℕ)
    → Maps.IsSorted m
    → ((q : ℕ) → allows mask (Maps.lookup q m) ≡ true → Sets.contains q u ≡ true)
    → fresh u r (scan r mask m w) + length (scan r mask m w) ≤ fresh u r w + length w
unfolding scan
scan-measure u r mask [] w s inside = omega arith
scan-measure u r mask ((j, e) ∷ m) w s inside = omega (
  arith,
  scan-measure u r mask m (if is_new r mask j e then Sets.insert j w else w) s.1
      (λ q h. inside q (allows-tail mask j q e m s.0 h)),
  offer-measure u r w mask j e (λ h. inside j (rw (==_refl j) h)),
)

module _ (dir : Direction) (mask : ℕ) (g₀ : Sdg) (start : List ℕ) where
  allowed_inside :
      (g : Sdg) (node : ℕ) (result work : List ℕ)
      → Inv dir mask g₀ start g result work
      → (q : ℕ) → allows mask (Maps.lookup q (neighbours dir node g).0) ≡ true
      → Sets.contains q g₀.node_set ≡ true
  allowed_inside g node result work inv q h =
      rw (← inv.nodes)
        (Step-node_set dir mask node q g inv.valid (rw (lookup-neighbours dir node q g) at h))

  -- With fuel for the fresh nodes and the worklist the loop returns.
  pub mark-total :
      (fuel : ℕ) (g : Sdg) (result work : List ℕ)
      → Inv dir mask g₀ start g result work
      → fresh g₀.node_set result work + length work ≤ fuel
      → (end : List ℕ × Sdg) × (mark dir mask fuel g result work ≡ some end)
  unfolding mark
  mark-total zero g result [] inv h = ((result, g), refl)
  mark-total zero g result (node ∷ work) inv h = absurd (omega arith)
  mark-total (suc fuel) g result [] inv h = ((result, g), refl)
  mark-total (suc fuel) g result (node ∷ work) inv h =
      mark-total fuel _ _ _ (round-Inv dir mask g₀ start g result node work inv) (
        omega (
          arith,
          scan-measure g₀.node_set (Sets.insert node result) mask (neighbours dir node g).0 work
              (neighbours-IsSorted dir node g inv.valid)
              (allowed_inside g node result (node ∷ work) inv),
          fresh-pop g₀.node_set result work node,
        ))
