-- ===== src/Slice/Mark/Duality.antt =====
-- BackSlice.cpp and ForwardSlice.cpp: the two searches against one another, and what the order of
-- the two steps keeps out of a slice.
use programslicer.Common.{
  ℕ, ◌≡◌, ◌↔◌, sym, true, some, List, [], ◌∷◌, arith, subst, ==_refl, eq_of_==,
}
use programslicer.Common.Sets
use programslicer.DirectedGraph.{IsValid}
use programslicer.Slice.Mark.{
  Direction, back, forward, Sdg, mark_reaching_vertices_for_back_slice,
  mark_reaching_vertices_for_forward_slice,
}
use programslicer.Slice.Mark.Neighbours.{allows, Step, Reaches, from, along}
use programslicer.Slice.Mark.Exact.{mark_reaching_vertices-exact}

abbrev opposite : Direction → Direction
opposite back = forward
opposite forward = back

Step-opposite :
    (dir : Direction) (mask : ℕ) (g : Sdg) (x y : ℕ)
    → IsValid g
    → Step dir mask g x y
    → Step (opposite dir) mask g y x
Step-opposite back mask g x y v s = subst (λ e. allows mask e ≡ true) (sym (v.mirror y x)) s
Step-opposite forward mask g x y v s = subst (λ e. allows mask e ≡ true) (v.mirror x y) s

-- A path from `y` goes on from a path to `y`.
Reaches-trans :
    (dir : Direction) (mask : ℕ) (g : Sdg) (x y : ℕ) {z : ℕ}
    → Reaches dir mask g (x ∷ []) y
    → Reaches dir mask g (y ∷ []) z
    → Reaches dir mask g (x ∷ []) z
Reaches-trans dir mask g x y p (from {x = z} c) =
    subst (λ u. Reaches dir mask g (x ∷ []) u) (ground (arith, eq_of_== y z)) p
Reaches-trans dir mask g x y p (along q s) = along (Reaches-trans dir mask g x y p q) s

self : (dir : Direction) (mask : ℕ) (g : Sdg) (x : ℕ) → Reaches dir mask g (x ∷ []) x
self dir mask g x = from (ground (arith, ==_refl x))

Reaches-opposite :
    (dir : Direction) (mask : ℕ) (g : Sdg) (x : ℕ) {y : ℕ}
    → IsValid g
    → Reaches dir mask g (x ∷ []) y
    → Reaches (opposite dir) mask g (y ∷ []) x
Reaches-opposite dir mask g x {y} v (from c) =
    subst (λ u. Reaches (opposite dir) mask g (y ∷ []) u) (ground (arith, eq_of_== x y))
      (self (opposite dir) mask g y)
Reaches-opposite dir mask g x v (along {x = u} {y} p s) =
    Reaches-trans (opposite dir) mask g y u
      (along (self (opposite dir) mask g y) (Step-opposite dir mask g u y v s))
      (Reaches-opposite dir mask g x v p)

-- On a valid graph, with one mask, the backward search from `x` marks `y` exactly when the forward
-- search from `y` marks `x`; both searches return.
pub back-forward :
    (mask x y : ℕ) (g : Sdg)
    → IsValid g
    → (b f : List ℕ × Sdg) × (mark_reaching_vertices_for_back_slice g (x ∷ []) (x ∷ []) mask
        ≡ some b)
      × (mark_reaching_vertices_for_forward_slice g (y ∷ []) (y ∷ []) mask ≡ some f)
      × ((Sets.contains y b.0 ≡ true) ↔ (Sets.contains x f.0 ≡ true))
unfolding mark_reaching_vertices_for_back_slice mark_reaching_vertices_for_forward_slice
back-forward mask x y g v =
    let (b, eb, mb) = mark_reaching_vertices-exact back mask g (x ∷ []) (x ∷ []) v (λ _ h. h) in
    let (f, ef, mf) = mark_reaching_vertices-exact forward mask g (y ∷ []) (y ∷ []) v (λ _ h. h) in
    (
      b,
      f,
      eb,
      ef,
      (
        λ h. (mf.exact x).1 (Reaches-opposite back mask g x v ((mb.exact y).0 h)),
        λ h. (mb.exact y).1 (Reaches-opposite forward mask g y v ((mf.exact x).0 h)),
      ),
    )
