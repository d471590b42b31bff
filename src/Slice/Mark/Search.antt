-- ===== src/Slice/Mark/Search.antt =====
-- BackSlice.cpp and ForwardSlice.cpp, `markReachingVertices…`: the invariant of the loop.
use programslicer.Common.{
  ℕ, zero, suc, ◌≡◌, refl, ◌⊎◌, ◌∙◌, true, not, ◌&&◌, ◌||◌, some, List, [], ◌∷◌, arith, ◌↔◌,
  ==_refl, subst,
}
use mathlib.Core.Option.{some-injective}
use programslicer.Common.Sets
use programslicer.Common.Sets.{contains-insert}
use programslicer.DirectedGraph.{IsValid}
use programslicer.Slice.Mark.{Direction, Sdg, neighbours, scan, mark}
use programslicer.Slice.Mark.Neighbours.{
  edge, allows, Step, Reaches, from, along, lookup-neighbours, edge-neighbours, node_set-neighbours,
  neighbours-IsValid, neighbours-IsSorted, contains-scan,
}

module _ (dir : Direction) (mask : ℕ) (g₀ : Sdg) (start : List ℕ) where
  -- What holds whenever the loop is about to test its worklist.
  pub record Inv (g : Sdg) (result work : List ℕ) : Type 0 where
    pub valid : IsValid g
    pub same : (x y : ℕ) → edge dir g x y ≡ edge dir g₀ x y
    pub nodes : g.node_set ≡ g₀.node_set
    pub result_sound : (x : ℕ) → Sets.contains x result ≡ true → Reaches dir mask g₀ start x
    pub work_sound : (x : ℕ) → Sets.contains x work ≡ true → Reaches dir mask g₀ start x
    pub started :
        (x : ℕ)
        → Sets.contains x start ≡ true
        → (Sets.contains x result ≡ true) ⊎ (Sets.contains x work ≡ true)
    pub closed :
        (x y : ℕ)
        → Sets.contains x result ≡ true
        → Step dir mask g₀ x y
        → (Sets.contains x work ≡ true)
          ⊎ (Sets.contains y result ≡ true)
          ⊎ (Sets.contains y work ≡ true)

  module _ (g : Sdg) (result : List ℕ) (node : ℕ) (work : List ℕ)
      (inv : Inv g result (node ∷ work)) where
    abbrev marked : List ℕ
    marked = Sets.insert node result

    abbrev after : List ℕ
    after = scan marked mask (neighbours dir node g).0 work

    contains-after :
        (q : ℕ)
        → Sets.contains q after ≡ (
            Sets.contains q work
            || (not (Sets.contains q marked) && allows mask (edge dir g₀ node q)))
    contains-after q =
        contains-scan marked mask q (neighbours dir node g).0 work
          (neighbours-IsSorted dir node g inv.valid)
        ∙ rw (lookup-neighbours dir node q g, inv.same node q) refl

    marked_sound : (x : ℕ) → Sets.contains x marked ≡ true → Reaches dir mask g₀ start x
    marked_sound x h =
        ground (arith, contains-insert node x result, inv.result_sound x, inv.work_sound x)

    node_sound : Reaches dir mask g₀ start node
    node_sound = inv.work_sound node (rw (==_refl node) refl)

    next_sound : (x : ℕ) → Step dir mask g₀ node x → Reaches dir mask g₀ start x
    next_sound x s = along node_sound s

    -- One round keeps the invariant.
    pub round-Inv : Inv (neighbours dir node g).1 marked after
    round-Inv = record {
      valid = neighbours-IsValid dir node g inv.valid;
      same = λ x y. edge-neighbours dir node x y g ∙ inv.same x y;
      nodes = node_set-neighbours dir node g ∙ inv.nodes;
      result_sound = marked_sound;
      work_sound = λ x h. ground (arith, contains-after x, inv.work_sound x, next_sound x);
      started =
          λ x h. ground (arith, contains-after x, contains-insert node x result, inv.started x);
      closed = λ x y h s. ground (
        arith,
        contains-after x,
        contains-after y,
        contains-insert node x result,
        contains-insert node y result,
        inv.closed x y,
      );
    }

  finished :
      {g g' : Sdg} {result result' : List ℕ}
      → ◌≡◌ {A = List ℕ × Sdg} (result, g) (result', g')
      → Inv g result []
      → Inv g' result' []
  finished e inv = subst (λ p. Inv p.1 p.0 []) e inv

  -- The loop ends with the invariant and an empty worklist.
  pub mark-Inv :
      (fuel : ℕ) (g g' : Sdg) (result result' work : List ℕ)
      → Inv g result work
      → mark dir mask fuel g result work ≡ some (result', g')
      → Inv g' result' []
  unfolding mark
  mark-Inv zero g g' result result' [] inv h = finished (some-injective _ _ h) inv
  mark-Inv zero g g' result result' (node ∷ work) inv h = cc
  mark-Inv (suc fuel) g g' result result' [] inv h = finished (some-injective _ _ h) inv
  mark-Inv (suc fuel) g g' result result' (node ∷ work) inv h =
      mark-Inv fuel _ g' _ result' _ (round-Inv g result node work inv) h

-- At the end the marked nodes are exactly those that the start set reaches.
pub Inv-exact :
    (dir : Direction) (mask : ℕ) (g₀ g : Sdg) (start result : List ℕ)
    → Inv dir mask g₀ start g result []
    → (x : ℕ) → (Sets.contains x result ≡ true) ↔ Reaches dir mask g₀ start x
Inv-exact dir mask g₀ g start result inv x = (inv.result_sound x, complete)
  where
    complete : {y : ℕ} → Reaches dir mask g₀ start y → Sets.contains y result ≡ true
    complete (from {x = y} h) = ground (arith, inv.started y)
    complete (along {x = u} {y} r s) = ground (arith, inv.closed u y, complete r)
