-- ===== src/Andersen/Collect/Total/Whole.antt =====
-- andersen/lib/ConstraintCollect.cpp, `collectConstraints`: it returns for a well-formed module.
use programslicer.Common.{
  All-map, ℕ, ◌+◌, ◌≡◌, inl, inr, refl, true, false, ◌||◌, List, [], ◌∷◌, arith, ap, ◌∙◌, length,
  All, Any, for_each, Gives, gives, Gives->>=, Gives-map, branch, All-members,
}
use programslicer.Andersen.Code.{Module, Function, Instruction}
use programslicer.Andersen.Collect.{Collector, add}
use programslicer.Andersen.Collect.Whole.{collect_function, first_constraints}
use programslicer.Andersen.Collect.Valid.{IsValid, Extends, Extends-refl, Extends-trans}
use programslicer.Andersen.Collect.Keeps.Whole.{new_collector}
use programslicer.Andersen.Collect.Total.Ready.{is_external, Ready, WellFormed}
use programslicer.Andersen.Collect.Total.Addresses.{Distinct, of_instructions, of_bodies, addresses}
use programslicer.Andersen.Collect.Total.Nodes.{}
use programslicer.Andersen.Collect.Total.Create.{Free}
use programslicer.Andersen.Collect.Total.Globals.{HasRoom, Left}
use programslicer.Andersen.Collect.Total.Facts.{
  Facts, Facts-Extends, HasValue, HasValue-Extends, Facts-Knows,
}
use programslicer.Andersen.Collect.Total.Bodies.{
  NoObject, Prepared, split_instructions, create_instructions-Gives, collect_body-Gives,
}

drop_Distinct :
    (xs : List Instruction) (rest : List ℕ) → Distinct (of_instructions xs rest) → Distinct rest
drop_Distinct [] rest distinct = distinct
drop_Distinct (x ∷ xs) rest (_, _, distinct) = drop_Distinct xs rest distinct

length-of_instructions :
    (xs : List Instruction) (rest : List ℕ)
    → length (of_instructions xs rest) ≡ length xs + length rest
length-of_instructions [] rest = omega arith
length-of_instructions (x ∷ xs) rest = omega (arith, length-of_instructions xs rest)

own_place :
    (i : Instruction)
    → i.is_pointer ≡ true
    → (xs : List Instruction) → Any (λ y. y ≡ i) xs
    → Any (λ y. (y.is_pointer ≡ true) × (y.address ≡ i.address)) xs
own_place i p [] among = absurd among
own_place i p (x ∷ xs) (inl e) = inl (ap (λ y. y.is_pointer) e ∙ p, ap (λ y. y.address) e)
own_place i p (x ∷ xs) (inr later) = inr (own_place i p xs later)

-- The instructions of a function have nodes, if it is defined.
abbrev pub HasValues : Collector → Function → Type 0
HasValues s f = is_external f ≡ false → All (HasValue s) f.body

HasValues-Extends : (s t : Collector) → Extends s t → (f : Function) → HasValues s f → HasValues t f
HasValues-Extends s t ext f values defined =
    All-map _ _ (HasValue-Extends s t ext) f.body (values defined)

module _ (m : Module) where
  -- What a function of the module needs.
  abbrev pub ReadyFunction : Function → Type 0
  ReadyFunction f = is_external f ≡ false → All (λ i. Ready m f i i.opcode) f.body

  collect_function-Gives :
      (f : Function)
      → Any (λ h. h ≡ f) m.functions
      → ReadyFunction f
      → (rest : List ℕ) (s : Collector) → IsValid s
      → Facts m s
      → Distinct (of_instructions f.body rest)
      → All (Free s) (of_instructions f.body rest)
      → HasRoom (of_instructions f.body rest) s
      → Gives (λ t. Left rest s t × HasValues t f) (collect_function m f s)
  unfolding collect_function
  collect_function-Gives f in_module ready rest s v facts distinct free room =
      let count = length-of_instructions f.body rest in
      let (own_free, rest_free) = split_instructions (Free s) f.body rest free in
      branch (Gives (λ t. Left rest s t × HasValues t f)) (f.is_declaration || f.is_intrinsic)
        (λ outside. gives (
          (v, Extends-refl s, rest_free, omega (arith, room, count)),
          λ defined. absurd (ground arith),
        ))
        (λ defined.
          Gives->>=
            (create_instructions-Gives m f.body rest s v distinct free (omega (arith, room, count)))
            (λ s₁ c.
              Gives-map
                (collect_body-Gives m f in_module defined f.body rest s₁ c.valid
                  (Facts-Knows m s₁ (Facts-Extends m s s₁ c.extends facts) f in_module defined
                    c.values)
                  distinct
                  (All-map _ (NoObject s₁) (λ i f'. c.objects i.address ∙ f'.objects) f.body
                    own_free)
                  c.free
                  (All-map _ (Prepared m f in_module defined)
                    (λ i (among, needs). ((λ p. inl (own_place i p f.body among)), needs)) f.body
                    (All-members _ f.body f.body (λ i among. among) (ready defined))))
                (λ t ((v', ext), free', grown). (
                  (
                    v',
                    Extends-trans s s₁ t c.extends ext,
                    free',
                    omega (arith, room, count, grown, c.grown),
                  ),
                  λ _. All-map _ _ (HasValue-Extends s₁ t ext) f.body c.values,
                ))))

  pub collect_functions-Gives :
      (fs : List Function)
      → All (λ f. Any (λ h. h ≡ f) m.functions × ReadyFunction f) fs
      → (rest : List ℕ) (s : Collector) → IsValid s
      → Facts m s
      → Distinct (of_bodies fs rest)
      → All (Free s) (of_bodies fs rest)
      → HasRoom (of_bodies fs rest) s
      → Gives (λ t. Left rest s t × All (HasValues t) fs) (for_each (collect_function m) fs s)
  unfolding for_each
  collect_functions-Gives [] all rest s v facts distinct free room =
      gives ((v, Extends-refl s, free, room), tt)
  collect_functions-Gives (f ∷ fs) ((among, ready), all) rest s v facts distinct free room =
      Gives->>=
        (collect_function-Gives f among ready (of_bodies fs rest) s v facts distinct free room)
        (λ t ((v', ext, free', room'), values).
          Gives-map
            (collect_functions-Gives fs all rest t v' (Facts-Extends m s t ext facts)
              (drop_Distinct f.body (of_bodies fs rest) distinct) free' room')
            (λ u ((v'', ext', free'', room''), all'). (
              (v'', Extends-trans s t u ext ext', free'', room''),
              (HasValues-Extends t u ext' f values, all'),
            )))

pub all-Free : (ks : List ℕ) → All (Free (first_constraints new_collector)) ks
unfolding add
all-Free [] = tt
all-Free (k ∷ ks) =
    (record { values = refl; objects = refl; returns = refl; varargs = refl }, all-Free ks)

pub first_room :
    (m : Module) → WellFormed m → HasRoom (addresses m) (first_constraints new_collector)
unfolding add
first_room m w = omega (arith, w.room)
