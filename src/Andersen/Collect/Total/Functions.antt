-- ===== src/Andersen/Collect/Total/Functions.antt =====
-- andersen/lib/ConstraintCollect.cpp, `collectConstraintsForGlobals`: the nodes of the functions are
-- created.
use programslicer.Common.{
  ℕ, ◌≤◌, ◌≡◌, refl, true, false, ◌||◌, List, [], ◌∷◌, arith, ◌∙◌, length, All, for_each, Gives,
  gives, Gives->>=, Gives-map, Gives-and, branch, yields, Yields-if,
}
use programslicer.Andersen.Code.{Function, Argument}
use programslicer.Andersen.Collect.{Collector}
use programslicer.Andersen.Collect.Globals.{create_function}
use programslicer.Andersen.Collect.Valid.{IsValid, Extends, Extends-refl, Extends-trans}
use programslicer.Andersen.Collect.Keeps.Globals.{create_global-Keeps}
use programslicer.Andersen.Collect.Total.Ready.{is_external}
use programslicer.Andersen.Collect.Total.Addresses.{Distinct, of_arguments, of_functions}
use programslicer.Andersen.Collect.Total.Create.{
  Free, Step, Step-any, Step-refl, Free-Step, create_global-Gives,
}
use programslicer.Andersen.Collect.Total.Globals.{
  Entered, Entered-Extends, HasRoom, Left, Signature, Signature-Extends, create_signature-Gives,
}

drop_arguments :
    (P : ℕ → Type 0) (xs : List Argument) (rest : List ℕ)
    → All P (of_arguments xs rest)
    → All P rest
drop_arguments P [] rest all = all
drop_arguments P (x ∷ xs) rest (first, all) = drop_arguments P xs rest all

length-of_arguments :
    (xs : List Argument) (rest : List ℕ) → length rest ≤ length (of_arguments xs rest)
length-of_arguments [] rest = omega arith
length-of_arguments (x ∷ xs) rest = omega (arith, length-of_arguments xs rest)

pub drop_arguments-Distinct :
    (xs : List Argument) (rest : List ℕ) → Distinct (of_arguments xs rest) → Distinct rest
drop_arguments-Distinct [] rest distinct = distinct
drop_arguments-Distinct (x ∷ xs) rest (_, _, distinct) = drop_arguments-Distinct xs rest distinct

-- The nodes of a function.
pub record Introduced (s : Collector) (f : Function) : Type 0 where
  pub global : f.has_address_taken ≡ true → Entered f.address s
  pub signature : is_external f ≡ false → Signature f s

pub Introduced-Extends :
    (s t : Collector) → Extends s t → (f : Function) → Introduced s f → Introduced t f
Introduced-Extends s t ext f i = record {
  global = λ taken. Entered-Extends f.address s t ext (i.global taken);
  signature = λ defined. Signature-Extends f s t ext (i.signature defined);
}

create_function-Gives :
    (f : Function) (rest : List ℕ) (s : Collector)
    → IsValid s
    → Distinct (f.address ∷ of_arguments f.arguments rest)
    → All (Free s) (f.address ∷ of_arguments f.arguments rest)
    → HasRoom (f.address ∷ of_arguments f.arguments rest) s
    → Gives (λ t. Left rest s t × Introduced t f) (create_function f s)
unfolding create_function
create_function-Gives f rest s v (nonzero, apart, distinct) (free, others) room =
    let a = f.address in
    let ks = of_arguments f.arguments rest in
    Gives->>=
      (Gives-and
        (branch
          (Gives
            (λ t. Step true true false false 2 a s t × (f.has_address_taken ≡ true → Entered a t)))
          f.has_address_taken
          (λ _.
            Gives-map
              (create_global-Gives a s (omega (arith, room)) nonzero free.values free.objects)
              (λ t (step, value, object). (step, λ _. (value, object))))
          (λ no. gives (Step-refl true true false false 2 a s, λ taken. absurd (ground arith))))
        (Yields-if f.has_address_taken (create_global-Keeps s a s (v, Extends-refl s))
          (yields (v, Extends-refl s))))
      (λ s₁ ((step, entered), (v₁, ext)).
        let others₁ =
          Free-Step 2 a s s₁ (Step-any true true false false 2 a s s₁ step) ks apart others in
        branch (Gives (λ t. Left rest s t × Introduced t f)) (f.is_declaration || f.is_intrinsic)
          (λ outside. gives (
            (
              v₁,
              ext,
              drop_arguments (Free s₁) f.arguments rest others₁,
              omega (arith, room, step.grown, length-of_arguments f.arguments rest),
            ),
            record { global = entered; signature = λ defined. absurd (ground arith) },
          ))
          (λ _.
            Gives-map
              (create_signature-Gives f rest s₁ v₁ nonzero (step.returns a refl ∙ free.returns)
                (step.varargs a refl ∙ free.varargs) distinct apart others₁
                (omega (arith, room, step.grown)))
              (λ t ((v', ext', free', room'), sig). (
                (v', Extends-trans s s₁ t ext ext', free', room'),
                record {
                  global = λ taken. Entered-Extends a s₁ t ext' (entered taken);
                  signature = λ _. sig;
                },
              ))))

pub create_functions-Gives :
    (fs : List Function) (rest : List ℕ) (s : Collector)
    → IsValid s
    → Distinct (of_functions fs rest)
    → All (Free s) (of_functions fs rest)
    → HasRoom (of_functions fs rest) s
    → Gives (λ t. Left rest s t × All (Introduced t) fs) (for_each create_function fs s)
unfolding for_each
create_functions-Gives [] rest s v distinct free room = gives ((v, Extends-refl s, free, room), tt)
create_functions-Gives (f ∷ fs) rest s v (nonzero, apart, distinct) free room =
    Gives->>=
      (create_function-Gives f (of_functions fs rest) s v (nonzero, apart, distinct) free room)
      (λ t ((v', ext, free', room'), introduced).
        Gives-map
          (create_functions-Gives fs rest t v'
            (drop_arguments-Distinct f.arguments (of_functions fs rest) distinct) free' room')
          (λ u ((v'', ext', free'', room''), all). (
            (v'', Extends-trans s t u ext ext', free'', room''),
            (Introduced-Extends t u ext' f introduced, all),
          )))
