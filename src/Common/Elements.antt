-- ===== src/Common/Elements.antt =====
-- Predicates on the elements of a list.
use mathlib.Core.Path.{◌≡◌, refl, subst}
use mathlib.Core.Logic.{◌⊎◌, inl, inr}
use mathlib.Core.List.{List, [], ◌∷◌}

-- Some element of a list has a property.
abbrev pub Any {ℓ} : {A : Type ℓ} → (A → Type 0) → List A → Type 0
Any P [] = ⊥
Any P (x ∷ xs) = P x ⊎ Any P xs

abbrev pub All {ℓ} : {A : Type ℓ} → (A → Type 0) → List A → Type 0
All P [] = Unit
All P (x ∷ xs) = P x × All P xs

-- What all the elements have, and what one has.
pub All-Any {ℓ} :
    {A : Type ℓ} {P Q : A → Type 0} {R : Type 0}
    → ((x : A) → P x → Q x → R)
    → (xs : List A) → All P xs
    → Any Q xs
    → R
All-Any use_both [] all any = absurd any
All-Any use_both (x ∷ xs) (first, all) (inl q) = use_both x first q
All-Any use_both (x ∷ xs) (first, all) (inr later) = All-Any use_both xs all later

pub All-both {ℓ} :
    {A : Type ℓ} (P Q : A → Type 0) (xs : List A) → All P xs → All Q xs → All (λ x. P x × Q x) xs
All-both P Q [] all all' = tt
All-both P Q (x ∷ xs) (p, all) (q, all') = ((p, q), All-both P Q xs all all')

-- Each element is one of the list.
pub All-members :
    {A : Type 0} (P : A → Type 0) (ys xs : List A)
    → ((x : A) → Any (λ y. y ≡ x) xs → Any (λ y. y ≡ x) ys)
    → All P xs
    → All (λ x. Any (λ y. y ≡ x) ys × P x) xs
All-members P ys [] inside all = tt
All-members P ys (x ∷ xs) inside (first, all) =
    ((inside x (inl refl), first), All-members P ys xs (λ y among. inside y (inr among)) all)

pub All-map :
    {A : Type 0} (P Q : A → Type 0) → ((x : A) → P x → Q x) → (xs : List A) → All P xs → All Q xs
All-map P Q imp [] all = tt
All-map P Q imp (x ∷ xs) (first, all) = (imp x first, All-map P Q imp xs all)

-- What all the elements have, has an element.
pub All-member :
    {A : Type 0} (P : A → Type 0) (x : A) (xs : List A) → All P xs → Any (λ y. y ≡ x) xs → P x
All-member P x xs all among = All-Any (λ y p e. subst P e p) xs all among
