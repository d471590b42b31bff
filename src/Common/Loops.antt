-- ===== src/Common/Loops.antt =====
-- Loops whose body can fail.
use mathlib.Core.Path.{◌≡◌, refl, subst, sym}
use mathlib.Core.Logic.{inl, inr}
use mathlib.Core.Bool.{Bool, true, false}
use mathlib.Core.Option.{Option, none, some, some-injective}
use mathlib.Core.List.{List, [], ◌∷◌}
use programslicer.Common.Tests.{◌>>=◌, >>=-eq-some, if◌then◌else◌}
use programslicer.Common.Elements.{All, Any}

-- A loop whose body can fail.
unfoldable pub for_each {ℓ κ} :
    {A : Type ℓ} {S : Type κ} → (A → S → Option S) → List A → S → Option S
for_each body [] s = some s
for_each body (x ∷ xs) s = body x s >>= λ s'. for_each body xs s'

-- An invariant of the body is one of the loop.
pub for_each_rule {ℓ κ μ} :
    {A : Type ℓ} {S : Type κ} (P : S → Type μ) (body : A → S → Option S)
    → ((x : A) (s s' : S) → body x s ≡ some s' → P s → P s')
    → (xs : List A) (s s' : S) → for_each body xs s ≡ some s'
    → P s
    → P s'
unfolding for_each
for_each_rule P body keep [] s s' h p = subst P (some-injective _ _ h) p
for_each_rule P body keep (x ∷ xs) s s' h p =
    let (t, e, rest) = >>=-eq-some (body x s) (for_each body xs) h in
    for_each_rule P body keep xs t s' rest (keep x s t e p)

-- A body that succeeds where an invariant holds, and keeps it, makes a loop that succeeds.
pub for_each-total {ℓ κ μ} :
    {A : Type ℓ} {S : Type κ} (P : S → Type μ) (Q : A → Type 0) (body : A → S → Option S)
    → ((x : A) → Q x → (s : S) → P s → (s' : S) × (body x s ≡ some s') × P s')
    → (xs : List A) → All Q xs
    → (s : S) → P s
    → (s' : S) × (for_each body xs s ≡ some s') × P s'
unfolding for_each
for_each-total P Q body step [] q s p = (s, refl, p)
for_each-total P Q body step (x ∷ xs) q s p =
    let (t, e, p') = step x q.0 s p in
    let (s', e', r) = for_each-total P Q body step xs q.1 t p' in (s', rw e e', r)

-- What holds of a result, if there is one.
abbrev pub Ok {ℓ κ} : {S : Type ℓ} → (S → Type κ) → Option S → Type κ
Ok P none = Unit
Ok P (some s) = P s

pub Ok->>= {ℓ κ μ} :
    {S : Type ℓ} {T : Type ℓ} (Q : S → Type κ) (P : T → Type μ) (m : Option S) (f : S → Option T)
    → Ok Q m
    → ((s : S) → Q s → Ok P (f s))
    → Ok P (m >>= f)
Ok->>= Q P none f q step = tt
Ok->>= Q P (some s) f q step = step s q

pub Ok-any {ℓ} : {S : Type ℓ} (m : Option S) → Ok (λ _. Unit {0}) m
Ok-any none = tt
Ok-any (some s) = tt

pub Ok-if {ℓ κ} :
    {S : Type ℓ} (P : S → Type κ) (b : Bool) (m n : Option S)
    → Ok P m
    → Ok P n
    → Ok P (if b then m else n)
Ok-if P true m n p q = p
Ok-if P false m n p q = q

pub Ok-for_each {ℓ κ μ} :
    {A : Type ℓ} {S : Type κ} (P : S → Type μ) (body : A → S → Option S)
    → ((x : A) (s : S) → P s → Ok P (body x s))
    → (xs : List A) (s : S) → P s
    → Ok P (for_each body xs s)
unfolding for_each
Ok-for_each P body keep [] s p = p
Ok-for_each P body keep (x ∷ xs) s p =
    Ok->>= P P (body x s) (for_each body xs) (keep x s p) (λ t q. Ok-for_each P body keep xs t q)

pub Ok-some {ℓ κ} : {S : Type ℓ} (P : S → Type κ) (m : Option S) (s : S) → Ok P m → m ≡ some s → P s
Ok-some P none s p e = cc
Ok-some P (some t) s p e = subst P (some-injective _ _ e) p

-- What the body establishes at an element, and keeps at every element, holds after the loop.
pub Ok-establishes {κ} :
    {A : Type 0} {S : Type 0} (P : S → Type κ) (body : A → S → Option S) (x : A)
    → ((s : S) → Ok P (body x s))
    → ((y : A) (s : S) → P s → Ok P (body y s))
    → (xs : List A) → Any (λ y. y ≡ x) xs
    → (s : S) → Ok P (for_each body xs s)
unfolding for_each
Ok-establishes P body x new keep [] among s = absurd among
Ok-establishes P body x new keep (y ∷ xs) (inl e) s =
    Ok->>= P P (body y s) (for_each body xs) (subst (λ z. Ok P (body z s)) (sym e) (new s))
      (λ t q. Ok-for_each P body keep xs t q)
Ok-establishes P body x new keep (y ∷ xs) (inr later) s =
    Ok->>= (λ _. Unit {0}) P (body y s) (for_each body xs) (Ok-any (body y s))
      (λ t _. Ok-establishes P body x new keep xs later t)
