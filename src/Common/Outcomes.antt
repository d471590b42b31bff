-- ===== src/Common/Outcomes.antt =====
-- What holds of the result of code that can fail, and of loops of such code.
use mathlib.Core.Path.{◌≡◌, refl, subst}
use mathlib.Core.Bool.{Bool, true, false}
use mathlib.Core.Option.{Option, none, some, some-injective}
use mathlib.Core.List.{List, [], ◌∷◌}
use programslicer.Common.Tests.{◌>>=◌, if◌then◌else◌}
use programslicer.Common.Elements.{All}
use programslicer.Common.Loops.{for_each}

-- A run gives a result, and the result has a property.
pub data Gives {ℓ κ} {S : Type ℓ} (P : S → Type κ) : Option S → Type (ℓ ⊔ κ) where
  gives : {s : S} → P s → Gives P (some s)

pub Gives->>= {ℓ κ ℓ' κ'} :
    {S : Type ℓ} {P : S → Type κ} {T : Type ℓ'} {Q : T → Type κ'} {m : Option S} {f : S → Option T}
    → Gives P m
    → ((s : S) → P s → Gives Q (f s))
    → Gives Q (m >>= f)
Gives->>= (gives p) next = next _ p

pub Gives-map {ℓ κ κ'} :
    {S : Type ℓ} {P : S → Type κ} {Q : S → Type κ'} {m : Option S}
    → Gives P m
    → ((s : S) → P s → Q s)
    → Gives Q m
Gives-map (gives p) imp = gives (imp _ p)

pub Gives-result {ℓ κ} :
    {S : Type ℓ} {P : S → Type κ} {m : Option S} → Gives P m → (s : S) × (m ≡ some s) × P s
Gives-result (gives p) = (_, refl, p)

pub Gives-of {ℓ κ} :
    {S : Type ℓ} {P : S → Type κ} {m : Option S} (s : S) → m ≡ some s → P s → Gives P m
Gives-of s e p = rw e (gives p)

-- A loop whose body succeeds from an invariant, keeps it, and at each element adds a fact that the
-- rest of the loop keeps.
pub Gives-for_each {ℓ κ} :
    {A : Type ℓ} {S : Type κ} (Q : A → Type 0) (I : S → Type 0) (D : A → S → Type 0)
    (R : S → S → Type 0) (body : A → S → Option S)
    → ((s : S) → R s s)
    → ((s t u : S) → R s t → R t u → R s u)
    → ((x : A) (s t : S) → R s t → D x s → D x t)
    → (xs : List A) → All Q xs
    → (s : S) → I s
    → ((x : A) → Q x → (t : S) → R s t → I t → Gives (λ t'. I t' × R t t' × D x t') (body x t))
    → Gives (λ t. I t × R s t × All (λ x. D x t) xs) (for_each body xs s)
unfolding for_each
Gives-for_each Q I D R body rrefl rtrans keep [] q s i step = gives (i, rrefl s, tt)
Gives-for_each Q I D R body rrefl rtrans keep (x ∷ xs) q s i step =
    Gives->>= (step x q.0 s (rrefl s) i) (λ t (j, r, d).
      Gives-map
        (Gives-for_each Q I D R body rrefl rtrans keep xs q.1 t j
          (λ y p u w. step y p u (rtrans s t u r w)))
        (λ u (k, w, ds). (k, rtrans s t u r w, (keep x t u w d, ds))))

-- A run gives no result, or one that has a property.
pub data Yields {ℓ κ} {S : Type ℓ} (P : S → Type κ) : Option S → Type (ℓ ⊔ κ) where
  fails : Yields P none
  yields : {s : S} → P s → Yields P (some s)

pub Yields->>= {ℓ κ ℓ' κ'} :
    {S : Type ℓ} {P : S → Type κ} {T : Type ℓ'} {Q : T → Type κ'} {m : Option S} {f : S → Option T}
    → Yields P m
    → ((s : S) → P s → Yields Q (f s))
    → Yields Q (m >>= f)
Yields->>= fails next = fails
Yields->>= (yields p) next = next _ p

pub Yields-any {ℓ} : {S : Type ℓ} (m : Option S) → Yields (λ _. Unit {0}) m
Yields-any none = fails
Yields-any (some s) = yields tt

pub Yields-if {ℓ κ} :
    {S : Type ℓ} {P : S → Type κ} (b : Bool) {m n : Option S}
    → Yields P m
    → Yields P n
    → Yields P (if b then m else n)
Yields-if true p q = p
Yields-if false p q = q

pub Yields-map {ℓ κ κ'} :
    {S : Type ℓ} {P : S → Type κ} {Q : S → Type κ'} {m : Option S}
    → Yields P m
    → ((s : S) → P s → Q s)
    → Yields Q m
Yields-map fails imp = fails
Yields-map (yields p) imp = yields (imp _ p)

pub Yields-for_each {ℓ κ μ} :
    {A : Type ℓ} {S : Type κ} {P : S → Type μ} {body : A → S → Option S}
    → ((x : A) (s : S) → P s → Yields P (body x s))
    → (xs : List A) (s : S) → P s
    → Yields P (for_each body xs s)
unfolding for_each
Yields-for_each keep [] s p = yields p
Yields-for_each keep (x ∷ xs) s p = Yields->>= (keep x s p) (λ t q. Yields-for_each keep xs t q)

pub Yields-some {ℓ κ} :
    {S : Type ℓ} {P : S → Type κ} {m : Option S} (s : S) → Yields P m → m ≡ some s → P s
Yields-some s fails e = cc
Yields-some {P = P} s (yields p) e = subst P (some-injective _ _ e) p

-- Where the branch says what it was taken for.
pub branch {ℓ κ} :
    {A : Type ℓ} (P : A → Type κ) (b : Bool) {x y : A}
    → (b ≡ true → P x)
    → (b ≡ false → P y)
    → P (if b then x else y)
branch P true p q = p refl
branch P false p q = q refl

pub Yields-both {ℓ κ κ'} :
    {S : Type ℓ} {P : S → Type κ} {Q : S → Type κ'} {m : Option S}
    → Yields P m
    → Yields Q m
    → Yields (λ s. P s × Q s) m
Yields-both {Q = Q} fails q = fails
Yields-both {Q = Q} (yields {s} p) q = yields (p, Yields-some s q refl)

-- A loop whose body keeps an invariant, and at each element adds a fact that the rest of the loop
-- keeps.
pub Yields-All {ℓ κ} :
    {A : Type ℓ} {S : Type κ} (I : S → Type 0) (D : A → S → Type 0) (R : S → S → Type 0)
    (body : A → S → Option S)
    → ((s : S) → R s s)
    → ((s t u : S) → R s t → R t u → R s u)
    → ((x : A) (s t : S) → R s t → D x s → D x t)
    → ((x : A) (t : S) → I t → Yields (λ t'. I t' × R t t' × D x t') (body x t))
    → (xs : List A) (s : S) → I s
    → Yields (λ t. I t × R s t × All (λ x. D x t) xs) (for_each body xs s)
unfolding for_each
Yields-All I D R body rrefl rtrans keep step [] s i = yields (i, rrefl s, tt)
Yields-All I D R body rrefl rtrans keep step (x ∷ xs) s i = Yields->>= (step x s i) (λ t (j, r, d).
    Yields-map (Yields-All I D R body rrefl rtrans keep step xs t j)
      (λ u (k, w, ds). (k, rtrans s t u r w, (keep x t u w d, ds))))

-- Where the branch says what is needed.
pub Gives-if {ℓ κ} :
    {S : Type ℓ} {R : S → Type κ} {P Q : Type 0} (b : Bool) {m n : Option S}
    → (if b then P else Q)
    → (P → Gives R m)
    → (Q → Gives R n)
    → Gives R (if b then m else n)
Gives-if true h p q = p h
Gives-if false h p q = q h

pub Gives-choice {ℓ κ} :
    {S : Type ℓ} {R : S → Type κ} {P Q : Type 0} (b : Bool) {m n : Option S}
    → (if b then P else Q)
    → (b ≡ true → P → Gives R m)
    → (b ≡ false → Q → Gives R n)
    → Gives R (if b then m else n)
Gives-choice true h p q = p refl h
Gives-choice false h p q = q refl h

-- An assertion that holds.
pub Gives-assert {ℓ κ} :
    {S : Type ℓ} {R : S → Type κ} (b : Bool) {m : Option S}
    → b ≡ true
    → Gives R m
    → Gives R (if b then m else none)
Gives-assert true e p = p
Gives-assert false e p = cc

-- A loop whose body succeeds from an invariant, and keeps it.
pub Gives-each {ℓ κ} :
    {A : Type ℓ} {S : Type κ} {Q : A → Type 0} {I : S → Type 0} {body : A → S → Option S}
    → ((x : A) → Q x → (s : S) → I s → Gives I (body x s))
    → (xs : List A) → All Q xs
    → (s : S) → I s
    → Gives I (for_each body xs s)
unfolding for_each
Gives-each step [] all s i = gives i
Gives-each step (x ∷ xs) (first, all) s i =
    Gives->>= (step x first s i) (λ t j. Gives-each step xs all t j)

pub Gives-and {ℓ κ κ'} :
    {S : Type ℓ} {P : S → Type κ} {Q : S → Type κ'} {m : Option S}
    → Gives P m
    → Yields Q m
    → Gives (λ s. P s × Q s) m
Gives-and {Q = Q} (gives {s} p) q = gives (p, Yields-some s q refl)
