-- ===== src/Common/Missing.antt =====
-- How many pairs below a bound are not in a relation: the measure of a search that adds pairs.
use Prim.Native.Nat.{ℕ, zero, suc, ◌+◌, ◌*◌, ◌≤◌, ◌<◌}
use mathlib.Core.Path.{◌≡◌}
use mathlib.Core.Bool.{Bool, true, false}
use mathlib.Core.Logic.{inl, inr}
use native.Mathlib.Omega.{arith}
use programslicer.Common.Tests.{◌==◌, if◌then◌else◌, Bool-cases, eq_of_==}

-- The numbers below `n` that fail a test.
abbrev pub absent : ℕ → (ℕ → Bool) → ℕ
absent zero p = 0
absent (suc n) p = if p n then absent n p else suc (absent n p)

-- The pairs of a number below `m` and one below `n` that are not in the relation.
abbrev pub missing : ℕ → ℕ → (ℕ → ℕ → Bool) → ℕ
missing zero n r = 0
missing (suc m) n r = absent n (r m) + missing m n r

absent_bound : (n : ℕ) (p : ℕ → Bool) → absent n p ≤ n
absent_bound zero p = omega arith
absent_bound (suc n) p = ground (arith, absent_bound n p)

pub missing_bound : (m n : ℕ) (r : ℕ → ℕ → Bool) → missing m n r ≤ m * n
missing_bound zero n r = omega arith
missing_bound (suc m) n r = omega (arith, absent_bound n (r m), missing_bound m n r)

absent_mono :
    (n : ℕ) (p q : ℕ → Bool) → ((x : ℕ) → p x ≡ true → q x ≡ true) → absent n q ≤ absent n p
absent_mono zero p q imp = omega arith
absent_mono (suc n) p q imp = ground (arith, imp n, absent_mono n p q imp)

absent_less :
    (n x : ℕ) (p q : ℕ → Bool)
    → ((y : ℕ) → p y ≡ true → q y ≡ true)
    → x < n
    → p x ≡ false
    → q x ≡ true
    → absent n q < absent n p
absent_less zero x p q imp h out added = absurd (omega (arith, h))
absent_less (suc n) x p q imp h out added = elim (Bool-cases (x == n)) [
  | inl last ↦
      let e : x ≡ n = eq_of_== x n last in
      let outside : p n ≡ false = rw (← e) out in
      let inside : q n ≡ true = rw (← e) added in ground (arith, absent_mono n p q imp)
  | inr before ↦ ground (arith, imp n, absent_less n x p q imp (ground arith) out added)
]

module _ (n : ℕ) (r s : ℕ → ℕ → Bool) (imp : (x y : ℕ) → r x y ≡ true → s x y ≡ true) where
  pub missing_mono : (m : ℕ) → missing m n s ≤ missing m n r
  missing_mono zero = omega arith
  missing_mono (suc m) = omega (arith, absent_mono n (r m) (s m) (imp m), missing_mono m)

  pub missing_less :
      (m x y : ℕ) → x < m → y < n → r x y ≡ false → s x y ≡ true → missing m n s < missing m n r
  missing_less zero x y h k out added = absurd (omega (arith, h))
  missing_less (suc m) x y h k out added = elim (Bool-cases (x == m)) [
    | inl last ↦
        let e : x ≡ m = eq_of_== x m last in
        let outside : r m y ≡ false = rw (← e) out in
        let inside : s m y ≡ true = rw (← e) added in
        omega (arith, absent_less n y (r m) (s m) (imp m) k outside inside, missing_mono m)
    | inr before ↦
        omega
          (arith, absent_mono n (r m) (s m) (imp m), missing_less m x y (ground arith) k out added)
  ]
