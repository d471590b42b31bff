-- ===== src/Tests/Placing.antt =====
-- SDG.h, where the nodes live: one placement of the nodes, for the examples.
use programslicer.Common.{
  ℕ, zero, suc, ◌+◌, ◌*◌, ◌≡◌, ◌≢◌, ◌<◌, ap, inl, inr, arith, Bool-cases, ltb,
}
use programslicer.Sdg.Node.{
  Place, Placement, inst_node, entry_node, callee_input, callee_output, caller_input, caller_output,
}

abbrev triangle : ℕ → ℕ
triangle zero = 0
triangle (suc n) = suc n + triangle n

triangle-lt : (s t : ℕ) → s < t → triangle s + s < triangle t
triangle-lt s zero h = omega (arith, h)
triangle-lt s (suc t) h = elim (Bool-cases (ltb s t)) [
  | inl below ↦ let far = triangle-lt s t (ground arith) in omega (arith, far)
  | inr last ↦ let same : s ≡ t = ground arith in rw same (omega arith)
]

abbrev pair : ℕ → ℕ → ℕ
pair a b = triangle (a + b) + a

pair-injective : (a b c d : ℕ) → pair a b ≡ pair c d → (a ≡ c) × (b ≡ d)
pair-injective a b c d h = elim (Bool-cases (ltb (a + b) (c + d))) [
  | inl less ↦ let far = triangle-lt (a + b) (c + d) (ground arith) in ground arith
  | inr no_less ↦ elim (Bool-cases (ltb (c + d) (a + b))) [
    | inl more ↦ let far = triangle-lt (c + d) (a + b) (ground arith) in ground arith
    | inr no_more ↦
        let same : a + b ≡ c + d = ground arith in
        let equal : triangle (a + b) ≡ triangle (c + d) = ap triangle same in
        (omega (arith, h, equal), omega (arith, h, equal, same))
  ]
]

abbrev addr : Place → ℕ
addr (inst_node a) = 6 * a + 1
addr (entry_node a) = 6 * a + 2
addr (callee_input a) = 6 * a + 3
addr (callee_output a) = 6 * a + 4
addr (caller_input a b) = 6 * pair a b + 5
addr (caller_output a b) = 6 * pair a b + 6

pub addr_injective : (p q : Place) → addr p ≡ addr q → p ≡ q
addr_injective (inst_node a) (inst_node c) h = ap inst_node (omega (arith, h))
addr_injective (inst_node a) (entry_node c) h = ground arith
addr_injective (inst_node a) (callee_input c) h = ground arith
addr_injective (inst_node a) (callee_output c) h = ground arith
addr_injective (inst_node a) (caller_input c d) h = ground arith
addr_injective (inst_node a) (caller_output c d) h = ground arith
addr_injective (entry_node a) (inst_node c) h = ground arith
addr_injective (entry_node a) (entry_node c) h = ap entry_node (omega (arith, h))
addr_injective (entry_node a) (callee_input c) h = ground arith
addr_injective (entry_node a) (callee_output c) h = ground arith
addr_injective (entry_node a) (caller_input c d) h = ground arith
addr_injective (entry_node a) (caller_output c d) h = ground arith
addr_injective (callee_input a) (inst_node c) h = ground arith
addr_injective (callee_input a) (entry_node c) h = ground arith
addr_injective (callee_input a) (callee_input c) h = ap callee_input (omega (arith, h))
addr_injective (callee_input a) (callee_output c) h = ground arith
addr_injective (callee_input a) (caller_input c d) h = ground arith
addr_injective (callee_input a) (caller_output c d) h = ground arith
addr_injective (callee_output a) (inst_node c) h = ground arith
addr_injective (callee_output a) (entry_node c) h = ground arith
addr_injective (callee_output a) (callee_input c) h = ground arith
addr_injective (callee_output a) (callee_output c) h = ap callee_output (omega (arith, h))
addr_injective (callee_output a) (caller_input c d) h = ground arith
addr_injective (callee_output a) (caller_output c d) h = ground arith
addr_injective (caller_input a b) (inst_node c) h = ground arith
addr_injective (caller_input a b) (entry_node c) h = ground arith
addr_injective (caller_input a b) (callee_input c) h = ground arith
addr_injective (caller_input a b) (callee_output c) h = ground arith
addr_injective (caller_input a b) (caller_input c d) h =
    let (x, y) = pair-injective a b c d (omega (arith, h)) in ground arith
addr_injective (caller_input a b) (caller_output c d) h = ground arith
addr_injective (caller_output a b) (inst_node c) h = ground arith
addr_injective (caller_output a b) (entry_node c) h = ground arith
addr_injective (caller_output a b) (callee_input c) h = ground arith
addr_injective (caller_output a b) (callee_output c) h = ground arith
addr_injective (caller_output a b) (caller_input c d) h = ground arith
addr_injective (caller_output a b) (caller_output c d) h =
    let (x, y) = pair-injective a b c d (omega (arith, h)) in ground arith

pub addr_nonnull : (p : Place) → addr p ≢ 0
addr_nonnull (inst_node a) h = omega (arith, h)
addr_nonnull (entry_node a) h = omega (arith, h)
addr_nonnull (callee_input a) h = omega (arith, h)
addr_nonnull (callee_output a) h = omega (arith, h)
addr_nonnull (caller_input a b) h = omega (arith, h)
addr_nonnull (caller_output a b) h = omega (arith, h)

abbrev pub placement : Placement
placement = record { addr = addr; addr_injective = addr_injective; addr_nonnull = addr_nonnull }
