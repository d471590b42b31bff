-- ===== src/Slice/Input/Marks.antt =====
-- BackSlice.cpp and ForwardSlice.cpp, `readInit`: which nodes the second loop marks.
use programslicer.Common.{
  ℕ, zero, suc, ◌+◌, ◌≡◌, ◌↔◌, ◌⊎◌, inl, inr, refl, Bool, true, Option, none, some, List, [], ◌∷◌,
  Any, arith, Bool-cases, eq_of_==, ==_refl, subst,
}
use mathlib.Core.Logic.{⊎_elim}
use programslicer.Common.Sets
use programslicer.Common.Sets.{contains-insert}
use programslicer.Ir.{Instruction, Module}
use programslicer.Sdg.Node.{Placement, inst_node}
use programslicer.Sdg.Calls.{instructions}
use programslicer.Slice.Input.{Criterion, Marking, mark_line, mark_lines, mark_functions, lines_of}

-- The instruction at a position.
abbrev pub instruction_at : ℕ → List Instruction → Option Instruction
instruction_at n [] = none
instruction_at zero (i ∷ is) = some i
instruction_at (suc n) (i ∷ is) = instruction_at n is

module _ (p : Placement) (bounded : Bool) (c : Criterion) (x : ℕ) where
  -- `x` is the node of an instruction whose number, from `count` on, is listed.
  abbrev pub Listed : List ℕ → ℕ → List Instruction → Type 0
  Listed lines count is =
      (n : ℕ) × (i : Instruction) × (instruction_at n is ≡ some i)
      × (Sets.contains (count + n) lines ≡ true)
      × (p.addr (inst_node i.id) ≡ x)

  Listed-cons :
      (lines : List ℕ) (count : ℕ) (i : Instruction) (is : List Instruction)
      → Listed lines count (i ∷ is) ↔ (
          (Sets.contains count lines ≡ true) × (p.addr (inst_node i.id) ≡ x)
          ⊎ Listed lines (count + 1) is)
  Listed-cons lines count i is = (forth, back)
    where
      forth :
          Listed lines count (i ∷ is)
          → (Sets.contains count lines ≡ true) × (p.addr (inst_node i.id) ≡ x)
            ⊎ Listed lines (count + 1) is
      forth (zero, j, at_n, listed, placed) =
          inl (subst (λ k. Sets.contains k lines ≡ true) (omega arith) listed, ground arith)
      forth (suc n, j, at_n, listed, placed) =
          inr (n, j, at_n, subst (λ k. Sets.contains k lines ≡ true) (omega arith) listed, placed)

      back :
          ((Sets.contains count lines ≡ true) × (p.addr (inst_node i.id) ≡ x)
            ⊎ Listed lines (count + 1) is)
          → Listed lines count (i ∷ is)
      back (inl (listed, placed)) =
          (zero, i, refl, subst (λ k. Sets.contains k lines ≡ true) (omega arith) listed, placed)
      back (inr (n, j, at_n, listed, placed)) =
          (suc n, j, at_n, subst (λ k. Sets.contains k lines ≡ true) (omega arith) listed, placed)

  mark_line-exact :
      (lines : List ℕ) (count : ℕ) (i : Instruction) (k : Marking)
      → (Sets.contains x (mark_line p bounded c lines count i k).marked_nodes ≡ true) ↔ (
          (Sets.contains x k.marked_nodes ≡ true)
          ⊎ (Sets.contains count lines ≡ true) × (p.addr (inst_node i.id) ≡ x))
  unfolding mark_line
  mark_line-exact lines count i k =
      let insert = contains-insert (p.addr (inst_node i.id)) x k.marked_nodes in
      let same = ==_refl x in
      let equal = eq_of_== (p.addr (inst_node i.id)) x in
      elim (Bool-cases (Sets.contains count lines)) [
        | inl listed ↦ ground arith
        | inr other ↦ ground arith
      ]

  mark_lines-exact :
      (lines : List ℕ) (count : ℕ) (is : List Instruction) (k : Marking)
      → (Sets.contains x (mark_lines p bounded c lines count is k).marked_nodes ≡ true)
        ↔ ((Sets.contains x k.marked_nodes ≡ true) ⊎ Listed lines count is)
  unfolding mark_lines
  mark_lines-exact lines count [] k =
      (λ h. inl h, ⊎_elim (λ h. h) (λ (n, i, at_n, listed, placed). ground arith))
  mark_lines-exact lines count (i ∷ is) k =
      let cons = Listed-cons lines count i is in
      let one = mark_line-exact lines count i k in
      let rest = mark_lines-exact lines (count + 1) is (mark_line p bounded c lines count i k) in
      (
        λ h.
            ⊎_elim (λ m. ⊎_elim (λ old. inl old) (λ new. inr (cons.1 (inl new))) (one.0 m))
              (λ l. inr (cons.1 (inr l))) (rest.0 h),
        ⊎_elim (λ old. rest.1 (inl (one.1 (inl old))))
            (λ l.
              ⊎_elim (λ new. rest.1 (inl (one.1 (inr new)))) (λ l'. rest.1 (inr l')) (cons.0 l)),
      )

  -- The second loop of `readInit` marks, besides what was marked, exactly the nodes of the
  -- instructions whose number in their function, from 0 on, stands in the file under the name of
  -- that function.
  pub mark_functions-exact :
      (m : Module) (k : Marking)
      → (Sets.contains x (mark_functions p bounded c m k).marked_nodes ≡ true) ↔ (
          (Sets.contains x k.marked_nodes ≡ true)
          ⊎ Any (λ f. Listed (lines_of f.name c.to_slice_list) 0 (instructions f)) m)
  unfolding mark_functions
  mark_functions-exact [] k = (λ h. inl h, ⊎_elim (λ h. h) (λ e. absurd e))
  mark_functions-exact (f ∷ fs) k =
      let lines = lines_of f.name c.to_slice_list in
      let one = mark_lines-exact lines 0 (instructions f) k in
      let rest = mark_functions-exact fs (mark_lines p bounded c lines 0 (instructions f) k) in
      (
        λ h.
            ⊎_elim (λ m. ⊎_elim (λ old. inl old) (λ new. inr (inl new)) (one.0 m))
              (λ l. inr (inr l)) (rest.0 h),
        ⊎_elim (λ old. rest.1 (inl (one.1 (inl old))))
            (⊎_elim (λ new. rest.1 (inl (one.1 (inr new)))) (λ l'. rest.1 (inr l'))),
      )
