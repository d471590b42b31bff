-- ===== src/Andersen/Collect/Complete.antt =====
-- andersen/lib/ConstraintCollect.cpp, `collectConstraintsForInstruction`: every constraint that an
-- instruction demands is added.
use programslicer.Common.{
  All-member, ℕ, ◌≡◌, refl, ◌==◌, Bool, true, false, Option, none, some, if◌then◌else◌, All, Yields,
  fails, yields, Yields->>=, Yields-any, Yields-if, Yields-map, Yields-both,
}
use programslicer.NodeFactory.{plain, universal_ptr_index}
use programslicer.Andersen.Constraint
use programslicer.Andersen.Constraint.{ConstraintType, AndersConstraint, addr_of, constraint, copy}
use programslicer.Andersen.Constraint.Derives.{Among}
use programslicer.Andersen.Code.{
  Module, Function, Instruction, Integer, from_pointer, from_pointer_with_offset, any_integer,
  Opcode, alloca, call, ret, load, store, get_element_ptr, phi, bit_cast, int_to_ptr, select,
  va_arg, extract_or_insert_value, exception_or_atomic, other,
}
use programslicer.Andersen.Collect.{Collector, add}
use programslicer.Andersen.Collect.Instructions.{
  collect_incoming, collect_int_to_ptr, collect_opcode,
}
use programslicer.Andersen.Collect.Valid.{IsValid, Extends, Extends-refl, Extends-trans}
use programslicer.Andersen.Collect.Places.{Found, of_value, of_object, of_return, Joined}
use programslicer.Andersen.Collect.Returned.{AllReturned, collect_alloca-Joined, collect_ret-Joined}
use programslicer.Andersen.Collect.Indirect.{AnyReturned, add_constraint_for_call-AnyReturned}
use programslicer.Andersen.Collect.Passed.{AllPassed, add_constraint_for_call-AllPassed}
use programslicer.Andersen.Collect.Demands.{
  Defines, by_alloca, by_indirect, by_result, by_argument, by_ret, Demands, by_load, by_store,
  by_element, by_phi, by_cast, by_integer, by_offset, by_first, by_second,
}
use programslicer.Andersen.Collect.Linked.{
  Linked, own_node, collect_load-Linked, collect_copy-Linked, collect_store-Linked,
  collect_select-Linked, collect_incoming-Linked, collect_phi-Linked,
}
use programslicer.Andersen.Collect.Keeps.Instructions.{collect_opcode-Keeps}

-- The links that an instruction of the function `f` needs.
abbrev pub Answers : Module → Function → Instruction → Opcode → Collector → Type 0
Answers m f inst alloca s =
    (inst.address == 0) ≡ false
    → Joined addr_of (of_value (plain inst.address)) (of_object inst.address) s
Answers m f inst (call none args) s = AnyReturned inst s
Answers m f inst (call (some a) args) s =
    (g : Function) → Defines m a g → AllReturned inst g s × AllPassed g.arguments args s
Answers m f inst (ret (some op)) s =
    op.is_pointer ≡ true → Joined copy (of_return f.address) (of_value op.value) s
Answers m f inst (load op) s =
    inst.is_pointer ≡ true → Linked Constraint.load (plain inst.address) op s
Answers m f inst (store op to) s = op.is_pointer ≡ true → Linked Constraint.store to op.value s
Answers m f inst (get_element_ptr op) s = Linked copy (plain inst.address) op s
Answers m f inst (phi vs) s =
    inst.is_pointer ≡ true → All (λ w. Linked copy (plain inst.address) w s) vs
Answers m f inst (bit_cast op) s = inst.is_pointer ≡ true → Linked copy (plain inst.address) op s
Answers m f inst (int_to_ptr (from_pointer w)) s = Linked copy (plain inst.address) w s
Answers m f inst (int_to_ptr (from_pointer_with_offset w)) s = Linked copy (plain inst.address) w s
Answers m f inst (select v w) s =
    inst.is_pointer ≡ true
    → Linked copy (plain inst.address) v s × Linked copy (plain inst.address) w s
Answers m f inst _ s = Unit

-- What is demanded in any later state is there.
Answers-Among :
    (m : Module) (f : Function) (inst : Instruction) (op : Opcode) (s t : Collector)
    (c : AndersConstraint)
    → Answers m f inst op s
    → Extends s t
    → Demands m f t inst op c
    → Among s.constraints c
Answers-Among m f inst op s t c answers ext (by_alloca nonzero r d) = answers nonzero t ext _ _ d r
Answers-Among m f inst op s t c answers ext (by_result g defines p r d) =
    (answers g defines).0 p t ext _ _ d r
Answers-Among m f inst op s t c answers ext (by_argument g defines formal actual among p r d) =
    (answers g defines).1 formal actual among p t ext _ _ d r
Answers-Among m f inst op s t c answers ext (by_indirect p d) = answers p t ext _ _ d refl
Answers-Among m f inst op s t c answers ext (by_ret p r d) = answers p t ext _ _ d r
Answers-Among m f inst op s t c answers ext (by_load p r d) = answers p t ext _ _ d r
Answers-Among m f inst op s t c answers ext (by_store p r d) = answers p t ext _ _ d r
Answers-Among m f inst op s t c answers ext (by_element r d) = answers t ext _ _ d r
Answers-Among m f inst op s t c answers ext (by_phi {vs} v p among r d) =
    All-member (λ w. Linked copy (plain inst.address) w s) v vs (answers p) among t ext _ _ d r
Answers-Among m f inst op s t c answers ext (by_cast p r d) = answers p t ext _ _ d r
Answers-Among m f inst op s t c answers ext (by_integer r d) = answers t ext _ _ d r
Answers-Among m f inst op s t c answers ext (by_offset r d) = answers t ext _ _ d r
Answers-Among m f inst op s t c answers ext (by_first p r d) = (answers p).0 t ext _ _ d r
Answers-Among m f inst op s t c answers ext (by_second p r d) = (answers p).1 t ext _ _ d r

if_pointer-Yields :
    (b : Bool) (s : Collector) {m : Option Collector} {P : Collector → Type 0}
    → Yields P m
    → Yields (λ s'. b ≡ true → P s') (if b then m else some s)
if_pointer-Yields true s p = Yields-map p (λ s' q _. q)
if_pointer-Yields false s p = yields (λ e. cc)

module _ (m : Module) (f : Function) (inst : Instruction) (s : Collector) (v : IsValid s) where
  integer-Answers :
      (op : Integer) (d : ℕ)
      → Found (plain inst.address) s d
      → Yields (Answers m f inst (int_to_ptr op)) (elim op [
        | from_pointer w ↦ collect_incoming d w s
        | from_pointer_with_offset w ↦ collect_incoming d w s
        | any_integer ↦ some (add copy d universal_ptr_index s)
      ])
  integer-Answers (from_pointer w) d at_d = collect_incoming-Linked inst s d w at_d
  integer-Answers (from_pointer_with_offset w) d at_d = collect_incoming-Linked inst s d w at_d
  integer-Answers any_integer d at_d = yields tt

  integer_case :
      (op : Integer) → Yields (Answers m f inst (int_to_ptr op)) (collect_int_to_ptr inst op s)
  unfolding collect_int_to_ptr
  integer_case op = Yields->>= (own_node inst s) (λ d at_d. integer-Answers op d at_d)

  collect_opcode-Answers :
      (op : Opcode) → Yields (Answers m f inst op) (collect_opcode m f inst op s)
  unfolding collect_opcode
  collect_opcode-Answers alloca = collect_alloca-Joined inst s v
  collect_opcode-Answers (call none args) = add_constraint_for_call-AnyReturned m inst f args s v
  collect_opcode-Answers (call (some a) args) =
      add_constraint_for_call-AllPassed m inst f a args s v
  collect_opcode-Answers (ret none) = Yields-any _
  collect_opcode-Answers (ret (some op)) = collect_ret-Joined f op s
  collect_opcode-Answers (load op) =
      if_pointer-Yields inst.is_pointer s (collect_load-Linked inst s op)
  collect_opcode-Answers (store op to) = collect_store-Linked inst s op to
  collect_opcode-Answers (get_element_ptr op) =
      Yields-if inst.is_pointer (collect_copy-Linked inst s op) fails
  collect_opcode-Answers (phi vs) =
      if_pointer-Yields inst.is_pointer s (collect_phi-Linked inst s v vs)
  collect_opcode-Answers (bit_cast op) =
      if_pointer-Yields inst.is_pointer s (collect_copy-Linked inst s op)
  collect_opcode-Answers (int_to_ptr op) = Yields-if inst.is_pointer (integer_case op) fails
  collect_opcode-Answers (select w₁ w₂) =
      if_pointer-Yields inst.is_pointer s (collect_select-Linked inst s w₁ w₂)
  collect_opcode-Answers va_arg = Yields-any _
  collect_opcode-Answers extract_or_insert_value = Yields-any _
  collect_opcode-Answers exception_or_atomic = fails
  collect_opcode-Answers other = Yields-any _

-- Whatever the instruction demands in a later state is there.
abbrev pub Done : Module → Function → Instruction → Collector → Type 0
Done m f inst s =
    (t : Collector)
    → Extends s t
    → (c : AndersConstraint) → Demands m f t inst inst.opcode c
    → Among s.constraints c

pub Done-Extends :
    (m : Module) (f : Function) (inst : Instruction) (s t : Collector)
    → Extends s t
    → Done m f inst s
    → Done m f inst t
Done-Extends m f inst s t ext done u later c d =
    ext.more c (done u (Extends-trans s t u ext later) c d)

module _ (m : Module) (f : Function) where
  pub collect_opcode-Done :
      (inst : Instruction) (s : Collector)
      → IsValid s
      → Yields
          (λ t. IsValid t × Extends s t × Done m f inst t)
          (collect_opcode m f inst inst.opcode s)
  collect_opcode-Done inst s v =
      Yields-map
        (Yields-both (collect_opcode-Keeps s inst s (v, Extends-refl s) m f inst.opcode)
          (collect_opcode-Answers m f inst s v inst.opcode))
        (λ t ((v', ext), answers).
          (v', ext, λ u later c d. Answers-Among m f inst inst.opcode t u c answers later d))
