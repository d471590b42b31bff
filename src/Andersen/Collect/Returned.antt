-- ===== src/Andersen/Collect/Returned.antt =====
-- andersen/lib/ConstraintCollect.cpp: the constraints of `alloca`, of `ret` and of the result of a
-- direct call.
use programslicer.Common.{
  ℕ, ◌≡◌, inl, inr, true, false, some, ◌==◌, arith, is_some, length, ==_refl, Option-cases, Yields,
  fails, yields, Yields->>=, Yields-if, Yields-both, branch,
}
use programslicer.Common.Maps
use programslicer.Common.Maps.{lookup-set}
use programslicer.NodeFactory.{AndersNodeFactory, plain, invalid_index, found, create_object_node}
use programslicer.Andersen.Constraint.{addr_of, copy}
use programslicer.Andersen.Code.{Function, Instruction, Operand, CallSite}
use programslicer.Andersen.Collect.{Collector, valid}
use programslicer.Andersen.Collect.Calls.{return_result}
use programslicer.Andersen.Collect.Instructions.{collect_alloca, collect_ret}
use programslicer.Andersen.Collect.Valid.{IsValid}
use programslicer.Andersen.Collect.Created.{create_object_node-Created}
use programslicer.Andersen.Collect.Places.{
  value_node-Found, Found-Extends, of_value, of_object, of_return, Joined, add-Joined,
}

-- A node that is looked up and valid is an entry of the map.
found_entry :
    (key : ℕ) (m : Maps.Map ℕ)
    → (found key m == invalid_index) ≡ false
    → Maps.lookup key m ≡ some (found key m)
found_entry key m there = elim (Option-cases (Maps.lookup key m)) [
  | inl missing ↦ absurd (ground (arith, ==_refl invalid_index))
  | inr (i, e) ↦ ground arith
]

valid_entry :
    (key : ℕ) (m : Maps.Map ℕ) → Yields (λ i. Maps.lookup key m ≡ some i) (valid (found key m))
unfolding valid
valid_entry key m =
    branch (Yields (λ i. Maps.lookup key m ≡ some i)) (found key m == invalid_index) (λ _. fails)
      (λ there. yields (found_entry key m there))

create_object_node-At :
    (key : ℕ) (f : AndersNodeFactory)
    → Yields
        (λ (i, f'). (key == 0) ≡ false → Maps.lookup key f'.obj_node_map ≡ some i)
        (create_object_node key f)
unfolding create_object_node
create_object_node-At key f =
    branch (Yields (λ (i, f'). (key == 0) ≡ false → Maps.lookup key f'.obj_node_map ≡ some i))
      (key == 0) (λ null. yields (λ other. absurd (ground arith)))
      (λ _.
        Yields-if (is_some (Maps.lookup key f.obj_node_map)) fails
          (yields (λ _. ground (arith, lookup-set key key (length f.nodes) f.obj_node_map))))

module _ (inst : Instruction) (s : Collector) (v : IsValid s) where
  pub collect_alloca-Joined :
      Yields
        (λ t.
          (inst.address == 0) ≡ false
          → Joined addr_of (of_value (plain inst.address)) (of_object inst.address) t)
        (collect_alloca inst s)
  unfolding collect_alloca
  collect_alloca-Joined = Yields->>= (value_node-Found (plain inst.address) s) (λ d at_d.
      Yields->>=
        (Yields-both (create_object_node-Created s v inst.address)
          (create_object_node-At inst.address s.node_factory))
        (λ (r, f) ((_, keeps), at_r).
          let t : Collector = record s { node_factory = f } in
          yields (λ other.
            add-Joined addr_of (of_value (plain inst.address)) (of_object inst.address) d r t
              (Found-Extends s t keeps.1 (plain inst.address) d at_d) (at_r other))))

pub collect_ret-Joined :
    (f : Function) (op : Operand) (s : Collector)
    → Yields
        (λ t. op.is_pointer ≡ true → Joined copy (of_return f.address) (of_value op.value) t)
        (collect_ret f (some op) s)
unfolding collect_ret
collect_ret-Joined f op s =
    branch
      (Yields (λ t. op.is_pointer ≡ true → Joined copy (of_return f.address) (of_value op.value) t))
      op.is_pointer
      (λ _. Yields->>= (valid_entry f.address s.node_factory.return_map) (λ d at_d.
        Yields->>= (value_node-Found op.value s) (λ r at_r.
          yields (λ _. add-Joined copy (of_return f.address) (of_value op.value) d r s at_d at_r))))
      (λ no_pointer. yields (λ pointer. absurd (ground arith)))

-- The constraints of a direct call of the function `g`.
abbrev pub AllReturned : Instruction → Function → Collector → Type 0
AllReturned inst g t =
    inst.is_pointer ≡ true → Joined copy (of_value (plain inst.address)) (of_return g.address) t

pub return_result-Joined :
    (cs : CallSite) (g : Function) (s : Collector)
    → Yields (AllReturned cs.instruction g) (return_result cs g s)
unfolding return_result
return_result-Joined cs g s =
    branch (Yields (AllReturned cs.instruction g)) cs.instruction.is_pointer
      (λ _. Yields->>= (value_node-Found (plain cs.instruction.address) s) (λ d at_d.
        Yields->>= (valid_entry g.address s.node_factory.return_map) (λ r at_r. yields (λ _.
          add-Joined copy (of_value (plain cs.instruction.address)) (of_return g.address) d r s at_d
            at_r))))
      (λ no_pointer. yields (λ pointer. absurd (ground arith)))
