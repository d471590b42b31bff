-- ===== src/Andersen/Collect/Linked.antt =====
-- andersen/lib/ConstraintCollect.cpp, `collectConstraintsForInstruction`: the constraints that the
-- cases add.
use programslicer.Common.{
  ℕ, ◌≡◌, true, List, arith, All, Yields, yields, Yields->>=, Yields-map, Yields-both, Yields-All,
  branch,
}
use programslicer.NodeFactory.{Value, plain}
use programslicer.Andersen.Constraint
use programslicer.Andersen.Constraint.{ConstraintType, AndersConstraint, constraint, copy}
use programslicer.Andersen.Code.{Instruction, Operand}
use programslicer.Andersen.Collect.{Collector, add, value_node}
use programslicer.Andersen.Collect.Instructions.{
  collect_load, collect_store, collect_copy, collect_incoming, collect_phi, collect_select,
}
use programslicer.Andersen.Collect.Valid.{
  IsValid, Extends, Keeps, Extends-refl, Extends-trans, add-Extends, value_node-bound,
}
use programslicer.Andersen.Collect.Keeps.{Keeps-trans}
use programslicer.Andersen.Collect.Keeps.Instructions.{collect_incoming-Keeps}
use programslicer.Andersen.Collect.Places.{
  of_value, Joined, add-Joined, Joined-Extends, Found, value_node-Found, Found-Extends,
}

-- In the state, and in any later one, the constraint between the nodes of two values is there.
abbrev pub Linked : ConstraintType → (to from : Value) → Collector → Type 0
Linked ty to from s = Joined ty (of_value to) (of_value from) s

add-Linked :
    (ty : ConstraintType) (to from : Value) (d r : ℕ) (s : Collector)
    → Found to s d
    → Found from s r
    → Linked ty to from (add ty d r s)
add-Linked ty to from d r s at_to at_from =
    add-Joined ty (of_value to) (of_value from) d r s at_to at_from

at_add :
    (ty : ConstraintType) (v : Value) (i d r : ℕ) (s : Collector)
    → Found v s i
    → Found v (add ty d r s) i
unfolding add
at_add ty v i d r s h = h

module _ (inst : Instruction) (s : Collector) where
  pub own_node : Yields (Found (plain inst.address) s) (value_node (plain inst.address) s)
  own_node = value_node-Found (plain inst.address) s

  pub collect_load-Linked :
      (op : Value)
      → Yields (Linked Constraint.load (plain inst.address) op) (collect_load inst op s)
  unfolding collect_load
  collect_load-Linked op = Yields->>= (value_node-Found op s) (λ r at_r.
      Yields->>= own_node
        (λ d at_d. yields (add-Linked Constraint.load (plain inst.address) op d r s at_d at_r)))

  pub collect_copy-Linked :
      (op : Value) → Yields (Linked copy (plain inst.address) op) (collect_copy inst op s)
  unfolding collect_copy
  collect_copy-Linked op = Yields->>= (value_node-Found op s) (λ r at_r.
      Yields->>= own_node
        (λ d at_d. yields (add-Linked copy (plain inst.address) op d r s at_d at_r)))

  pub collect_store-Linked :
      (op : Operand) (to : Value)
      → Yields
          (λ s'. op.is_pointer ≡ true → Linked Constraint.store to op.value s')
          (collect_store op to s)
  unfolding collect_store
  collect_store-Linked op to =
      branch (Yields (λ s'. op.is_pointer ≡ true → Linked Constraint.store to op.value s'))
        op.is_pointer
        (λ _. Yields->>= (value_node-Found op.value s) (λ r at_r.
          Yields->>= (value_node-Found to s)
            (λ d at_d. yields (λ _. add-Linked Constraint.store to op.value d r s at_d at_r))))
        (λ no_pointer. yields (λ pointer. absurd (ground arith)))

  pub collect_select-Linked :
      (v w : Value)
      → Yields
          (λ s'. Linked copy (plain inst.address) v s' × Linked copy (plain inst.address) w s')
          (collect_select inst v w s)
  unfolding collect_select
  collect_select-Linked v w = Yields->>= (value_node-Found v s) (λ r₁ at₁.
      Yields->>= (value_node-Found w s) (λ r₂ at₂. Yields->>= own_node (λ d at_d.
        let to = plain inst.address in
        let s₁ = add copy d r₁ s in
        yields (
          Joined-Extends copy (of_value to) (of_value v) s₁ (add copy d r₂ s₁)
              (add-Extends copy d r₂ s₁) (add-Linked copy to v d r₁ s at_d at₁),
          add-Linked copy to w d r₂ s₁ (at_add copy to d d r₁ s at_d) (at_add copy w r₂ d r₁ s at₂),
        ))))

  pub collect_incoming-Linked :
      (d : ℕ) (v : Value)
      → Found (plain inst.address) s d
      → Yields (Linked copy (plain inst.address) v) (collect_incoming d v s)
  unfolding collect_incoming
  collect_incoming-Linked d v at_d =
      Yields->>= (value_node-Found v s)
        (λ r at_r. yields (add-Linked copy (plain inst.address) v d r s at_d at_r))

module _ (inst : Instruction) (s : Collector) (v : IsValid s) where
  pub collect_phi-Linked :
      (vs : List Value)
      → Yields (λ s'. All (λ w. Linked copy (plain inst.address) w s') vs) (collect_phi inst vs s)
  unfolding collect_phi
  collect_phi-Linked vs =
      Yields->>= (Yields-both (own_node inst s) (value_node-bound (plain inst.address) s v))
        (λ d (at_d, in_d).
          Yields-map
            (Yields-All (λ u. Keeps s u) (λ w u. Linked copy (plain inst.address) w u) Extends
              (collect_incoming d) Extends-refl Extends-trans
              (λ w u u' ext linked.
                Joined-Extends copy (of_value (plain inst.address)) (of_value w) u u' ext linked)
              (λ w u keeps.
                Yields-map
                  (Yields-both
                    (collect_incoming-Keeps u d (omega (arith, in_d, keeps.1.longer)) w u
                      (keeps.0, Extends-refl u))
                    (collect_incoming-Linked inst u d w
                      (Found-Extends s u keeps.1 (plain inst.address) d at_d)))
                  (λ u' (keeps', linked). (Keeps-trans s u u' keeps keeps', keeps'.1, linked)))
              vs s (v, Extends-refl s))
            (λ u (keeps, ext, all). all))
