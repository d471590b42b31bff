-- ===== src/Andersen/Collect/Places.antt =====
-- andersen/lib/ConstraintCollect.cpp: the nodes that the constraints of an instruction are between.
use programslicer.Common.{
  ℕ, ◌≡◌, inl, inr, false, some, ◌==◌, ◌>>=◌, arith, sym, ◌∙◌, ap, subst, Option-cases, Bool-cases,
  Yields, fails, yields, ==_refl,
}
use mathlib.Core.Option.{some-injective}
use programslicer.Common.Maps
use programslicer.Common.Maps.{Map}
use programslicer.NodeFactory.{
  Value, constant, plain, Constant, constant_pointer_null, undef_value, global_value,
  get_element_ptr as element_constant, int_to_ptr as int_constant, ptr_to_int,
  bit_cast as cast_constant, not_handled, invalid_index, found, get_value_node_for,
  get_value_node_for_constant,
}
use programslicer.Andersen.Constraint.Derives.{Among}
use programslicer.NodeFactory.{universal_ptr_index}
use programslicer.Andersen.Constraint.{ConstraintType, constraint}
use programslicer.Andersen.Collect.{Collector, add, valid, value_node}
use programslicer.Andersen.Collect.Valid.{Extends, Extends-trans, add-Extends, Among-last}

-- The value has the node `i`.
abbrev pub Found : Value → Collector → ℕ → Type 0
Found v s i = (get_value_node_for v s.node_factory ≡ some i) × ((i == invalid_index) ≡ false)

pub value_node-Found : (v : Value) (s : Collector) → Yields (Found v s) (value_node v s)
unfolding value_node valid
value_node-Found v s = elim (Option-cases (get_value_node_for v s.node_factory)) [
  | inl missing ↦ rw missing fails
  | inr (i, e) ↦ elim (Bool-cases (i == invalid_index)) [
    | inl not_there ↦ rw (e, not_there) fails
    | inr there ↦
        subst (λ m. Yields (Found v s) (m >>= valid)) (sym e) (rw there (yields (e, there)))
  ]
]

module _ (k s : Collector) (ext : Extends k s) where
  found_stays :
      (key i : ℕ)
      → found key k.node_factory.value_node_map ≡ i
      → (i == invalid_index) ≡ false
      → found key s.node_factory.value_node_map ≡ i
  found_stays key i e there = elim (Option-cases (Maps.lookup key k.node_factory.value_node_map)) [
    | inl missing ↦ absurd (ground (arith, ==_refl invalid_index))
    | inr (j, at_key) ↦ let later = ext.same_values key j at_key in ground arith
  ]

  constant_stays :
      (c : Constant) (i : ℕ)
      → get_value_node_for_constant c k.node_factory ≡ some i
      → (i == invalid_index) ≡ false
      → get_value_node_for_constant c s.node_factory ≡ some i
  unfolding get_value_node_for_constant
  constant_stays constant_pointer_null i e there = e
  constant_stays undef_value i e there = e
  constant_stays (global_value g) i e there = ap some (found_stays g i (some-injective _ _ e) there)
  constant_stays (element_constant c) i e there = constant_stays c i e there
  constant_stays int_constant i e there = e
  constant_stays ptr_to_int i e there = cc
  constant_stays (cast_constant c) i e there = constant_stays c i e there
  constant_stays not_handled i e there = cc

  pub Found-Extends : (v : Value) (i : ℕ) → Found v k i → Found v s i
  unfolding get_value_node_for
  Found-Extends (constant c) i (e, there) = (constant_stays c i e there, there)
  Found-Extends (plain v) i (e, there) = elim (Bool-cases (v == 0)) [
    | inl is_null ↦ absurd (ground arith)
    | inr no_null ↦
        let here : found v k.node_factory.value_node_map ≡ i = ground arith in
        (rw no_null (ap some (found_stays v i here there)), there)
  ]

  -- A value has the same node later.
  pub Found-same : (v : Value) (i j : ℕ) → Found v k i → Found v s j → i ≡ j
  Found-same v i j before after = some-injective _ _ (sym (Found-Extends v i before).0 ∙ after.0)

-- What a constraint is between: the node of a value, the object of an instruction, the node of what a
-- function returns, and the universal pointer.
pub data Site : Type 0 where
  of_value : Value → Site
  of_object : ℕ → Site
  of_return : ℕ → Site
  universal : Site

-- The place has the node `i`.
abbrev pub At : Site → Collector → ℕ → Type 0
At (of_value v) s i = Found v s i
At (of_object a) s i = Maps.lookup a s.node_factory.obj_node_map ≡ some i
At (of_return a) s i = Maps.lookup a s.node_factory.return_map ≡ some i
At universal s i = i ≡ universal_ptr_index

At-same : (k s : Collector) → Extends k s → (p : Site) (i j : ℕ) → At p k i → At p s j → i ≡ j
At-same k s ext (of_value v) i j before after = Found-same k s ext v i j before after
At-same k s ext (of_object a) i j before after =
    some-injective _ _ (sym (ext.same_objects a i before) ∙ after)
At-same k s ext (of_return a) i j before after =
    some-injective _ _ (sym (ext.same_returns a i before) ∙ after)
At-same k s ext universal i j before after = before ∙ sym after

-- In the state, and in any later one, the constraint between the nodes of two places is there.
abbrev pub Joined : ConstraintType → (to from : Site) → Collector → Type 0
Joined ty to from s =
    (t : Collector)
    → Extends s t
    → (d r : ℕ) → At to t d
    → At from t r
    → Among s.constraints (constraint ty d r)

pub add-Joined :
    (ty : ConstraintType) (to from : Site) (d r : ℕ) (s : Collector)
    → At to s d
    → At from s r
    → Joined ty to from (add ty d r s)
unfolding add
add-Joined ty to from d r s at_to at_from t ext d' r' at_to' at_from' =
    let before : Extends s t = Extends-trans s (add ty d r s) t (add-Extends ty d r s) ext in
    let e_d = At-same s t before to d d' at_to at_to' in
    let e_r = At-same s t before from r r' at_from at_from' in
    rw (← e_d, ← e_r) (Among-last (constraint ty d r) s.constraints)

pub Joined-Extends :
    (ty : ConstraintType) (to from : Site) (s u : Collector)
    → Extends s u
    → Joined ty to from s
    → Joined ty to from u
Joined-Extends ty to from s u ext joined t later d r at_d at_r =
    ext.more _ (joined t (Extends-trans s u t ext later) d r at_d at_r)
