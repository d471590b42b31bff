-- ===== src/Andersen/Collect/Valid.antt =====
-- andersen/lib/ConstraintCollect.cpp: the state of the phase, when every index is that of a node.
use programslicer.Common.{
  ℕ, zero, suc, ◌≤◌, ◌<◌, ◌≡◌, refl, inl, inr, false, Option, some, List, [], ◌∷◌, ◌++◌, ◌==◌,
  ◌>>=◌, arith, length, sym, subst, Bool-cases, Option-cases, ◌∙◌, eq_of_==, ==_refl, All, Yields,
  fails, yields, Yields->>=, branch,
}
use programslicer.Common.Maps
use programslicer.Common.Maps.{Map, lookup-set}
use programslicer.NodeFactory.{
  AndersNodeType, AndersNode, AndersNodeFactory, anders_node, target, invalid_index, found, Value,
  constant, plain, Constant, constant_pointer_null, undef_value, global_value, get_element_ptr,
  int_to_ptr, ptr_to_int, bit_cast, not_handled, get_value_node_for, get_value_node_for_constant,
  get_object_node_for, get_object_node_for_constant,
}
use programslicer.Andersen.Constraint.{ConstraintType, AndersConstraint}
use programslicer.Andersen.Constraint.Meaning.{HasNodes}
use programslicer.Andersen.Constraint.Derives.{Among}
use programslicer.Andersen.Collect.{Collector, add, valid, value_node}

-- All entries are below a bound.
abbrev pub Below : ℕ → Map ℕ → Type 0
Below n m = (v i : ℕ) → Maps.lookup v m ≡ some i → i < n

-- Every node is its own merge target.
abbrev pub NoneMerged : List AndersNode → Type 0
NoneMerged nodes = (n : ℕ) → n < length nodes → target nodes n ≡ some n

abbrev pub size : Collector → ℕ
size s = length s.node_factory.nodes

pub record IsValid (s : Collector) : Type 0 where
  pub values : Below (size s) s.node_factory.value_node_map
  pub objects : Below (size s) s.node_factory.obj_node_map
  pub returns : Below (size s) s.node_factory.return_map
  pub varargs : Below (size s) s.node_factory.vararg_map
  pub own : NoneMerged s.node_factory.nodes
  pub inside : All (HasNodes (size s)) s.constraints
  pub base : 3 < size s

-- The entries of a map are in another.
abbrev pub Stays : Map ℕ → Map ℕ → Type 0
Stays before after = (x i : ℕ) → Maps.lookup x before ≡ some i → Maps.lookup x after ≡ some i

-- What a state has of an earlier one: nodes and constraints are added, and values and functions keep
-- their nodes.
pub record Extends (k s : Collector) : Type 0 where
  pub longer : size k ≤ size s
  pub same_values : Stays k.node_factory.value_node_map s.node_factory.value_node_map
  pub same_objects : Stays k.node_factory.obj_node_map s.node_factory.obj_node_map
  pub same_returns : Stays k.node_factory.return_map s.node_factory.return_map
  pub same_varargs : Stays k.node_factory.vararg_map s.node_factory.vararg_map
  pub more : (c : AndersConstraint) → Among k.constraints c → Among s.constraints c

pub Extends-refl : (s : Collector) → Extends s s
Extends-refl s = record {
  longer = omega arith;
  same_values = λ x i e. e;
  same_objects = λ x i e. e;
  same_returns = λ x i e. e;
  same_varargs = λ x i e. e;
  more = λ c h. h;
}

pub Extends-trans : (k s s' : Collector) → Extends k s → Extends s s' → Extends k s'
Extends-trans k s s' a b = record {
  longer = omega (arith, a.longer, b.longer);
  same_values = λ x i e. b.same_values x i (a.same_values x i e);
  same_objects = λ x i e. b.same_objects x i (a.same_objects x i e);
  same_returns = λ x i e. b.same_returns x i (a.same_returns x i e);
  same_varargs = λ x i e. b.same_varargs x i (a.same_varargs x i e);
  more = λ c h. b.more c (a.more c h);
}

-- The state is valid, and extends the state `k`.
abbrev pub Keeps : Collector → Collector → Type 0
Keeps k s = IsValid s × Extends k s

Among-append :
    (c d : AndersConstraint) (cs : List AndersConstraint) → Among cs c → Among (cs ++ d ∷ []) c
Among-append c d [] h = absurd h
Among-append c d (x ∷ cs) (inl e) = inl e
Among-append c d (x ∷ cs) (inr later) = inr (Among-append c d cs later)

pub Among-last : (d : AndersConstraint) (cs : List AndersConstraint) → Among (cs ++ d ∷ []) d
Among-last d [] = inl refl
Among-last d (x ∷ cs) = inr (Among-last d cs)

pub length-append :
    (nodes : List AndersNode) (new : AndersNode) → length (nodes ++ new ∷ []) ≡ suc (length nodes)
length-append [] new = refl
length-append (x ∷ nodes) new = ground (arith, length-append nodes new)

target_old :
    (nodes : List AndersNode) (new : AndersNode) (m : ℕ)
    → m < length nodes
    → target (nodes ++ new ∷ []) m ≡ target nodes m
target_old [] new m h = absurd (omega (arith, h))
target_old (x ∷ nodes) new zero h = refl
target_old (x ∷ nodes) new (suc m) h = target_old nodes new m (omega (arith, h))

target_new :
    (nodes : List AndersNode) (new : AndersNode)
    → target (nodes ++ new ∷ []) (length nodes) ≡ some new.merge_target
target_new [] new = refl
target_new (x ∷ nodes) new = target_new nodes new

pub NoneMerged-append :
    (nodes : List AndersNode) (type : AndersNodeType) (v : ℕ)
    → NoneMerged nodes
    → NoneMerged (nodes ++ anders_node type (length nodes) v ∷ [])
NoneMerged-append nodes type v own m h =
    let new = anders_node type (length nodes) v in
    elim (Bool-cases (m == length nodes)) [
      | inl last ↦
          subst (λ k. target (nodes ++ new ∷ []) k ≡ some k) (sym (eq_of_== m (length nodes) last))
            (target_new nodes new)
      | inr before ↦
          let less : m < length nodes = ground (arith, length-append nodes new) in
          target_old nodes new m less ∙ own m less
    ]

pub HasNodes-grow :
    (n m : ℕ) (cs : List AndersConstraint) → n ≤ m → All (HasNodes n) cs → All (HasNodes m) cs
HasNodes-grow n m [] h all = tt
HasNodes-grow n m (c ∷ cs) h (here, all) =
    ((omega (arith, h, here.0), omega (arith, h, here.1)), HasNodes-grow n m cs h all)

HasNodes-append :
    (n : ℕ) (c : AndersConstraint) (cs : List AndersConstraint)
    → All (HasNodes n) cs
    → HasNodes n c
    → All (HasNodes n) (cs ++ c ∷ [])
HasNodes-append n c [] all h = (h, tt)
HasNodes-append n c (d ∷ cs) (here, all) h = (here, HasNodes-append n c cs all h)

pub add-Extends : (ty : ConstraintType) (d r : ℕ) (s : Collector) → Extends s (add ty d r s)
unfolding add
add-Extends ty d r s = record {
  longer = omega arith;
  same_values = λ x i e. e;
  same_objects = λ x i e. e;
  same_returns = λ x i e. e;
  same_varargs = λ x i e. e;
  more = λ c h. Among-append c _ s.constraints h;
}

-- A constraint between nodes keeps the state valid.
pub add-Keeps :
    (ty : ConstraintType) (d r : ℕ) (k s : Collector)
    → Keeps k s
    → d < size s
    → r < size s
    → Keeps k (add ty d r s)
unfolding add
add-Keeps ty d r k s (v, le) hd hr = (
  record {
    values = v.values;
    objects = v.objects;
    returns = v.returns;
    varargs = v.varargs;
    own = v.own;
    inside = HasNodes-append (size s) _ s.constraints v.inside (hr, hd);
    base = v.base;
  },
  Extends-trans k s (add ty d r s) le (add-Extends ty d r s),
)

found-bound :
    (n key : ℕ) (m : Map ℕ) → Below n m → (found key m == invalid_index) ≡ false → found key m < n
found-bound n key m below h = elim (Option-cases (Maps.lookup key m)) [
  | inl missing ↦ absurd (ground (arith, ==_refl invalid_index))
  | inr (i, at_key) ↦ ground (arith, below key i)
]

-- An index that `valid` lets through.
abbrev pub Bounded : ℕ → Option ℕ → Type 0
Bounded n = Yields (λ i. (i == invalid_index) ≡ false → i < n)

pub valid_of_Bounded : {n : ℕ} {m : Option ℕ} → Bounded n m → Yields (λ i. i < n) (m >>= valid)
unfolding valid
valid_of_Bounded bounded = Yields->>= bounded (λ i h. elim (Bool-cases (i == invalid_index)) [
  | inl not_there ↦ rw not_there fails
  | inr there ↦ rw there (yields (h there))
])

pub valid-found : (n key : ℕ) (m : Map ℕ) → Below n m → Yields (λ i. i < n) (valid (found key m))
valid-found n key m below =
    valid_of_Bounded {m = some (found key m)} (yields (found-bound n key m below))

module _ (f : AndersNodeFactory) (n : ℕ) (base : 3 < n) where
  value_constant :
      (c : Constant) → Below n f.value_node_map → Bounded n (get_value_node_for_constant c f)
  unfolding get_value_node_for_constant
  value_constant constant_pointer_null below = yields (λ h. omega (arith, base))
  value_constant undef_value below = yields (λ h. omega (arith, base))
  value_constant (global_value g) below = yields (found-bound n g f.value_node_map below)
  value_constant (get_element_ptr c) below = value_constant c below
  value_constant int_to_ptr below = yields (λ h. omega (arith, base))
  value_constant ptr_to_int below = fails
  value_constant (bit_cast c) below = value_constant c below
  value_constant not_handled below = fails

  pub get_value_node_for-Bounded :
      (v : Value) → Below n f.value_node_map → Bounded n (get_value_node_for v f)
  unfolding get_value_node_for
  get_value_node_for-Bounded (constant c) below = value_constant c below
  get_value_node_for-Bounded (plain v) below =
      branch (Bounded n) (v == 0) (λ _. fails)
        (λ _. yields (found-bound n v f.value_node_map below))

  pub object_constant :
      (c : Constant) → Below n f.obj_node_map → Bounded n (get_object_node_for_constant c f)
  unfolding get_object_node_for_constant
  object_constant constant_pointer_null below = yields (λ h. omega (arith, base))
  object_constant undef_value below = fails
  object_constant (global_value g) below = yields (found-bound n g f.obj_node_map below)
  object_constant (get_element_ptr c) below = object_constant c below
  object_constant int_to_ptr below = yields (λ h. omega (arith, base))
  object_constant ptr_to_int below = fails
  object_constant (bit_cast c) below = object_constant c below
  object_constant not_handled below = fails

  pub get_object_node_for-Bounded :
      (v : Value) → Below n f.obj_node_map → Bounded n (get_object_node_for v f)
  unfolding get_object_node_for
  get_object_node_for-Bounded (constant c) below = object_constant c below
  get_object_node_for-Bounded (plain v) below =
      branch (Bounded n) (v == 0) (λ _. fails) (λ _. yields (found-bound n v f.obj_node_map below))

-- The node of a value, in a valid state.
pub value_node-bound :
    (v : Value) (s : Collector) → IsValid s → Yields (λ i. i < size s) (value_node v s)
unfolding value_node
value_node-bound v s valid_s =
    valid_of_Bounded
      (get_value_node_for-Bounded s.node_factory (size s) valid_s.base v valid_s.values)
