-- ===== src/Andersen/Collect/Total/Nodes.antt =====
-- andersen/lib/ConstraintCollect.cpp: the nodes that are looked up are there.
use programslicer.Common.{
  if◌then◌else◌, none, All-map, ℕ, suc, ◌≤◌, ◌≡◌, refl, Bool, true, false, some, ◌==◌, arith, sym,
  ap, subst, ◌∙◌, length, All, Any, Gives, gives,
}
use programslicer.Common.Maps
use programslicer.Common.Maps.{Map}
use programslicer.NodeFactory.{
  AndersNodeFactory, Value, constant, plain, Constant, constant_pointer_null, undef_value,
  global_value, get_element_ptr as element_constant, int_to_ptr as int_constant, ptr_to_int,
  bit_cast as cast_constant, not_handled, invalid_index, found, get_value_node_for,
  get_value_node_for_constant,
}
use programslicer.Andersen.Constraint.{ConstraintType}
use programslicer.Andersen.Code.{Module, Function}
use programslicer.Andersen.Collect.{Collector, add, valid, value_node}
use programslicer.Andersen.Collect.Valid.{size}
use programslicer.Andersen.Collect.Places.{Found}
use programslicer.Andersen.Collect.Total.Ready.{is_external, Known}

-- The map has a valid index for the key, which is not null.
abbrev pub HasEntry : ℕ → Map ℕ → Type 0
HasEntry key entries = ((key == 0) ≡ false) × ((found key entries == invalid_index) ≡ false)

abbrev pub HasNode : Value → Collector → Type 0
HasNode v s = (i : ℕ) × Found v s i

pub value_node-Gives :
    (v : Value) (s : Collector) → HasNode v s → Gives (λ i. Unit {0}) (value_node v s)
unfolding value_node valid
value_node-Gives v s (i, (e, there)) = rw (e, there) (gives tt)

pub valid-Gives :
    (key : ℕ) (entries : Map ℕ)
    → HasEntry key entries
    → Gives (λ i. Unit {0}) (valid (found key entries))
unfolding valid
valid-Gives key entries (_, there) = rw there (gives tt)

-- Constraints are added, and no node.
abbrev pub Adds : Collector → Collector → Type 0
Adds s t = t.node_factory ≡ s.node_factory

pub add-Adds : (ty : ConstraintType) (d r : ℕ) (s : Collector) → Adds s (add ty d r s)
unfolding add
add-Adds ty d r s = refl

-- The maps of values and of what functions return and take stay.
pub record Same (s t : Collector) : Type 0 where
  pub values : t.node_factory.value_node_map ≡ s.node_factory.value_node_map
  pub returns : t.node_factory.return_map ≡ s.node_factory.return_map
  pub varargs : t.node_factory.vararg_map ≡ s.node_factory.vararg_map

pub Adds-Same : (s t : Collector) → Adds s t → Same s t
Adds-Same s t e = record {
  values = ap (λ f. f.value_node_map) e;
  returns = ap (λ f. f.return_map) e;
  varargs = ap (λ f. f.vararg_map) e;
}

-- One node may be created, for the object of `a`.
pub record Touches (a : ℕ) (s t : Collector) : Type 0 where
  pub same : Same s t
  pub objects :
      (b : ℕ)
      → (a == b) ≡ false
      → Maps.lookup b t.node_factory.obj_node_map ≡ Maps.lookup b s.node_factory.obj_node_map
  pub grown : size t ≤ suc (size s)

pub Adds-Touches : (a : ℕ) (s t : Collector) → Adds s t → Touches a s t
Adds-Touches a s t e = record {
  same = Adds-Same s t e;
  objects = λ b _. ap (λ f. Maps.lookup b f.obj_node_map) e;
  grown = subst (λ f. length f.nodes ≤ suc (size s)) (sym e) (omega arith);
}

pub Touches-Adds : (a : ℕ) (s t u : Collector) → Touches a s t → Adds t u → Touches a s u
Touches-Adds a s t u touches e =
    subst (λ f. Touches a s (record { node_factory = f; constraints = u.constraints })) (sym e)
      (record {
        same = record {
          values = touches.same.values;
          returns = touches.same.returns;
          varargs = touches.same.varargs;
        };
        objects = touches.objects;
        grown = touches.grown;
      })

constant_same :
    (c : Constant) (f g : AndersNodeFactory)
    → g.value_node_map ≡ f.value_node_map
    → get_value_node_for_constant c g ≡ get_value_node_for_constant c f
unfolding get_value_node_for_constant
constant_same constant_pointer_null f g e = refl
constant_same undef_value f g e = refl
constant_same (global_value a) f g e = ap (λ m. some (found a m)) e
constant_same (element_constant c) f g e = constant_same c f g e
constant_same int_constant f g e = refl
constant_same ptr_to_int f g e = refl
constant_same (cast_constant c) f g e = constant_same c f g e
constant_same not_handled f g e = refl

value_same :
    (v : Value) (f g : AndersNodeFactory)
    → g.value_node_map ≡ f.value_node_map
    → get_value_node_for v g ≡ get_value_node_for v f
unfolding get_value_node_for
value_same (constant c) f g e = constant_same c f g e
value_same (plain v) f g e = ap (λ m. if v == 0 then none else some (found v m)) e

pub HasNode-Same : (v : Value) (s t : Collector) → Same s t → HasNode v s → HasNode v t
HasNode-Same v s t same (i, (e, there)) =
    (i, (value_same v s.node_factory t.node_factory same.values ∙ e, there))

-- The nodes that the functions of the module and the pointers of the function `f` have.
pub record Knows (m : Module) (f : Function) (s : Collector) : Type 0 where
  pub values : (v : Value) → Known m f v → HasNode v s
  pub formals :
      (g : Function)
      → Any (λ h. h ≡ g) m.functions
      → is_external g ≡ false
      → All (λ x. x.is_pointer ≡ true → HasNode (plain x.address) s) g.arguments
  pub returns :
      (g : Function)
      → Any (λ h. h ≡ g) m.functions
      → is_external g ≡ false
      → g.returns_pointer ≡ true
      → HasEntry g.address s.node_factory.return_map
  pub varargs :
      (g : Function)
      → Any (λ h. h ≡ g) m.functions
      → is_external g ≡ false
      → g.is_var_arg ≡ true
      → HasEntry g.address s.node_factory.vararg_map

pub Knows-Same :
    (m : Module) (f : Function) (s t : Collector) → Same s t → Knows m f s → Knows m f t
Knows-Same m f s t same k = record {
  values = λ v known. HasNode-Same v s t same (k.values v known);
  formals = λ g among defined.
      All-map _ _ (λ x node pointer. HasNode-Same (plain x.address) s t same (node pointer))
        g.arguments (k.formals g among defined);
  returns = λ g among defined p.
      subst (HasEntry g.address) (sym same.returns) (k.returns g among defined p);
  varargs = λ g among defined p.
      subst (HasEntry g.address) (sym same.varargs) (k.varargs g among defined p);
}

-- What a step may do: create one node, if `creates` holds, and add constraints.
abbrev pub After : (creates : Bool) → ℕ → Collector → Collector → Type 0
After true a s t = Touches a s t
After false a s t = Adds s t

pub Adds-After : (creates : Bool) (a : ℕ) (s t : Collector) → Adds s t → After creates a s t
Adds-After true a s t e = Adds-Touches a s t e
Adds-After false a s t e = e

pub Touches-After :
    (creates : Bool) (a : ℕ) (s t : Collector)
    → creates ≡ true
    → Touches a s t
    → After creates a s t
Touches-After creates a s t e touches = rw e touches

pub After-Same : (creates : Bool) (a : ℕ) (s t : Collector) → After creates a s t → Same s t
After-Same true a s t after = after.same
After-Same false a s t after = Adds-Same s t after
