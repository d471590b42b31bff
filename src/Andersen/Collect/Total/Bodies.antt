-- ===== src/Andersen/Collect/Total/Bodies.antt =====
-- andersen/lib/ConstraintCollect.cpp, `collectConstraints`: the loops over the instructions of a
-- function.
use programslicer.Common.{
  ℕ, ◌+◌, ◌≤◌, ◌<◌, ◌≡◌, refl, true, false, none, List, [], ◌∷◌, ◌==◌, arith, ap, ◌∙◌, length, All,
  Any, for_each, Gives, gives, Gives->>=, Gives-map, Gives-and,
}
use programslicer.Common.Maps
use programslicer.NodeFactory.{plain, invalid_index}
use programslicer.Andersen.Code.{Module, Function, Instruction}
use programslicer.Andersen.Collect.{Collector}
use programslicer.Andersen.Collect.Instructions.{collect_opcode}
use programslicer.Andersen.Collect.Whole.{create_instruction}
use programslicer.Andersen.Collect.Valid.{
  size, IsValid, Extends, Keeps, Extends-refl, Extends-trans,
}
use programslicer.Andersen.Collect.Keeps.Instructions.{collect_opcode-Keeps}
use programslicer.Andersen.Collect.Keeps.Whole.{create_instruction-Keeps}
use programslicer.Andersen.Collect.Total.Ready.{is_external, Known, Ready}
use programslicer.Andersen.Collect.Total.Addresses.{Distinct, of_instructions}
use programslicer.Andersen.Collect.Total.Nodes.{Touches, Knows, Knows-Same}
use programslicer.Andersen.Collect.Total.Create.{
  Free, Step, Step-any, Step-refl, Free-Step, create_value_node-Gives, create_if-Gives,
}
use programslicer.Andersen.Collect.Total.Instructions.{collect_opcode-Gives}
use programslicer.Andersen.Collect.Total.Facts.{HasValue, HasValue-Extends}

create_instruction-Gives :
    (m : Module) (i : Instruction) (s : Collector)
    → size s < invalid_index
    → (i.address == 0) ≡ false
    → Free s i.address
    → Gives
        (λ t. Step true false false false 1 i.address s t × HasValue t i)
        (create_instruction i s)
unfolding create_instruction
create_instruction-Gives m i s room nonzero free =
    create_if-Gives i.is_pointer _ s
      (λ p.
        Gives-map (create_value_node-Gives i.address s room nonzero free.values)
          (λ (n, f) (step, entry). (step, λ _. entry)))
      (λ no_pointer. (Step-refl true false false false 1 i.address s, λ p. absurd (ground arith)))

-- After the first loop: the objects are those of before.
pub record Created (xs : List Instruction) (rest : List ℕ) (s t : Collector) : Type 0 where
  pub valid : IsValid t
  pub extends : Extends s t
  pub free : All (Free t) rest
  pub objects :
      (b : ℕ)
      → Maps.lookup b t.node_factory.obj_node_map ≡ Maps.lookup b s.node_factory.obj_node_map
  pub grown : size t ≤ size s + length xs
  pub values : All (HasValue t) xs

pub create_instructions-Gives :
    (m : Module) (xs : List Instruction) (rest : List ℕ) (s : Collector)
    → IsValid s
    → Distinct (of_instructions xs rest)
    → All (Free s) (of_instructions xs rest)
    → size s + length xs < invalid_index
    → Gives (Created xs rest s) (for_each create_instruction xs s)
unfolding for_each
create_instructions-Gives m [] rest s v distinct free room = gives (record {
  valid = v;
  extends = Extends-refl s;
  free = free;
  objects = λ b. refl;
  grown = omega arith;
  values = tt;
})
create_instructions-Gives m (x ∷ xs) rest s v (nonzero, apart, distinct) (f, free) room =
    let a = x.address in
    Gives->>=
      (Gives-and (create_instruction-Gives m x s (omega (arith, room)) nonzero f)
        (create_instruction-Keeps s m x s (v, Extends-refl s)))
      (λ t ((step, value), (v', ext)).
        Gives-map
          (create_instructions-Gives m xs rest t v' distinct
            (Free-Step 1 a s t (Step-any true false false false 1 a s t step)
              (of_instructions xs rest) apart free)
            (omega (arith, room, step.grown)))
          (λ u c. record {
            valid = c.valid;
            extends = Extends-trans s t u ext c.extends;
            free = c.free;
            objects = λ b. c.objects b ∙ step.objects b refl;
            grown = omega (arith, step.grown, c.grown);
            values = (HasValue-Extends t u c.extends x value, c.values);
          }))

-- No object has been created for the instruction.
abbrev pub NoObject : Collector → Instruction → Type 0
NoObject s i = Maps.lookup i.address s.node_factory.obj_node_map ≡ none

pub split_instructions :
    (P : ℕ → Type 0) (xs : List Instruction) (rest : List ℕ)
    → All P (of_instructions xs rest)
    → All (λ i. P i.address) xs × All P rest
split_instructions P [] rest all = (tt, all)
split_instructions P (x ∷ xs) rest (first, all) =
    let (in_xs, in_rest) = split_instructions P xs rest all in ((first, in_xs), in_rest)

NoObject-Touches :
    (a : ℕ) (s t : Collector)
    → Touches a s t
    → (xs : List Instruction) → All (λ i. (a == i.address) ≡ false) xs
    → All (NoObject s) xs
    → All (NoObject t) xs
NoObject-Touches a s t touches [] apart all = tt
NoObject-Touches a s t touches (x ∷ xs) (h, apart) (none_there, all) =
    (touches.objects x.address h ∙ none_there, NoObject-Touches a s t touches xs apart all)

Free-Touches :
    (a : ℕ) (s t : Collector)
    → Touches a s t
    → (ks : List ℕ) → All (λ b. (a == b) ≡ false) ks
    → All (Free s) ks
    → All (Free t) ks
Free-Touches a s t touches [] apart all = tt
Free-Touches a s t touches (b ∷ ks) (h, apart) (f, all) = (
  record {
    values = ap (Maps.lookup b) touches.same.values ∙ f.values;
    objects = touches.objects b h ∙ f.objects;
    returns = ap (Maps.lookup b) touches.same.returns ∙ f.returns;
    varargs = ap (Maps.lookup b) touches.same.varargs ∙ f.varargs;
  },
  Free-Touches a s t touches ks apart all,
)

module _ (m : Module) (f : Function) (in_module : Any (λ h. h ≡ f) m.functions)
    (defined : is_external f ≡ false) where
  -- The instruction has what it needs, and is a known pointer if it is one.
  abbrev pub Prepared : Instruction → Type 0
  Prepared i = (i.is_pointer ≡ true → Known m f (plain i.address)) × Ready m f i i.opcode

  pub collect_body-Gives :
      (xs : List Instruction) (rest : List ℕ) (s : Collector)
      → IsValid s
      → Knows m f s
      → Distinct (of_instructions xs rest)
      → All (NoObject s) xs
      → All (Free s) rest
      → All Prepared xs
      → Gives
          (λ t. Keeps s t × All (Free t) rest × (size t ≤ size s + length xs))
          (for_each (λ i u. collect_opcode m f i i.opcode u) xs s)
  unfolding for_each
  collect_body-Gives [] rest s v knows distinct objects free prepared =
      gives ((v, Extends-refl s), free, omega arith)
  collect_body-Gives (x ∷ xs) rest s v knows (nonzero, apart, distinct) (no_object, objects) free
        ((known, ready), prepared) =
      let a = x.address in
      let (apart_xs, apart_rest) = split_instructions (λ b. (a == b) ≡ false) xs rest apart in
      Gives->>=
        (Gives-and
          (collect_opcode-Gives m f x s knows (λ p. knows.values (plain a) (known p)) nonzero
            in_module defined no_object x.opcode ready)
          (collect_opcode-Keeps s x s (v, Extends-refl s) m f x.opcode))
        (λ t (touches, (v', ext)).
          Gives-map
            (collect_body-Gives xs rest t v' (Knows-Same m f s t touches.same knows) distinct
              (NoObject-Touches a s t touches xs apart_xs objects)
              (Free-Touches a s t touches rest apart_rest free) prepared)
            (λ u ((v'', ext'), free', grown).
              ((v'', Extends-trans s t u ext ext'), free', omega (arith, grown, touches.grown))))
