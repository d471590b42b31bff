-- ===== src/Andersen/Collect/Total/Globals.antt =====
-- andersen/lib/ConstraintCollect.cpp, `collectConstraintsForGlobals`: the nodes of the globals and of
-- the functions are created.
use programslicer.Common.{
  All-map, ℕ, ◌+◌, ◌*◌, ◌<◌, ◌≡◌, refl, true, false, none, List, [], ◌∷◌, ◌==◌, arith, ◌∙◌, length,
  All, for_each, Gives, gives, Gives->>=, Gives-map, Gives-and,
}
use programslicer.Common.Maps
use programslicer.NodeFactory.{invalid_index}
use programslicer.Andersen.Code.{Function, Argument, GlobalVariable}
use programslicer.Andersen.Collect.{Collector}
use programslicer.Andersen.Collect.Globals.{
  create_global_variable, create_argument, create_signature,
}
use programslicer.Andersen.Collect.Valid.{size, IsValid, Extends, Extends-refl, Extends-trans}
use programslicer.Andersen.Collect.Created.{create_return_node-Created, create_vararg_node-Created}
use programslicer.Andersen.Collect.Keeps.Globals.{
  create_global-Keeps, create_if-Keeps, create_argument-Keeps,
}
use programslicer.Andersen.Collect.Total.Addresses.{Distinct, of_globals, of_arguments}
use programslicer.Andersen.Collect.Total.Nodes.{HasEntry}
use programslicer.Andersen.Collect.Total.Create.{
  Free, Step, Step-any, Step-refl, Free-Step, HasEntry-Stays, create_value_node-Gives,
  create_return_node-Gives, create_vararg_node-Gives, create_if-Gives, create_global-Gives,
}

-- The value and the object of the address have nodes.
abbrev pub Entered : ℕ → Collector → Type 0
Entered a s = HasEntry a s.node_factory.value_node_map × HasEntry a s.node_factory.obj_node_map

pub Entered-Extends : (a : ℕ) (s t : Collector) → Extends s t → Entered a s → Entered a t
Entered-Extends a s t ext (value, object) = (
  HasEntry-Stays a s.node_factory.value_node_map t.node_factory.value_node_map ext.same_values
      value,
  HasEntry-Stays a s.node_factory.obj_node_map t.node_factory.obj_node_map ext.same_objects object,
)

-- There are numbers for four nodes of each of the addresses.
abbrev pub HasRoom : List ℕ → Collector → Type 0
HasRoom ks s = size s + 4 * length ks < invalid_index

-- What a loop leaves of an earlier state and for the addresses that are left.
abbrev pub Left : List ℕ → Collector → Collector → Type 0
Left rest s t = IsValid t × Extends s t × All (Free t) rest × HasRoom rest t

pub create_globals-Gives :
    (gs : List GlobalVariable) (rest : List ℕ) (s : Collector)
    → IsValid s
    → Distinct (of_globals gs rest)
    → All (Free s) (of_globals gs rest)
    → HasRoom (of_globals gs rest) s
    → Gives
        (λ t. Left rest s t × All (λ g. Entered g.address t) gs)
        (for_each create_global_variable gs s)
unfolding for_each
create_globals-Gives [] rest s v distinct free room = gives ((v, Extends-refl s, free, room), tt)
create_globals-Gives (g ∷ gs) rest s v (nonzero, apart, distinct) (f, free) room =
    let a = g.address in
    Gives->>=
      (Gives-and (create_global-Gives a s (omega (arith, room)) nonzero f.values f.objects)
        (create_global-Keeps s a s (v, Extends-refl s)))
      (λ t ((step, value, object), (v', ext)).
        Gives-map
          (create_globals-Gives gs rest t v' distinct
            (Free-Step 2 a s t (Step-any true true false false 2 a s t step) (of_globals gs rest)
              apart free)
            (omega (arith, room, step.grown)))
          (λ u ((v'', ext', free', room'), all). (
            (v'', Extends-trans s t u ext ext', free', room'),
            (Entered-Extends a t u ext' (value, object), all),
          )))

-- The argument has a node, if it is a pointer.
abbrev pub HasFormal : Collector → Argument → Type 0
HasFormal s x = x.is_pointer ≡ true → HasEntry x.address s.node_factory.value_node_map

pub HasFormal-Extends :
    (s t : Collector) → Extends s t → (x : Argument) → HasFormal s x → HasFormal t x
HasFormal-Extends s t ext x formal p =
    HasEntry-Stays x.address s.node_factory.value_node_map t.node_factory.value_node_map
      ext.same_values (formal p)

create_argument-Gives :
    (x : Argument) (s : Collector)
    → size s < invalid_index
    → (x.address == 0) ≡ false
    → Free s x.address
    → Gives (λ t. Step true false false false 1 x.address s t × HasFormal t x) (create_argument x s)
unfolding create_argument
create_argument-Gives x s room nonzero free =
    create_if-Gives x.is_pointer _ s
      (λ p.
        Gives-map (create_value_node-Gives x.address s room nonzero free.values)
          (λ (i, f) (step, entry). (step, λ _. entry)))
      (λ no_pointer. (Step-refl true false false false 1 x.address s, λ p. absurd (ground arith)))

create_arguments-Gives :
    (xs : List Argument) (rest : List ℕ) (s : Collector)
    → IsValid s
    → Distinct (of_arguments xs rest)
    → All (Free s) (of_arguments xs rest)
    → HasRoom (of_arguments xs rest) s
    → Gives (λ t. Left rest s t × All (HasFormal t) xs) (for_each create_argument xs s)
unfolding for_each
create_arguments-Gives [] rest s v distinct free room = gives ((v, Extends-refl s, free, room), tt)
create_arguments-Gives (x ∷ xs) rest s v (nonzero, apart, distinct) (f, free) room =
    let a = x.address in
    Gives->>=
      (Gives-and (create_argument-Gives x s (omega (arith, room)) nonzero f)
        (create_argument-Keeps s x s (v, Extends-refl s)))
      (λ t ((step, formal), (v', ext)).
        Gives-map
          (create_arguments-Gives xs rest t v' distinct
            (Free-Step 1 a s t (Step-any true false false false 1 a s t step) (of_arguments xs rest)
              apart free)
            (omega (arith, room, step.grown)))
          (λ u ((v'', ext', free', room'), all). (
            (v'', Extends-trans s t u ext ext', free', room'),
            (HasFormal-Extends t u ext' x formal, all),
          )))

-- The nodes of a function that is defined.
pub record Signature (f : Function) (s : Collector) : Type 0 where
  pub returns : f.returns_pointer ≡ true → HasEntry f.address s.node_factory.return_map
  pub varargs : f.is_var_arg ≡ true → HasEntry f.address s.node_factory.vararg_map
  pub formals : All (HasFormal s) f.arguments

pub Signature-Extends :
    (f : Function) (s t : Collector) → Extends s t → Signature f s → Signature f t
Signature-Extends f s t ext sig = record {
  returns = λ p.
      HasEntry-Stays f.address s.node_factory.return_map t.node_factory.return_map ext.same_returns
        (sig.returns p);
  varargs = λ p.
      HasEntry-Stays f.address s.node_factory.vararg_map t.node_factory.vararg_map ext.same_varargs
        (sig.varargs p);
  formals = All-map _ _ (HasFormal-Extends s t ext) f.arguments sig.formals;
}

pub create_signature-Gives :
    (f : Function) (rest : List ℕ) (s : Collector)
    → IsValid s
    → (f.address == 0) ≡ false
    → Maps.lookup f.address s.node_factory.return_map ≡ none
    → Maps.lookup f.address s.node_factory.vararg_map ≡ none
    → Distinct (of_arguments f.arguments rest)
    → All (λ b. (f.address == b) ≡ false) (of_arguments f.arguments rest)
    → All (Free s) (of_arguments f.arguments rest)
    → size s + 2 + 4 * length (of_arguments f.arguments rest) < invalid_index
    → Gives (λ t. Left rest s t × Signature f t) (create_signature f s)
unfolding create_signature
create_signature-Gives f rest s v nonzero no_return no_vararg distinct apart free room =
    let a = f.address in
    let ks = of_arguments f.arguments rest in
    Gives->>=
      (Gives-and
        (create_if-Gives
          {Q = λ t.
            Step false false true false 1 a s t
            × (f.returns_pointer ≡ true → HasEntry a t.node_factory.return_map)}
          f.returns_pointer _ s
          (λ _.
            Gives-map (create_return_node-Gives a s (omega (arith, room)) nonzero no_return)
              (λ (i, g) (step, e). (step, λ _. e)))
          (λ no. (Step-refl false false true false 1 a s, λ p. absurd (ground arith))))
        (create_if-Keeps s f.returns_pointer _ s (v, Extends-refl s)
          (create_return_node-Created s v a)))
      (λ s₁ ((step₁, entry₁), (v₁, ext₁)).
        let free₁ =
          Free-Step 1 a s s₁ (Step-any false false true false 1 a s s₁ step₁) ks apart free in
        Gives->>=
          (Gives-and
            (create_if-Gives
              {Q = λ t.
                Step false false false true 1 a s₁ t
                × (f.is_var_arg ≡ true → HasEntry a t.node_factory.vararg_map)}
              f.is_var_arg _ s₁
              (λ _.
                Gives-map
                  (create_vararg_node-Gives a s₁ (omega (arith, room, step₁.grown)) nonzero
                    (step₁.varargs a refl ∙ no_vararg))
                  (λ (i, g) (step, e). (step, λ _. e)))
              (λ no. (Step-refl false false false true 1 a s₁, λ p. absurd (ground arith))))
            (create_if-Keeps s₁ f.is_var_arg _ s₁ (v₁, Extends-refl s₁)
              (create_vararg_node-Created s₁ v₁ a)))
          (λ s₂ ((step₂, entry₂), (v₂, ext₂)).
            Gives-map
              (create_arguments-Gives f.arguments rest s₂ v₂ distinct
                (Free-Step 1 a s₁ s₂ (Step-any false false false true 1 a s₁ s₂ step₂) ks apart
                  free₁)
                (omega (arith, room, step₁.grown, step₂.grown)))
              (λ t ((v', ext, free', room'), formals). (
                (v', Extends-trans s s₁ t ext₁ (Extends-trans s₁ s₂ t ext₂ ext), free', room'),
                record {
                  returns = λ p.
                      HasEntry-Stays a s₁.node_factory.return_map t.node_factory.return_map
                        (Extends-trans s₁ s₂ t ext₂ ext).same_returns (entry₁ p);
                  varargs = λ p.
                      HasEntry-Stays a s₂.node_factory.vararg_map t.node_factory.vararg_map
                        ext.same_varargs (entry₂ p);
                  formals = formals;
                },
              ))))
