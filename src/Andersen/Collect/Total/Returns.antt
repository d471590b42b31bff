-- ===== src/Andersen/Collect/Total/Returns.antt =====
-- andersen/lib/ConstraintCollect.cpp, `collectConstraints`: it returns for a well-formed module.
use programslicer.Common.{
  All-map, ℕ, ◌+◌, ◌*◌, ◌<◌, ◌≡◌, refl, false, some, List, [], ◌∷◌, sym, subst, ap, ◌∙◌, length,
  All, Any, Gives, Gives->>=, Gives-map, Gives-and, Gives-each, Gives-result, Yields-for_each,
  All-Any, All-both, All-members,
}
use programslicer.NodeFactory.{invalid_index}
use programslicer.Andersen.Code.{Module, Function, GlobalVariable}
use programslicer.Andersen.Collect.{Collector}
use programslicer.Andersen.Collect.Globals.{collect_constraints_for_globals}
use programslicer.Andersen.Collect.Whole.{first_constraints, collect_constraints}
use programslicer.Andersen.Collect.Valid.{IsValid, Extends-refl}
use programslicer.Andersen.Collect.Keeps.Globals.{initialize_global-Keeps}
use programslicer.Andersen.Collect.Keeps.Whole.{new_collector, first_constraints-Keeps}
use programslicer.Andersen.Collect.Total.Ready.{is_external, WellFormed}
use programslicer.Andersen.Collect.Total.Addresses.{
  Distinct, of_globals, of_functions, of_bodies, addresses,
}
use programslicer.Andersen.Collect.Total.Nodes.{Adds, Knows}
use programslicer.Andersen.Collect.Total.Create.{Free}
use programslicer.Andersen.Collect.Total.Globals.{HasRoom, create_globals-Gives, Entered-Extends}
use programslicer.Andersen.Collect.Total.Functions.{create_functions-Gives}
use programslicer.Andersen.Collect.Total.Initial.{initialize_global-Gives}
use programslicer.Andersen.Collect.Total.Facts.{Facts, Facts-Extends, Global-Entered, Facts-Knows}
use programslicer.Common.Maps
use programslicer.Andersen.Collect.Total.Functions.{drop_arguments-Distinct}
use programslicer.Andersen.Collect.Total.Whole.{
  HasValues, ReadyFunction, collect_functions-Gives, all-Free, first_room,
}

drop_globals-Distinct :
    (gs : List GlobalVariable) (rest : List ℕ) → Distinct (of_globals gs rest) → Distinct rest
drop_globals-Distinct [] rest distinct = distinct
drop_globals-Distinct (g ∷ gs) rest (_, _, distinct) = drop_globals-Distinct gs rest distinct

drop_functions-Distinct :
    (fs : List Function) (rest : List ℕ) → Distinct (of_functions fs rest) → Distinct rest
drop_functions-Distinct [] rest distinct = distinct
drop_functions-Distinct (f ∷ fs) rest (_, _, distinct) =
    drop_functions-Distinct fs rest
      (drop_arguments-Distinct f.arguments (of_functions fs rest) distinct)

Free-Adds : (s t : Collector) → Adds s t → (ks : List ℕ) → All (Free s) ks → All (Free t) ks
Free-Adds s t e ks free =
    All-map (Free s) (Free t)
      (λ b f. record {
        values = ap (λ g. Maps.lookup b g.value_node_map) e ∙ f.values;
        objects = ap (λ g. Maps.lookup b g.obj_node_map) e ∙ f.objects;
        returns = ap (λ g. Maps.lookup b g.return_map) e ∙ f.returns;
        varargs = ap (λ g. Maps.lookup b g.vararg_map) e ∙ f.varargs;
      })
      ks free

module _ (m : Module) (w : WellFormed m) where
  collect_constraints_for_globals-Gives :
      Gives
        (λ t.
          IsValid t
          × Facts m t
          × All (Free t) (of_bodies m.functions [])
          × HasRoom (of_bodies m.functions []) t)
        (collect_constraints_for_globals m (first_constraints new_collector))
  unfolding collect_constraints_for_globals
  collect_constraints_for_globals-Gives =
      let s₀ = first_constraints new_collector in
      let names = of_functions m.functions (of_bodies m.functions []) in
      let distinct = drop_globals-Distinct m.globals names w.distinct in
      Gives->>=
        (create_globals-Gives m.globals names s₀ first_constraints-Keeps.0 w.distinct
          (all-Free (addresses m)) (first_room m w))
        (λ s₁ ((v₁, ext₁, free₁, room₁), globals₁).
          Gives->>=
            (create_functions-Gives m.functions (of_bodies m.functions []) s₁ v₁ distinct free₁
              room₁)
            (λ s₂ ((v₂, ext₂, free₂, room₂), functions).
              let globals =
                All-map _ _ (λ g. Entered-Extends g.address s₁ s₂ ext₂) m.globals globals₁ in
              let facts : Facts m s₂ = record { globals = globals; functions = functions } in
              Gives-map
                (Gives-and
                  (Gives-each
                    (λ g (entered, ready) t e.
                      initialize_global-Gives m s₂
                        (λ a known. (Global-Entered m s₂ facts a known).1) g entered.1 ready t e)
                    m.globals (All-both _ _ m.globals globals w.initializers) s₂ refl)
                  (Yields-for_each (initialize_global-Keeps s₂) m.globals s₂ (v₂, Extends-refl s₂)))
                (λ t (e, (v, ext)). (
                  v,
                  Facts-Extends m s₂ t ext facts,
                  Free-Adds s₂ t e (of_bodies m.functions []) free₂,
                  subst
                      (λ f. length f.nodes + 4 * length (of_bodies m.functions []) < invalid_index)
                      (sym e) room₂,
                ))))

  collect_constraints-Gives :
      Gives
        (λ t. IsValid t × Facts m t × All (HasValues t) m.functions)
        (collect_constraints m new_collector)
  unfolding collect_constraints
  collect_constraints-Gives =
      let distinct = drop_functions-Distinct m.functions (of_bodies m.functions []) (
        drop_globals-Distinct m.globals (of_functions m.functions (of_bodies m.functions []))
          w.distinct) in
      Gives->>= collect_constraints_for_globals-Gives (λ s (v, facts, free, room).
        Gives-map
          (collect_functions-Gives m m.functions
            (All-members (ReadyFunction m) m.functions m.functions (λ f among. among)
              w.instructions)
            [] s v facts distinct free room)
          (λ t ((v', ext, _, _), values). (v', Facts-Extends m s t ext facts, values)))

  -- On a well-formed module, that is, one whose values have addresses of their own other than
  -- null, with numbers for four nodes of each, whose initializers and instructions have the
  -- operands and the types that are asserted, without exceptions and atomic operations, and whose
  -- indirect calls, where a library function of the module has a matching number of arguments,
  -- pass pointers only and such a function creates no node, no assertion of collectConstraints
  -- fails, and it leaves a valid state.
  pub collect_constraints_total :
      (s : Collector) × (collect_constraints m new_collector ≡ some s) × IsValid s
  collect_constraints_total =
      let (s, e, (v, facts, values)) = Gives-result collect_constraints-Gives in (s, e, v)

  -- The pointers of a function that is defined have nodes in the end.
  pub collect_constraints-Knows :
      (f : Function)
      → Any (λ h. h ≡ f) m.functions
      → is_external f ≡ false
      → (s : Collector) × (collect_constraints m new_collector ≡ some s) × Knows m f s
  collect_constraints-Knows f in_module defined =
      let (s, e, (v, facts, values)) = Gives-result collect_constraints-Gives in
      (
        s,
        e,
        Facts-Knows m s facts f in_module defined (
            All-Any (λ h has e'. subst (λ g. HasValues s g) e' has) m.functions values in_module
              defined),
      )
