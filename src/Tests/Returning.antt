-- ===== src/Tests/Returning.antt =====
-- andersen/lib/ConstraintCollect.cpp and andersen/lib/Andersen.cpp: examples on a well-formed module.
use programslicer.Common.{ℕ, ◌≡◌, inl, inr, refl, true, false, none, some, [], ◌∷◌, arith, subst}
use mathlib.Core.Option.{some-injective}
use programslicer.NodeFactory.{plain, null_object_index}
use programslicer.Andersen.Constraint.Derives.{Derives}
use programslicer.Andersen.Alias.{AliasResult, no_alias, Analysis, andersen_alias}
use programslicer.Andersen.Code.{Module, Function, alloca, call, ret}
use programslicer.Andersen.Collect.{Collector}
use programslicer.Andersen.Collect.Names.{noop_funcs, malloc_funcs, realloc_funcs, lookup_name}
use programslicer.Andersen.Collect.Whole.{collect_constraints}
use programslicer.Andersen.Collect.Valid.{IsValid}
use programslicer.Andersen.Collect.Places.{Found}
use programslicer.Andersen.Collect.Keeps.Whole.{new_collector}
use programslicer.Andersen.Collect.Total.Ready.{ReadyInitializer, WellFormed}
use programslicer.Andersen.Collect.Total.Returns.{collect_constraints_total}
use programslicer.Andersen.Run.{run_on_module, run_on_module-WellFormed}
use programslicer.Tests.Collecting.{main, malloc, program}

program-WellFormed : WellFormed program
unfolding lookup_name noop_funcs malloc_funcs realloc_funcs
program-WellFormed = record {
  distinct = (
    refl,
    (refl, (refl, (refl, (refl, (refl, (refl, (refl, tt))))))),
    (
      refl,
      (refl, (refl, (refl, (refl, (refl, (refl, tt)))))),
      (
        refl,
        (refl, (refl, (refl, (refl, (refl, tt))))),
        (
          refl,
          (refl, (refl, (refl, (refl, tt)))),
          (
            refl,
            (refl, (refl, (refl, tt))),
            (refl, (refl, (refl, tt)), (refl, (refl, tt), (refl, tt, tt))),
          ),
        ),
      ),
    ),
  );
  room = omega arith;
  initializers =
      (λ c e. subst (ReadyInitializer program) (some-injective _ _ e) (inl (inl refl)), tt);
  instructions = (
    λ _. (
      refl,
      (
        (malloc, refl, (tt, (refl, inl refl))),
        (
          λ _. (inl (inr (inl (refl, refl))), inl (inl (refl, refl))),
          (
            λ _. inl (inl (refl, refl)),
            (λ _. (inl (inr (inr (inr (inl (refl, refl))))), refl), tt),
          ),
        ),
      ),
    ),
    (λ _. tt, tt),
  );
}

-- `id` returns its argument, and `caller` calls it by a pointer.
abbrev id : Function
id = record {
  address = 40;
  name = "id";
  is_declaration = false;
  is_intrinsic = false;
  has_address_taken = true;
  returns_pointer = true;
  is_var_arg = false;
  arguments = record { address = 41; is_pointer = true } ∷ [];
  body =
      record {
        address = 42;
        is_pointer = false;
        opcode = ret (some (record { value = plain 41; is_pointer = true }));
      }
      ∷ [];
}

abbrev caller : Function
caller = record main {
  returns_pointer = false;
  body =
      record { address = 100; is_pointer = true; opcode = alloca }
      ∷ record {
        address = 101;
        is_pointer = true;
        opcode = call none (record { value = plain 100; is_pointer = true } ∷ []);
      }
      ∷ [];
}

abbrev indirect : Module
indirect = record { globals = []; functions = caller ∷ id ∷ [] }

indirect-WellFormed : WellFormed indirect
indirect-WellFormed = record {
  distinct = (
    refl,
    (refl, (refl, (refl, (refl, (refl, tt))))),
    (
      refl,
      (refl, (refl, (refl, (refl, tt)))),
      (
        refl,
        (refl, (refl, (refl, tt))),
        (refl, (refl, (refl, tt)), (refl, (refl, tt), (refl, tt, tt))),
      ),
    ),
  );
  room = omega arith;
  initializers = tt;
  instructions = (
    λ _. (refl, (((λ _. inl (inl (refl, refl)), tt), (λ fits. tt, (λ fits. tt, tt))), tt)),
    (λ _. (λ _. (inr (inl (refl, refl)), refl), tt), tt),
  );
}

collect_constraints_total_example :
    (s : Collector) × (collect_constraints indirect new_collector ≡ some s) × IsValid s
collect_constraints_total_example = collect_constraints_total indirect indirect-WellFormed

run_on_module-WellFormed_example :
    (s : Collector) × (collect_constraints program new_collector ≡ some s)
    × (i₁ : ℕ) × Found (plain 100) s i₁
    × (i₂ : ℕ) × Found (plain 101) s i₂
    × (a : Analysis) × (run_on_module 1 program ≡ some a)
    × (r : AliasResult) × (a' : Analysis) × (andersen_alias 1 plain 100 101 a ≡ some (r, a'))
    × (r ≡ no_alias
        → (o : ℕ) → Derives (λ i. i) s.constraints i₁ o
        → Derives (λ i. i) s.constraints i₂ o
        → o ≡ null_object_index)
run_on_module-WellFormed_example =
    run_on_module-WellFormed program program-WellFormed main (inl refl) refl plain 100 101
      (inl (inl (refl, refl))) (inl (inr (inl (refl, refl))))
