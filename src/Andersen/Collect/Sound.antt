-- ===== src/Andersen/Collect/Sound.antt =====
-- andersen/lib/ConstraintCollect.cpp, `collectConstraints`: what the instructions of a module demand
-- of the constraints is collected, and andersen/lib/ConstraintSolving.cpp satisfies it.
use programslicer.Common.{
  All-map, All-member, ℕ, ◌≡◌, ◌↔◌, false, ◌||◌, some, List, [], All, Any, Yields, yields,
  Yields->>=, Yields-for_each, Yields-some, Yields-map, Yields-All, branch,
}
use programslicer.Andersen.Constraint.{ConstraintType, AndersConstraint, addr_of, copy, load, store}
use programslicer.Andersen.Constraint.Meaning.{Satisfies, SatisfiesAs}
use programslicer.Andersen.Constraint.Derives.{Among, Derives, Derives-Satisfies, Among-Satisfies}
use programslicer.Andersen.Code.{Module, Function, Instruction}
use programslicer.Andersen.Solve.{SolverState, solve_constraints}
use programslicer.Andersen.Solve.Exact.{PointsTo}
use programslicer.Andersen.Collect.{Collector}
use programslicer.Andersen.Collect.Whole.{collect_function, first_constraints, collect_constraints}
use programslicer.Andersen.Collect.Valid.{IsValid, Extends, Extends-refl, Extends-trans}
use programslicer.Andersen.Collect.Demands.{Demands}
use programslicer.Andersen.Collect.Complete.{Done, Done-Extends, collect_opcode-Done}
use programslicer.Andersen.Collect.Keeps.Globals.{collect_constraints_for_globals-Keeps}
use programslicer.Andersen.Collect.Keeps.Whole.{
  new_collector, first_constraints-Keeps, create_instruction-Keeps, collect-solve,
}

-- The function is not scanned, or its instructions are done.
abbrev Scanned : Module → Function → Collector → Type 0
Scanned m f s = (f.is_declaration || f.is_intrinsic) ≡ false → All (λ inst. Done m f inst s) f.body

Scanned-Extends :
    (m : Module) (f : Function) (s t : Collector) → Extends s t → Scanned m f s → Scanned m f t
Scanned-Extends m f s t ext scanned defined =
    All-map _ _ (λ inst. Done-Extends m f inst s t ext) f.body (scanned defined)

-- A constraint says the same of two relations that agree.
Satisfies-exact :
    (cs : List AndersConstraint) (P : ℕ → ℕ → Type 0)
    → ((n v : ℕ) → P n v ↔ Derives (λ i. i) cs n v)
    → (ty : ConstraintType) (r d : ℕ) → SatisfiesAs (λ i. i) (Derives (λ i. i) cs) ty r d
    → SatisfiesAs (λ i. i) P ty r d
Satisfies-exact cs P exact addr_of r d h = (exact d r).1 h
Satisfies-exact cs P exact copy r d h = λ x p. (exact d x).1 (h x ((exact r x).0 p))
Satisfies-exact cs P exact load r d h =
    λ w x p q. (exact d x).1 (h w x ((exact r w).0 p) ((exact w x).0 q))
Satisfies-exact cs P exact store r d h =
    λ w x p q. (exact w x).1 (h w x ((exact d w).0 p) ((exact r x).0 q))

module _ (m : Module) where
  collect_function-Scanned :
      (f : Function) (s : Collector)
      → IsValid s
      → Yields (λ t. IsValid t × Extends s t × Scanned m f t) (collect_function m f s)
  unfolding collect_function
  collect_function-Scanned f s v =
      branch (Yields (λ t. IsValid t × Extends s t × Scanned m f t))
        (f.is_declaration || f.is_intrinsic) (λ skipped. yields (v, Extends-refl s, λ defined. cc))
        (λ _.
          Yields->>= (Yields-for_each (create_instruction-Keeps s m) f.body s (v, Extends-refl s))
            (λ s₁ (v₁, ext).
              Yields-map
                (Yields-All IsValid (Done m f) Extends _ Extends-refl Extends-trans
                  (Done-Extends m f) (collect_opcode-Done m f) f.body s₁ v₁)
                (λ t (v', later, all). (v', Extends-trans s s₁ t ext later, λ _. all))))

  collect_constraints-Scanned :
      Yields (λ t. All (λ f. Scanned m f t) m.functions) (collect_constraints m new_collector)
  unfolding collect_constraints
  collect_constraints-Scanned =
      Yields->>=
        (collect_constraints_for_globals-Keeps new_collector m (first_constraints new_collector)
          first_constraints-Keeps)
        (λ s₁ (v₁, _).
          Yields-map
            (Yields-All IsValid (Scanned m) Extends _ Extends-refl Extends-trans (Scanned-Extends m)
              collect_function-Scanned m.functions s₁ v₁)
            (λ t (_, _, all). all))

module _ (m : Module) (s : Collector) (collected : collect_constraints m new_collector ≡ some s)
    (f : Function) (in_module : Any (λ g. g ≡ f) m.functions)
    (defined : (f.is_declaration || f.is_intrinsic) ≡ false) (inst : Instruction)
    (in_body : Any (λ other. other ≡ inst) f.body) where
  -- If collectConstraints meets no failing assertion, then for each instruction of a function of
  -- the module that is neither a declaration nor an intrinsic, it has collected the constraints
  -- that the instruction demands: for an alloca the address of its object; for a load and a store
  -- of a pointer the constraint of that kind; for a return of a pointer a copy to what the
  -- function returns; for a direct call of a function that is defined, a copy of what it returns
  -- to a result of pointer type, and to each formal argument of pointer type a copy of the actual
  -- one, or of the universal pointer where the actual one is no pointer; for an indirect call
  -- with a pointer as its result, a copy of the universal pointer to this; for a getelementptr,
  -- and for a phi, a bitcast, an inttoptr or a select with a pointer as its result, a copy from
  -- each operand to the result; all of them between the nodes that these have in the end.
  pub collect_constraints_complete :
      (c : AndersConstraint) → Demands m f s inst inst.opcode c → Among s.constraints c
  collect_constraints_complete c demanded =
      All-member (λ i. Done m f i s) inst f.body
        (All-member (λ g. Scanned m g s) f m.functions
          (Yields-some s (collect_constraints-Scanned m) collected) in_module defined)
        in_body s (Extends-refl s) c demanded

  -- If collectConstraints meets no failing assertion, then solveConstraints returns for what it
  -- leaves, and the points-to sets satisfy each constraint that an instruction of a function of
  -- the module demands by its opcode, as an alloca, a load, a store, a return, a direct call of a
  -- function that is defined, an indirect call, a getelementptr, a phi, a bitcast, an inttoptr or
  -- a select, where the function with the instruction is neither a declaration nor an intrinsic.
  pub collect-solve_sound :
      (s' : SolverState) × (solve_constraints 1 s.constraints s.node_factory [] ≡ some s')
      × ((c : AndersConstraint)
          → Demands m f s inst inst.opcode c
          → Satisfies (λ i. i) (PointsTo s') c)
  collect-solve_sound =
      let (s', e, exact) = collect-solve m s collected in
      (
        s',
        e,
        λ c demanded. Satisfies-exact s.constraints (PointsTo s') exact c.type c.src c.dest (
            Among-Satisfies (λ i. i) s.constraints (Derives (λ i. i) s.constraints) c s.constraints
              (Derives-Satisfies (λ i. i) s.constraints) (collect_constraints_complete c demanded)),
      )
