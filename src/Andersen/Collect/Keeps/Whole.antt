-- ===== src/Andersen/Collect/Keeps/Whole.antt =====
-- andersen/lib/ConstraintCollect.cpp, `collectConstraints`: it leaves a valid state, from which
-- `solveConstraints` of andersen/lib/ConstraintSolving.cpp can start.
use programslicer.Common.{
  ℕ, zero, suc, ◌≡◌, ◌↔◌, refl, ◌||◌, some, [], arith, Yields, yields, Yields->>=, Yields-if,
  Yields-for_each, Yields-some,
}
use programslicer.NodeFactory.{new_factory}
use programslicer.NodeFactory.Merge.{here}
use programslicer.NodeFactory.Depth.{HasRoots}
use programslicer.Andersen.Constraint.Derives.{Derives}
use programslicer.Andersen.Code.{Module, Function, Instruction}
use programslicer.Andersen.Solve.{SolverState, solve_constraints}
use programslicer.Andersen.Solve.Exact.{PointsTo}
use programslicer.Andersen.Solve.Factory.{solve_constraints-Derives}
use programslicer.Andersen.Collect.{Collector, add}
use programslicer.Andersen.Collect.Whole.{
  create_instruction, collect_function, first_constraints, collect_constraints,
}
use programslicer.Andersen.Collect.Valid.{size, NoneMerged, IsValid, Keeps}
use programslicer.Andersen.Collect.Created.{create_value_node-Created}
use programslicer.Andersen.Collect.Keeps.Globals.{
  create_if-Keeps, collect_constraints_for_globals-Keeps,
}
use programslicer.Andersen.Collect.Keeps.Instructions.{collect_opcode-Keeps}

module _ (k : Collector) (m : Module) where
  pub create_instruction-Keeps :
      (inst : Instruction) (s : Collector)
      → Keeps k s
      → Yields (Keeps k) (create_instruction inst s)
  unfolding create_instruction
  create_instruction-Keeps inst s keeps =
      create_if-Keeps k inst.is_pointer _ s keeps (create_value_node-Created s keeps.0 inst.address)

  collect_function-Keeps :
      (f : Function) (s : Collector) → Keeps k s → Yields (Keeps k) (collect_function m f s)
  unfolding collect_function
  collect_function-Keeps f s keeps = Yields-if (f.is_declaration || f.is_intrinsic) (yields keeps) (
      Yields->>= (Yields-for_each create_instruction-Keeps f.body s keeps) (λ s₁ keeps₁.
        Yields-for_each (λ inst u keeps_u. collect_opcode-Keeps k inst u keeps_u m f inst.opcode)
          f.body s₁ keeps₁))

-- The state that the phase begins with.
abbrev pub new_collector : Collector
new_collector = record { node_factory = new_factory; constraints = [] }

new_factory-NoneMerged : NoneMerged new_factory.nodes
new_factory-NoneMerged zero h = refl
new_factory-NoneMerged (suc zero) h = refl
new_factory-NoneMerged (suc (suc zero)) h = refl
new_factory-NoneMerged (suc (suc (suc zero))) h = refl
new_factory-NoneMerged (suc (suc (suc (suc n)))) h = absurd (omega (arith, h))

pub first_constraints-Keeps : Keeps new_collector (first_constraints new_collector)
unfolding add
first_constraints-Keeps = (
  record {
    values = λ v i e. absurd (ground arith);
    objects = λ v i e. absurd (ground arith);
    returns = λ v i e. absurd (ground arith);
    varargs = λ v i e. absurd (ground arith);
    own = new_factory-NoneMerged;
    inside = (
      (omega arith, omega arith),
      ((omega arith, omega arith), ((omega arith, omega arith), tt)),
    );
    base = omega arith;
  },
  record {
    longer = omega arith;
    same_values = λ v i e. e;
    same_objects = λ v i e. e;
    same_returns = λ v i e. e;
    same_varargs = λ v i e. e;
    more = λ c h. absurd h;
  },
)

collect_constraints-Keeps :
    (m : Module) → Yields (Keeps new_collector) (collect_constraints m new_collector)
unfolding collect_constraints
collect_constraints-Keeps m =
    Yields->>=
      (collect_constraints_for_globals-Keeps new_collector m (first_constraints new_collector)
        first_constraints-Keeps)
      (λ s₁ keeps₁. Yields-for_each (collect_function-Keeps new_collector m) m.functions s₁ keeps₁)

module _ (m : Module) (s : Collector)
    (collected : collect_constraints m new_collector ≡ some s) where
  -- If `collectConstraints` meets no failing assertion, then every entry of the maps of the node
  -- factory and every index in a constraint is that of a node, and no node has been merged.
  pub collect_constraints-IsValid : IsValid s
  collect_constraints-IsValid = (Yields-some s (collect_constraints-Keeps m) collected).0

  pub collected-HasRoots : HasRoots 0 (size s) (λ n. n) s.node_factory
  collected-HasRoots = record {
    sized = refl;
    roots = λ n h. (here (collect_constraints-IsValid.own n h), omega arith);
  }

  -- If `collectConstraints` meets no failing assertion, then `solveConstraints` returns for what it
  -- leaves, without a step of `getMergeTarget` for any node, and the points-to set of a node holds an
  -- object just when the rules for the four kinds of constraints derive this from the collected
  -- constraints.
  pub collect-solve :
      (s' : SolverState) × (solve_constraints 1 s.constraints s.node_factory [] ≡ some s')
      × ((n v : ℕ) → PointsTo s' n v ↔ Derives (λ i. i) s.constraints n v)
  collect-solve =
      solve_constraints-Derives 0 (λ n. n) s.node_factory collected-HasRoots s.constraints
        collect_constraints-IsValid.inside
