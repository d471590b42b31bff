-- ===== src/Andersen/Run.antt =====
-- andersen/lib/Andersen.cpp, `Andersen::runOnModule` with the default options, by which
-- `optimizeConstraints` of andersen/lib/ConstraintOptimize.cpp does nothing, and the alias queries of
-- andersen/lib/AndersenAA.cpp after it.
use programslicer.Common.{Any, false, ℕ, ◌<◌, ◌≡◌, refl, Option, some, [], ◌>>=◌, Yields-some}
use programslicer.NodeFactory.{Value, null_object_index}
use programslicer.Andersen.Constraint.Derives.{Derives}
use programslicer.Andersen.Code.{Module, Function}
use programslicer.Andersen.Collect.Total.Ready.{is_external, Known, WellFormed}
use programslicer.Andersen.Collect.Total.Returns.{collect_constraints-Knows}
use programslicer.Andersen.Solve.{solve_constraints}
use programslicer.Andersen.Alias.{Analysis, AliasResult, no_alias, andersen_alias}
use programslicer.Andersen.Alias.Exact.{no_alias-safe}
use programslicer.Andersen.Collect.{Collector}
use programslicer.Andersen.Collect.Whole.{collect_constraints}
use programslicer.Andersen.Collect.Valid.{size, get_value_node_for-Bounded}
use programslicer.Andersen.Collect.Places.{Found}
use programslicer.Andersen.Collect.Keeps.Whole.{
  new_collector, collect_constraints-IsValid, collected-HasRoots,
}

-- What the pass leaves, with the number of rounds of each `getMergeTarget`.
unfoldable pub run_on_module : ℕ → Module → Option Analysis
run_on_module rounds m = do
  c ← collect_constraints m new_collector
  s ← solve_constraints rounds c.constraints c.node_factory []
  some (record { node_factory = s.node_factory; pts_graph = s.pts_graph })

module _ (m : Module) (s : Collector) (collected : collect_constraints m new_collector ≡ some s)
    (value : ℕ → Value) (v₁ v₂ i₁ i₂ : ℕ) (at₁ : Found (value v₁) s i₁)
    (at₂ : Found (value v₂) s i₂) where
  node_inside : (v : Value) (i : ℕ) → Found v s i → i < size s
  node_inside v i (e, there) =
      let valid = collect_constraints-IsValid m s collected in
      Yields-some i (get_value_node_for-Bounded s.node_factory (size s) valid.base v valid.values) e
        there

  -- If `collectConstraints` meets no failing assertion, and both values have nodes, then `runOnModule`
  -- returns, `andersenAlias` returns after it, and if it answers no alias, then no object but null can
  -- be derived for both values from the constraints that were collected.
  pub run_on_module-safe :
      (a : Analysis) × (run_on_module 1 m ≡ some a)
      × (r : AliasResult) × (a' : Analysis) × (andersen_alias 1 value v₁ v₂ a ≡ some (r, a'))
      × (r ≡ no_alias
          → (o : ℕ) → Derives (λ i. i) s.constraints i₁ o
          → Derives (λ i. i) s.constraints i₂ o
          → o ≡ null_object_index)
  unfolding run_on_module
  run_on_module-safe =
      let valid = collect_constraints-IsValid m s collected in
      let (s', e, r, a', runs, safe) =
        no_alias-safe 0 (λ i. i) s.node_factory (collected-HasRoots m s collected) s.constraints
          valid.inside value v₁ v₂ i₁ i₂ at₁.0 at₂.0 (node_inside (value v₁) i₁ at₁)
          (node_inside (value v₂) i₂ at₂) in
      (_, rw (collected, e) refl, r, a', runs, safe)

module _ (m : Module) (w : WellFormed m) (f : Function) (in_module : Any (λ h. h ≡ f) m.functions)
    (defined : is_external f ≡ false) (value : ℕ → Value) (v₁ v₂ : ℕ)
    (known₁ : Known m f (value v₁)) (known₂ : Known m f (value v₂)) where
  -- On a well-formed module, where no assertion of collectConstraints fails, and for two pointers
  -- that a function that is defined in it can use, runOnModule returns, both pointers have nodes,
  -- andersenAlias returns after it, and if it answers no alias, then no object but null can be
  -- derived for both pointers from the constraints that are collected.
  pub run_on_module-WellFormed :
      (s : Collector) × (collect_constraints m new_collector ≡ some s)
      × (i₁ : ℕ) × Found (value v₁) s i₁
      × (i₂ : ℕ) × Found (value v₂) s i₂
      × (a : Analysis) × (run_on_module 1 m ≡ some a)
      × (r : AliasResult) × (a' : Analysis) × (andersen_alias 1 value v₁ v₂ a ≡ some (r, a'))
      × (r ≡ no_alias
          → (o : ℕ) → Derives (λ i. i) s.constraints i₁ o
          → Derives (λ i. i) s.constraints i₂ o
          → o ≡ null_object_index)
  run_on_module-WellFormed =
      let (s, e, knows) = collect_constraints-Knows m w f in_module defined in
      let (i₁, at₁) = knows.values (value v₁) known₁ in
      let (i₂, at₂) = knows.values (value v₂) known₂ in
      let (a, ran, r, a', runs, safe) = run_on_module-safe m s e value v₁ v₂ i₁ i₂ at₁ at₂ in
      (s, e, i₁, at₁, i₂, at₂, a, ran, r, a', runs, safe)
