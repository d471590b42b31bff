-- ===== src/Andersen/Collect/Total/Sites.antt =====
-- andersen/lib/ConstraintCollect.cpp, `addConstraintForCall`: a call of each kind succeeds.
use programslicer.Common.{
  ℕ, ◌≡◌, inl, inr, refl, true, false, not, ◌&&◌, none, some, List, [], ◌∷◌, ◌==◌, if◌then◌else◌,
  ◌∙◌, length, All, Any, All-members, Gives, gives, Gives->>=, Gives-map, Gives-each, Gives-choice,
  branch, Bool-cases,
}
use mathlib.Core.Option.{some-injective}
use programslicer.Common.Maps
use programslicer.NodeFactory.{plain, invalid_index, found, get_value_node_for}
use programslicer.Andersen.Constraint.{copy}
use programslicer.Andersen.Code.{Module, Function, Operand, CallSite, function_at}
use programslicer.Andersen.Collect.{Collector}
use programslicer.Andersen.Collect.Calls.{
  add_argument_constraint_for_call, call_external, return_result, call_direct, call_candidate,
  try_function, call_indirect,
}
use programslicer.Andersen.Collect.Library.{add_constraint_for_external_library}
use programslicer.Andersen.Collect.Total.Ready.{
  is_external, Known, KnownOperands, ReadyLibrary, ReadyCalled, ReadyCandidate,
}
use programslicer.Andersen.Collect.Total.Nodes.{
  HasNode, HasNode-Same, Same, Adds, add-Adds, Adds-Same, Touches, Adds-Touches, Touches-Adds,
  Knows, Knows-Same, value_node-Gives, valid-Gives,
}
use programslicer.Andersen.Collect.Total.Library.{add_constraint_for_external_library-Gives}
use programslicer.Andersen.Collect.Total.Calls.{
  add_argument_constraint_for_call-Gives, unknown_result-Gives, unknown_argument-Gives,
  unknown_pointer-Gives,
}

pub function_at-Any :
    (fs : List Function) (a : ℕ) (g : Function) → function_at fs a ≡ some g → Any (λ h. h ≡ g) fs
function_at-Any [] a g e = cc
function_at-Any (h ∷ fs) a g e = elim (Bool-cases (h.address == a)) [
  | inl same ↦ inl (some-injective _ _ (rw same at e))
  | inr different ↦ inr (function_at-Any fs a g (rw different at e))
]

module _ (m : Module) (cs : CallSite) (k : Collector) (knows : Knows m cs.parent k)
    (own : cs.instruction.is_pointer ≡ true → HasNode (plain cs.instruction.address) k)
    (nonzero : (cs.instruction.address == 0) ≡ false)
    (in_module : Any (λ h. h ≡ cs.parent) m.functions) (defined : is_external cs.parent ≡ false)
    (args : KnownOperands m cs.parent cs.arguments) where
  -- The actual arguments have nodes in a state with the same maps.
  nodes :
      (s : Collector)
      → Same k s
      → (ys : List Operand) → KnownOperands m cs.parent ys
      → All (λ a. a.is_pointer ≡ true → HasNode a.value s) ys
  nodes s same [] all = tt
  nodes s same (a ∷ ys) (first, all) =
      ((λ p. HasNode-Same a.value k s same (knows.values a.value (first p))), nodes s same ys all)

  all_nodes :
      (ys : List Operand)
      → All (λ a. Known m cs.parent a.value) ys
      → All (λ a. HasNode a.value k) ys
  all_nodes [] all = tt
  all_nodes (a ∷ ys) (first, all) = (knows.values a.value first, all_nodes ys all)

  own_at :
      (s : Collector)
      → Same k s
      → cs.instruction.is_pointer ≡ true
      → HasNode (plain cs.instruction.address) s
  own_at s same p = HasNode-Same (plain cs.instruction.address) k s same (own p)

  arguments-Gives :
      (g : Function)
      → Any (λ h. h ≡ g) m.functions
      → is_external g ≡ false
      → (s : Collector) → Adds k s
      → Gives (Adds k) (add_argument_constraint_for_call cs g s)
  arguments-Gives g among inside s e =
      add_argument_constraint_for_call-Gives k cs g (knows.formals g among inside)
        (nodes k (Adds-Same k k refl) cs.arguments args) (knows.varargs g among inside) s e

  library-Gives :
      (g : Function)
      → is_external g ≡ true
      → ReadyLibrary m cs.parent false cs g
      → (s : Collector) → Adds k s
      → Gives (λ (b, t). Adds k t) (add_constraint_for_external_library m cs g s)
  library-Gives g external ready s e =
      let same = Adds-Same k s e in
      Gives-map
        (add_constraint_for_external_library-Gives m false cs s
          (Knows-Same m cs.parent k s same knows) (own_at s same) nonzero in_module defined
          (λ c. cc) g external ready)
        (λ (b, t) adds. adds ∙ e)

  call_candidate-Gives :
      (g : Function)
      → Any (λ h. h ≡ g) m.functions
      → ReadyCalled m cs.parent cs g
      → (s : Collector) → Adds k s
      → Gives (Adds k) (call_candidate m cs g s)
  unfolding call_candidate
  call_candidate-Gives g among ready s e =
      Gives-choice (is_external g) ready
        (λ external (ready₁, all).
          Gives->>= (library-Gives g external ready₁ s e) (λ (is_known, s₁) e₁.
            branch (Gives (Adds k)) is_known (λ _. gives e₁)
              (λ _.
                Gives-each (λ a node t e'. unknown_argument-Gives k a node t e') cs.arguments
                  (all_nodes cs.arguments all) s₁ e₁)))
        (λ inside _. arguments-Gives g among inside s e)

  try_function-Gives :
      (g : Function)
      → Any (λ h. h ≡ g) m.functions
      → ReadyCandidate m cs.parent cs g
      → (s : Collector) → Adds k s
      → Gives (Adds k) (try_function m cs g s)
  unfolding try_function get_value_node_for
  try_function-Gives g among ready s e =
      branch (Gives (Adds k)) (found g.address s.node_factory.value_node_map == invalid_index)
        (λ _. gives e)
        (λ _.
          branch (Gives (Adds k))
            (not g.is_var_arg && not (length g.arguments == length cs.arguments)) (λ _. gives e)
            (λ fits. call_candidate-Gives g among (ready fits) s e))

  pub call_indirect-Gives :
      All (ReadyCandidate m cs.parent cs) m.functions → Gives (Adds k) (call_indirect m cs k)
  unfolding call_indirect
  call_indirect-Gives all = Gives->>= (unknown_result-Gives k cs own k refl) (λ s₁ e₁.
      Gives-each (λ g (among, ready) t e. try_function-Gives g among ready t e) m.functions
        (All-members _ m.functions m.functions (λ g among. among) all) s₁ e₁)

  return_result-Gives :
      (g : Function)
      → Any (λ h. h ≡ g) m.functions
      → is_external g ≡ false
      → (cs.instruction.is_pointer ≡ true → g.returns_pointer ≡ true)
      → Gives (Adds k) (return_result cs g k)
  unfolding return_result
  return_result-Gives g among inside returns =
      branch (Gives (Adds k)) cs.instruction.is_pointer
        (λ p. Gives->>= (value_node-Gives (plain cs.instruction.address) k (own p)) (λ d _.
          Gives->>=
            (valid-Gives g.address k.node_factory.return_map
              (knows.returns g among inside (returns p)))
            (λ r _. gives (add-Adds copy d r k))))
        (λ _. gives refl)

  module _ (fresh : Maps.lookup cs.instruction.address k.node_factory.obj_node_map ≡ none) where
    call_external-Gives :
        (g : Function)
        → is_external g ≡ true
        → ReadyLibrary m cs.parent true cs g
        → Gives (Touches cs.instruction.address k) (call_external m cs g k)
    unfolding call_external
    call_external-Gives g external ready =
        let a = cs.instruction.address in
        Gives->>=
          (add_constraint_for_external_library-Gives m true cs k knows own nonzero in_module defined
            (λ _. fresh) g external ready)
          (λ (is_known, s₁) touches.
            branch (Gives (Touches a k)) is_known (λ _. gives touches)
              (λ _.
                Gives-map
                  (Gives->>= (unknown_result-Gives s₁ cs (own_at s₁ touches.same) s₁ refl) (λ s₂ e₂.
                    Gives-each (λ x node t e. unknown_pointer-Gives s₁ x node t e) cs.arguments
                      (nodes s₁ touches.same cs.arguments args) s₂ e₂))
                  (λ t e. Touches-Adds a k s₁ t touches e)))

    pub call_direct-Gives :
        (g : Function)
        → Any (λ h. h ≡ g) m.functions
        → (if is_external g
            then ReadyLibrary m cs.parent true cs g
            else (cs.instruction.is_pointer ≡ true → g.returns_pointer ≡ true))
        → Gives (Touches cs.instruction.address k) (call_direct m cs g k)
    unfolding call_direct
    call_direct-Gives g among ready =
        Gives-choice (is_external g) ready (call_external-Gives g) (λ inside returns.
          Gives-map
            (Gives->>= (return_result-Gives g among inside returns)
              (λ s₁ e₁. arguments-Gives g among inside s₁ e₁))
            (λ t e. Adds-Touches cs.instruction.address k t e))
