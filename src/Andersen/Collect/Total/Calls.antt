-- ===== src/Andersen/Collect/Total/Calls.antt =====
-- andersen/lib/ConstraintCollect.cpp, `addConstraintForCall`: the calls succeed.
use programslicer.Common.{
  ◌≡◌, true, List, [], ◌∷◌, sym, subst, ◌∙◌, All, Gives, gives, Gives->>=, Gives-each, branch,
}
use programslicer.NodeFactory.{Value, plain, universal_ptr_index}
use programslicer.Andersen.Constraint.{copy}
use programslicer.Andersen.Code.{Function, Argument, Operand, CallSite}
use programslicer.Andersen.Collect.{Collector}
use programslicer.Andersen.Collect.Calls.{
  pass_argument, pass_arguments, pass_vararg, add_argument_constraint_for_call, unknown_result,
  unknown_argument, unknown_pointer,
}
use programslicer.Andersen.Collect.Total.Nodes.{
  HasNode, HasEntry, HasNode-Same, Adds, add-Adds, Adds-Same, value_node-Gives, valid-Gives,
}

module _ (k : Collector) where
  pub at_later : (v : Value) (s : Collector) → Adds k s → HasNode v k → HasNode v s
  at_later v s e node = HasNode-Same v k s (Adds-Same k s e) node

  abbrev Formal : Argument → Type 0
  Formal x = x.is_pointer ≡ true → HasNode (plain x.address) k

  abbrev Actual : Operand → Type 0
  Actual a = a.is_pointer ≡ true → HasNode a.value k

  pass_argument-Gives :
      (x : Argument) (a : Operand)
      → Formal x
      → Actual a
      → (s : Collector) → Adds k s
      → Gives (Adds k) (pass_argument x a s)
  unfolding pass_argument
  pass_argument-Gives x a formal actual s e =
      branch (Gives (Adds k)) x.is_pointer
        (λ p.
          Gives->>=
            (value_node-Gives (plain x.address) s (at_later (plain x.address) s e (formal p)))
            (λ d _.
              branch (Gives (Adds k)) a.is_pointer
                (λ q.
                  Gives->>= (value_node-Gives a.value s (at_later a.value s e (actual q)))
                    (λ r _. gives (add-Adds copy d r s ∙ e)))
                (λ _. gives (add-Adds copy d universal_ptr_index s ∙ e))))
        (λ _. gives e)

  pass_arguments-Gives :
      (xs : List Argument) (ys : List Operand)
      → All Formal xs
      → All Actual ys
      → (s : Collector) → Adds k s
      → Gives (λ (rest, t). Adds k t × All Actual rest) (pass_arguments xs ys s)
  unfolding pass_arguments
  pass_arguments-Gives [] ys formals actuals s e = gives (e, actuals)
  pass_arguments-Gives (x ∷ xs) [] formals actuals s e = gives (e, tt)
  pass_arguments-Gives (x ∷ xs) (a ∷ ys) (formal, formals) (actual, actuals) s e =
      Gives->>= (pass_argument-Gives x a formal actual s e)
        (λ s₁ e₁. pass_arguments-Gives xs ys formals actuals s₁ e₁)

  pass_vararg-Gives :
      (g : Function)
      → HasEntry g.address k.node_factory.vararg_map
      → (a : Operand) → Actual a
      → (s : Collector) → Adds k s
      → Gives (Adds k) (pass_vararg g a s)
  unfolding pass_vararg
  pass_vararg-Gives g entry a actual s e =
      branch (Gives (Adds k)) a.is_pointer
        (λ q. Gives->>= (value_node-Gives a.value s (at_later a.value s e (actual q))) (λ r _.
          Gives->>=
            (valid-Gives g.address s.node_factory.vararg_map
              (subst (λ f. HasEntry g.address f.vararg_map) (sym e) entry))
            (λ d _. gives (add-Adds copy d r s ∙ e))))
        (λ _. gives e)

  pub add_argument_constraint_for_call-Gives :
      (cs : CallSite) (g : Function)
      → All Formal g.arguments
      → All Actual cs.arguments
      → (g.is_var_arg ≡ true → HasEntry g.address k.node_factory.vararg_map)
      → (s : Collector) → Adds k s
      → Gives (Adds k) (add_argument_constraint_for_call cs g s)
  unfolding add_argument_constraint_for_call
  add_argument_constraint_for_call-Gives cs g formals actuals entry s e =
      Gives->>= (pass_arguments-Gives g.arguments cs.arguments formals actuals s e)
        (λ (rest, s₁) (e₁, left).
          branch (Gives (Adds k)) g.is_var_arg
            (λ v.
              Gives-each (λ a actual t e'. pass_vararg-Gives g (entry v) a actual t e') rest left s₁
                e₁)
            (λ _. gives e₁))

  pub unknown_result-Gives :
      (cs : CallSite)
      → (cs.instruction.is_pointer ≡ true → HasNode (plain cs.instruction.address) k)
      → (s : Collector) → Adds k s
      → Gives (Adds k) (unknown_result cs s)
  unfolding unknown_result
  unknown_result-Gives cs own s e =
      let v = plain cs.instruction.address in
      branch (Gives (Adds k)) cs.instruction.is_pointer
        (λ p.
          Gives->>= (value_node-Gives v s (at_later v s e (own p)))
            (λ d _. gives (add-Adds copy d universal_ptr_index s ∙ e)))
        (λ _. gives e)

  pub unknown_argument-Gives :
      (a : Operand)
      → HasNode a.value k
      → (s : Collector) → Adds k s
      → Gives (Adds k) (unknown_argument a s)
  unfolding unknown_argument
  unknown_argument-Gives a node s e =
      Gives->>= (value_node-Gives a.value s (at_later a.value s e node))
        (λ d _. gives (add-Adds copy d universal_ptr_index s ∙ e))

  pub unknown_pointer-Gives :
      (a : Operand) → Actual a → (s : Collector) → Adds k s → Gives (Adds k) (unknown_pointer a s)
  unfolding unknown_pointer
  unknown_pointer-Gives a actual s e =
      branch (Gives (Adds k)) a.is_pointer (λ p. unknown_argument-Gives a (actual p) s e)
        (λ _. gives e)
