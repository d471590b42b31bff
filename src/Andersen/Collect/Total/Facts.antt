-- ===== src/Andersen/Collect/Total/Facts.antt =====
-- andersen/lib/ConstraintCollect.cpp: the nodes of a module, by which the operands of an instruction
-- are found.
use programslicer.Common.{All-map, ℕ, ◌≡◌, inl, inr, refl, true, false, subst, All, Any, All-Any}
use programslicer.NodeFactory.{
  Value, constant, plain, Constant, constant_pointer_null, undef_value, global_value,
  get_element_ptr as element_constant, int_to_ptr as int_constant, ptr_to_int,
  bit_cast as cast_constant, not_handled, get_value_node_for,
}
use programslicer.Andersen.Code.{Module, Function, Instruction}
use programslicer.Andersen.Collect.{Collector}
use programslicer.Andersen.Collect.Valid.{Extends}
use programslicer.Andersen.Collect.Total.Ready.{is_external, Global, KnownConstant, Known}
use programslicer.Andersen.Collect.Total.Nodes.{HasEntry, HasNode, Knows}
use programslicer.Andersen.Collect.Total.Create.{HasEntry-Stays}
use programslicer.Andersen.Collect.Total.Globals.{Entered, Entered-Extends}
use programslicer.Andersen.Collect.Total.Functions.{Introduced, Introduced-Extends}

-- The globals and the functions have their nodes.
pub record Facts (m : Module) (s : Collector) : Type 0 where
  pub globals : All (λ g. Entered g.address s) m.globals
  pub functions : All (Introduced s) m.functions

pub Facts-Extends : (m : Module) (s t : Collector) → Extends s t → Facts m s → Facts m t
Facts-Extends m s t ext facts = record {
  globals = All-map _ _ (λ g. Entered-Extends g.address s t ext) m.globals facts.globals;
  functions = All-map _ _ (Introduced-Extends s t ext) m.functions facts.functions;
}

-- The instruction has a node, if it is a pointer.
abbrev pub HasValue : Collector → Instruction → Type 0
HasValue s i = i.is_pointer ≡ true → HasEntry i.address s.node_factory.value_node_map

pub HasValue-Extends :
    (s t : Collector) → Extends s t → (i : Instruction) → HasValue s i → HasValue t i
HasValue-Extends s t ext i h p =
    HasEntry-Stays i.address s.node_factory.value_node_map t.node_factory.value_node_map
      ext.same_values (h p)

module _ (m : Module) (s : Collector) (facts : Facts m s) where
  pub Global-Entered : (a : ℕ) → Global m a → Entered a s
  Global-Entered a (inl among) =
      All-Any (λ g entered e. subst (λ b. Entered b s) e entered) m.globals facts.globals among
  Global-Entered a (inr among) =
      All-Any (λ h introduced (taken, e). subst (λ b. Entered b s) e (introduced.global taken))
        m.functions facts.functions among

  constant_node : (c : Constant) → KnownConstant m c → HasNode (constant c) s
  unfolding get_value_node_for
  constant_node constant_pointer_null known = (_, (refl, refl))
  constant_node undef_value known = (_, (refl, refl))
  constant_node (global_value a) known = (_, (refl, (Global-Entered a known).0.1))
  constant_node (element_constant c) known = constant_node c known
  constant_node int_constant known = (_, (refl, refl))
  constant_node ptr_to_int known = absurd known
  constant_node (cast_constant c) known = constant_node c known
  constant_node not_handled known = absurd known

  entry_node : (a : ℕ) → HasEntry a s.node_factory.value_node_map → HasNode (plain a) s
  unfolding get_value_node_for
  entry_node a (nonzero, entry) = (_, (rw nonzero refl, entry))

  module-Introduced : (g : Function) → Any (λ h. h ≡ g) m.functions → Introduced s g
  module-Introduced g among =
      All-Any (λ h introduced e. subst (Introduced s) e introduced) m.functions facts.functions
        among

  module _ (f : Function) (in_module : Any (λ h. h ≡ f) m.functions)
      (defined : is_external f ≡ false) (body : All (HasValue s) f.body) where
    known_node : (v : Value) → Known m f v → HasNode v s
    known_node (constant c) known = constant_node c known
    known_node (plain a) (inl among) = entry_node a (
        All-Any (λ i h (p, e). subst (λ b. HasEntry b s.node_factory.value_node_map) e (h p)) f.body
          body among)
    known_node (plain a) (inr among) = entry_node a (
        All-Any (λ x h (p, e). subst (λ b. HasEntry b s.node_factory.value_node_map) e (h p))
          f.arguments ((module-Introduced f in_module).signature defined).formals among)

    pub Facts-Knows : Knows m f s
    Facts-Knows = record {
      values = known_node;
      formals = λ g among inside.
          All-map _ _ (λ x h p. entry_node x.address (h p)) g.arguments
            ((module-Introduced g among).signature inside).formals;
      returns = λ g among inside. ((module-Introduced g among).signature inside).returns;
      varargs = λ g among inside. ((module-Introduced g among).signature inside).varargs;
    }
