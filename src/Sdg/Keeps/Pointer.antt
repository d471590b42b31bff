-- ===== src/Sdg/Keeps/Pointer.antt =====
-- SDG.cpp, step 4, the pointer edges: it keeps what its edges keep.
use programslicer.Common.{
  ◌≡◌, subst, sym, arith, All, ltb, ℕ, some, List, [], ◌∷◌, Ok, Ok-if, Ok-for_each, ◌==◌,
  Bool-cases, inl, inr,
}
use programslicer.Common.Sets
use programslicer.Common.Maps
use programslicer.Common.Maps.{Map}
use programslicer.DirectedGraph.{DirectedGraph, insert}
use programslicer.Ir.{Value, Opcode, Module}
use programslicer.Sdg.Edge.{flow}
use programslicer.Sdg.Node.{Placement, inst_node}
use programslicer.Sdg.State.{SdgState, add_edge}
use programslicer.Sdg.Calls.{instructions}
use programslicer.Sdg.Pointer.{
  def_nodes, define, define_opcode, define_store, generate_def_node_map, load_users, pointer_uses,
  pointer_sources, pointer_definitions, generate_pointer_edges,
}
use programslicer.Sdg.Keeps.Edges.{Holds}

-- Every node in a definition map is of a kind.
abbrev pub Sources : (ℕ → Type 0) → Map (List ℕ) → Type 0
Sources Src defs = All (λ entry. All Src entry.1) defs

-- The kind of the nodes is kept by the insertion of one of that kind.
All-place : (Src : ℕ → Type 0) (x : ℕ) (s : List ℕ) → Src x → All Src s → All Src (Sets.place x s)
All-place Src x [] a h = (a, tt)
All-place Src x (y ∷ s) a h = elim (Bool-cases (ltb x y)) [
  | inl below ↦ rw below (a, h)
  | inr above ↦ rw above (h.0, All-place Src x s a h.1)
]

All-insert : (Src : ℕ → Type 0) (x : ℕ) (s : List ℕ) → Src x → All Src s → All Src (Sets.insert x s)
unfolding Sets.insert
All-insert Src x s a h = elim (Bool-cases (Sets.contains x s)) [
  | inl old ↦ rw old h
  | inr new ↦ rw new (All-place Src x s a h)
]

Sources-def_nodes :
    (Src : ℕ → Type 0) (i : ℕ) (defs : Map (List ℕ)) → Sources Src defs → All Src (def_nodes i defs)
Sources-def_nodes Src i [] h = tt
Sources-def_nodes Src i ((j, nodes) ∷ defs) h = elim (Bool-cases (j == i)) [
  | inl same ↦
      let here : def_nodes i ((j, nodes) ∷ defs) ≡ nodes = ground arith in
      subst (λ srcs. All Src srcs) (sym here) h.0
  | inr apart ↦
      let there : def_nodes i ((j, nodes) ∷ defs) ≡ def_nodes i defs = ground arith in
      subst (λ srcs. All Src srcs) (sym there) (Sources-def_nodes Src i defs h.1)
]

Sources-set :
    (Src : ℕ → Type 0) (i : ℕ) (nodes : List ℕ) (defs : Map (List ℕ))
    → All Src nodes
    → Sources Src defs
    → Sources Src (Maps.set i nodes defs)
unfolding Maps.set
Sources-set Src i nodes [] a h = (a, tt)
Sources-set Src i nodes ((j, old) ∷ defs) a h = elim (Bool-cases (j == i)) [
  | inl same ↦ rw same (a, h.1)
  | inr apart ↦ elim (Bool-cases (ltb i j)) [
    | inl below ↦ rw (apart, below) (a, h)
    | inr above ↦ rw (apart, above) (h.0, Sources-set Src i nodes defs a h.1)
  ]
]

pub Sources-redefine :
    (Src : ℕ → Type 0) (i x : ℕ) (defs : Map (List ℕ))
    → Src x
    → Sources Src defs
    → Sources Src (Maps.set i (Sets.insert x (def_nodes i defs)) defs)
Sources-redefine Src i x defs a h =
    Sources-set Src i _ defs (All-insert Src x _ a (Sources-def_nodes Src i defs h)) h

module _ (p : Placement) (A : ℕ → ℕ → ℕ → Type 0) (P : DirectedGraph ℕ → Map (List ℕ) → Type 0)
    (keep : (src dst attr : ℕ) (g : DirectedGraph ℕ) (defs : Map (List ℕ))
      → A src dst attr
      → P g defs
      → P (insert src dst (some attr) g) defs)
    (redefine : (i n : ℕ) (g : DirectedGraph ℕ) (defs : Map (List ℕ))
      → P g defs
      → P g (Maps.set i (Sets.insert (p.addr (inst_node n)) (def_nodes i defs)) defs)) where
  define-keeps :
      (n : ℕ) (v : Value) (s : SdgState)
      → Holds P s
      → Ok (Holds P) (define p (p.addr (inst_node n)) v s)
  unfolding define
  define-keeps n (Value.instruction i) s h = redefine i n s.graph s.def_node_map h
  define-keeps n (Value.argument a) s h = tt
  define-keeps n (Value.other v) s h = tt

  define_opcode-keeps :
      (alias_set : Value → List Value) (i : ℕ) (op : Opcode) (s : SdgState)
      → Holds P s
      → Ok (Holds P) (define_opcode p alias_set i op s)
  unfolding define_opcode
  define_opcode-keeps alias_set i (Opcode.store v b) s h =
      Ok-if (Holds P) b _ _
        (Ok-for_each (Holds P) (define p (p.addr (inst_node i))) (define-keeps i) (alias_set v) _ h)
        h
  define_opcode-keeps alias_set i Opcode.ret s h = h
  define_opcode-keeps alias_set i (Opcode.call c vs) s h = h
  define_opcode-keeps alias_set i Opcode.load s h = h
  define_opcode-keeps alias_set i Opcode.misc s h = h

  pub generate_def_node_map-keeps :
      (alias_set : Value → List Value) (m : Module) (s : SdgState)
      → Holds P s
      → Ok (Holds P) (generate_def_node_map p alias_set m s)
  unfolding generate_def_node_map define_store
  generate_def_node_map-keeps alias_set m s h =
      Ok-for_each (Holds P) _
        (λ f t q.
          Ok-for_each (Holds P) (define_store p alias_set)
            (λ i u r. define_opcode-keeps alias_set i.id i.opcode u r) (instructions f) t q)
        m s h

  module _ (Src : ℕ → Type 0)
      (edges : (src i : ℕ) → Src src → A src (p.addr (inst_node i)) flow) where
    pointer_uses-keeps :
        (src : ℕ) (is : List ℕ) (s : SdgState)
        → Src src
        → Holds P s
        → Holds P (pointer_uses p src is s)
    unfolding pointer_uses add_edge
    pointer_uses-keeps src [] s a h = h
    pointer_uses-keeps src (i ∷ is) s a h =
        pointer_uses-keeps src is _ a (keep _ _ flow _ _ (edges src i a) h)

    pointer_sources-keeps :
        (users srcs : List ℕ) (s : SdgState)
        → All Src srcs
        → Holds P s
        → Holds P (pointer_sources p users srcs s)
    unfolding pointer_sources
    pointer_sources-keeps users [] s a h = h
    pointer_sources-keeps users (src ∷ srcs) s a h =
        pointer_sources-keeps users srcs _ a.1 (pointer_uses-keeps src users s a.0 h)

    pointer_definitions-keeps :
        (m : Module) (defs : Map (List ℕ)) (s : SdgState)
        → Sources Src defs
        → Holds P s
        → Holds P (pointer_definitions p m defs s)
    unfolding pointer_definitions
    pointer_definitions-keeps m [] s a h = h
    pointer_definitions-keeps m ((d, srcs) ∷ rest) s a h =
        pointer_definitions-keeps m rest _ a.1 (pointer_sources-keeps (load_users d m) srcs s a.0 h)

    pub generate_pointer_edges-keeps :
        (m : Module) (s : SdgState)
        → Sources Src s.def_node_map
        → Holds P s
        → Holds P (generate_pointer_edges p m s)
    unfolding generate_pointer_edges
    generate_pointer_edges-keeps m s a h = pointer_definitions-keeps m s.def_node_map s a h
