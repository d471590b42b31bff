-- ===== src/Sdg/Keeps/Build.antt =====
-- SDG.cpp, `runOnModule`: it keeps what its edges keep.
use programslicer.Common.{ℕ, some, List, for_each, Ok, Ok->>=, Ok-for_each}
use programslicer.Common.Maps
use programslicer.Common.Maps.{Map}
use programslicer.DirectedGraph.{DirectedGraph, insert}
use programslicer.Ir.{Module}
use programslicer.Sdg.Edge.{flow}
use programslicer.Sdg.Node.{Placement, inst_node}
use programslicer.Sdg.State.{SdgState}
use programslicer.Sdg.Control.{control_function}
use programslicer.Sdg.Calls.{call_function}
use programslicer.Sdg.Data.{generate_intra_ddg}
use programslicer.Sdg.Pointer.{generate_def_node_map}
use programslicer.Sdg.Build.{Analyses, run_on_module}
use programslicer.Common.Sets
use programslicer.Sdg.Pointer.{def_nodes}
use programslicer.Sdg.Keeps.Control.{control_function-keeps}
use programslicer.Sdg.Keeps.Calls.{call_function-keeps}
use programslicer.Sdg.Keeps.Data.{generate_intra_ddg-keeps}
use programslicer.Sdg.Keeps.Pointer.{
  Sources, generate_def_node_map-keeps, generate_pointer_edges-keeps,
}
use programslicer.Sdg.Keeps.Edges.{ControlEdges, CallEdges, DataEdges, Holds}

module _ (p : Placement) (A : ℕ → ℕ → ℕ → Type 0) (P : DirectedGraph ℕ → Map (List ℕ) → Type 0)
    (keep : (src dst attr : ℕ) (g : DirectedGraph ℕ) (defs : Map (List ℕ))
      → A src dst attr
      → P g defs
      → P (insert src dst (some attr) g) defs) where
  -- The whole builder.
  pub run_on_module-keeps :
      ControlEdges p A
      → CallEdges p A
      → DataEdges p A
      → ((i n : ℕ) (g : DirectedGraph ℕ) (defs : Map (List ℕ))
          → P g defs
          → P g (Maps.set i (Sets.insert (p.addr (inst_node n)) (def_nodes i defs)) defs))
      → (Src : ℕ → Type 0) → ((src i : ℕ) → Src src → A src (p.addr (inst_node i)) flow)
      → ((g : DirectedGraph ℕ) (defs : Map (List ℕ)) → P g defs → Sources Src defs)
      → (a : Analyses) (m : Module) (s : SdgState) → Holds P s
      → Ok (Holds P) (run_on_module p a m s)
  unfolding run_on_module
  run_on_module-keeps c k d redefine Src e sources a m s h =
      Ok->>= (Holds P) (Holds P) (for_each (control_function p m a.pdt) m s) _
        (Ok-for_each (Holds P) (control_function p m a.pdt)
          (control_function-keeps p A P keep c m a.pdt) m s h)
        (λ s₁ h₁.
          Ok->>= (Holds P) (Holds P) (for_each (call_function p m) m s₁) _
            (Ok-for_each (Holds P) (call_function p m) (call_function-keeps p A P keep k m) m s₁ h₁)
            (λ s₂ h₂.
              Ok->>= (Holds P) (Holds P) (for_each (generate_intra_ddg p) m s₂) _
                (Ok-for_each (Holds P) (generate_intra_ddg p)
                  (generate_intra_ddg-keeps p A P keep d) m s₂ h₂)
                (λ s₃ h₃.
                  Ok->>= (Holds P) (Holds P) (generate_def_node_map p a.alias_set m s₃) _
                    (generate_def_node_map-keeps p A P keep redefine a.alias_set m s₃ h₃)
                    (λ s₄ h₄.
                      generate_pointer_edges-keeps p A P keep redefine Src e m s₄ (sources _ _ h₄)
                        h₄))))
