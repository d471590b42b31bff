-- ===== src/Cdg/Dependence.antt =====
-- CDG.cpp: control dependence, as the tree of post-dominators defines it, and what the pass relies
-- on in LLVM's tree.
use programslicer.Common.{ℕ, ◌≡◌, ◌↔◌, ◌⊎◌, ◌≤◌, ◌<◌, true, some, All, Any, length}
use programslicer.Ir.{Function}
use programslicer.Cdg.{PostDominatorTree, Graph}
use programslicer.DirectedGraph.{is_edge, IsValid}

-- `z` is `y` or above it in the tree: the block of `z` post-dominates that of `y`.
pub data Ancestor (pdt : PostDominatorTree) (z : ℕ) : ℕ → Type 0 where
  self : Ancestor pdt z z
  up : {y parent : ℕ} → pdt.get_idom y ≡ some parent → Ancestor pdt z parent → Ancestor pdt z y

abbrev pub ProperAncestor : PostDominatorTree → ℕ → ℕ → Type 0
ProperAncestor pdt z x = (parent : ℕ) × (pdt.get_idom x ≡ some parent) × Ancestor pdt z parent

-- `v` post-dominates the successor `s` of `b`, and does not strictly post-dominate `b`.
pub data ControlsVia (pdt : PostDominatorTree) (b s v : ℕ) : Type 0 where
  controls :
      (x y m : ℕ)
      → pdt.get_node b ≡ some x
      → pdt.get_node s ≡ some y
      → Ancestor pdt m y
      → ¬ ProperAncestor pdt m x
      → v ≡ pdt.get_block m
      → ControlsVia pdt b s v

-- The control dependences of a function: `v` depends on `u`.
abbrev pub Depends : PostDominatorTree → Function → ℕ → ℕ → Type 0
Depends pdt f u v =
    Any (λ block. (u ≡ block.id) × Any (λ s. ControlsVia pdt block.id s v) block.successors)
      f.blocks

-- A branch from `b` to `s`: both have nodes, and the immediate post-dominator of `b` post-dominates
-- `s`.
abbrev pub Branch : PostDominatorTree → ℕ → ℕ → Type 0
Branch pdt b s =
    (x z y : ℕ) × (pdt.get_node b ≡ some x)
    × (pdt.get_idom x ≡ some z)
    × (pdt.get_node s ≡ some y)
    × Ancestor pdt z y
    × (pdt.get_block y ≡ s)

-- LLVM's tree for a function whose blocks all reach an exit: it has a root, so that nodes have
-- levels, and at most as many levels below the root as blocks.
pub record IsPostDominatorTree (pdt : PostDominatorTree) (f : Function) : Type 0 where
  pub level : ℕ → ℕ
  pub level_idom : (x y : ℕ) → pdt.get_idom x ≡ some y → level y < level x
  pub level_bound : (x : ℕ) → level x ≤ length f.blocks
  pub branches : All (λ block. All (Branch pdt block.id) block.successors) f.blocks

-- A graph with some edges added.
pub record Adds (Q : ℕ → ℕ → Type 0) (g g' : Graph) : Type 0 where
  pub keeps_valid : IsValid g → IsValid g'
  pub exact : (u v : ℕ) → (is_edge g' u v ≡ true) ↔ ((is_edge g u v ≡ true) ⊎ Q u v)
