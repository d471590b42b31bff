-- ===== src/Cdg.antt =====
-- CDG.h, CDG.cpp: the control dependence graph of a function. LLVM's post-dominator tree is a
-- parameter: `get_node`, `get_idom` and `get_block` are its queries, `none` is a null node and 0 a
-- null block. `none` as a result is a null dereference, or fuel that ran out.
pub mod Dependence
pub mod Climb
pub mod Exact
use programslicer.Common.{
  ℕ, zero, suc, ◌+◌, Bool, true, false, Option, none, some, List, [], ◌∷◌, ◌==◌, if◌then◌else◌,
  ◌>>=◌, for_each, length,
}
use programslicer.Common.Maps.{Map}
use programslicer.Ir.{Block, Function}
use programslicer.DirectedGraph.{DirectedGraph, insert, get_pred_set, null}

pub record PostDominatorTree : Type 0 where
  pub get_node : ℕ → Option ℕ
  pub get_idom : ℕ → Option ℕ
  pub get_block : ℕ → ℕ

abbrev pub Graph : Type 0
Graph = DirectedGraph ℕ

abbrev pub same_node : Option ℕ → Option ℕ → Bool
same_node none none = true
same_node none (some y) = false
same_node (some x) none = false
same_node (some x) (some y) = x == y

module _ (pdt : PostDominatorTree) where
  -- The `while` loop: `idom` is `BNode->getIDom()`.
  unfoldable pub climb : ℕ → Option ℕ → ℕ → ℕ → Option ℕ → Graph → Option Graph
  unfolding insert
  climb zero idom b n n_node g = if same_node idom n_node then some g else none
  climb (suc fuel) idom b n n_node g =
      let up = λ (y : ℕ). climb fuel idom b (pdt.get_block y) (some y) (insert b n none g) in
      if same_node idom n_node
      then some g
      else (n_node >>= λ node. elim (pdt.get_idom node) [
        | none ↦ some (insert b n none g)
        | some y ↦ up y
      ])

  -- The body of the loop over the successors.
  unfoldable pub visit_successor : ℕ → Option ℕ → ℕ → ℕ → Graph → Option Graph
  unfolding climb
  visit_successor fuel b_node b n g =
      b_node >>= λ node. climb fuel (pdt.get_idom node) b n (pdt.get_node n) g

  unfoldable pub visit_block : ℕ → Block → Graph → Option Graph
  unfolding visit_successor for_each
  visit_block fuel block =
      for_each (visit_successor fuel (pdt.get_node block.id) block.id) block.successors

-- The second loop: a block with no predecessor hangs on the entry, the null block.
unfoldable pub hang_on_entry : Map (Option ℕ) → ℕ → Graph → Graph
unfolding insert
hang_on_entry [] block g = insert null block none g
hang_on_entry (_ ∷ _) block g = g

unfoldable pub make_dependent_on_entry : List Block → Graph → Graph
unfolding hang_on_entry get_pred_set
make_dependent_on_entry [] g = g
make_dependent_on_entry (block ∷ blocks) g =
    let (pred_set, g') = get_pred_set block.id g in
    make_dependent_on_entry blocks (hang_on_entry pred_set block.id g')

-- A climb meets a node of the tree at most once, and the tree has a node for each block and a root.
unfoldable pub run_on_function : PostDominatorTree → Function → Graph → Option Graph
unfolding visit_block make_dependent_on_entry
run_on_function pdt f g = do
  g' ← for_each (visit_block pdt (length f.blocks + 1)) f.blocks g
  some (make_dependent_on_entry f.blocks g')
