-- ===== src/Tests/Control.antt =====
-- CDG.cpp: an example.
use programslicer.Common.{
  ℕ, ◌≡◌, ◌↔◌, ◌⊎◌, inl, inr, refl, true, false, none, some, List, [], ◌∷◌, if◌then◌else◌, ltb,
  arith,
}
use programslicer.DirectedGraph.{empty, IsValid, is_edge, null}
use programslicer.DirectedGraph.Laws.{empty-IsValid}
use programslicer.Ir.{Block, Function}
use programslicer.Cdg.{PostDominatorTree, Graph, run_on_function}
use programslicer.Cdg.Dependence.{self, up, IsPostDominatorTree}
use programslicer.Cdg.Exact.{Edges, IsBlock, run_on_function-exact, run_on_function-connected}

abbrev block : ℕ → List ℕ → Block
block b successors = record { id = b; parent = 9; instructions = []; successors = successors }

-- A branch at 1 whose arms 2 and 3 meet at 4.
abbrev diamond : Function
diamond = record {
  id = 9;
  name = 9;
  is_declaration = false;
  arguments = [];
  blocks = block 1 (2 ∷ 3 ∷ []) ∷ block 2 (4 ∷ []) ∷ block 3 (4 ∷ []) ∷ block 4 [] ∷ [];
}

abbrev diamond_tree : PostDominatorTree
diamond_tree = record {
  get_node = λ b. some b;
  get_idom = λ x. if ltb x 4 then some 4 else none;
  get_block = λ x. x;
}

diamond-IsPostDominatorTree : IsPostDominatorTree diamond_tree diamond
diamond-IsPostDominatorTree = record {
  level = λ x. if ltb x 4 then 1 else 0;
  level_idom = λ x y h. ground arith;
  level_bound = λ x. ground arith;
  branches = (
    (
      (1, 4, 2, refl, refl, refl, up refl self, refl),
      ((1, 4, 3, refl, refl, refl, up refl self, refl), tt),
    ),
    (
      ((2, 4, 4, refl, refl, refl, self, refl), tt),
      (((3, 4, 4, refl, refl, refl, self, refl), tt), (tt, tt)),
    ),
  );
}

run_on_function-exact_example :
    (g' : Graph) × (run_on_function diamond_tree diamond empty ≡ some g')
    × IsValid g'
    × ((u v : ℕ)
        → (is_edge g' u v ≡ true) ↔ (
            Edges diamond_tree diamond empty u v
            ⊎ (u ≡ null)
              × IsBlock diamond.blocks v
              × ((w : ℕ) → ¬ Edges diamond_tree diamond empty w v)))
run_on_function-exact_example =
    run_on_function-exact diamond_tree diamond empty diamond-IsPostDominatorTree empty-IsValid

abbrev diamond_result : Graph
diamond_result = elim (run_on_function diamond_tree diamond empty) [ none ↦ empty | some g ↦ g ]

run_on_function-connected_example : (u : ℕ) × (is_edge diamond_result u 3 ≡ true)
unfolding run_on_function
run_on_function-connected_example =
    run_on_function-connected diamond_tree diamond empty diamond-IsPostDominatorTree empty-IsValid
      diamond_result refl 3 (inr (inr (inl refl)))
