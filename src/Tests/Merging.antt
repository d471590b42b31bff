-- ===== src/Tests/Merging.antt =====
-- andersen/lib/NodeFactory.cpp: examples.
use programslicer.Common.{ℕ, zero, suc, ◌≡◌, ◌↔◌, refl, some, ◌==◌, if◌then◌else◌, arith}
use programslicer.NodeFactory.{
  AndersNodeFactory, new_factory, set_target, merge_node, get_merge_target, get_merge_target_const,
}
use programslicer.NodeFactory.Merge.{Root, here, up, IsForest}
use programslicer.NodeFactory.Target.{get_merge_target-exact, merge_node-exact}

pub new_factory-IsForest : IsForest new_factory.nodes
new_factory-IsForest zero m h = (0, here refl)
new_factory-IsForest (suc zero) m h = (1, here refl)
new_factory-IsForest (suc (suc zero)) m h = (2, here refl)
new_factory-IsForest (suc (suc (suc zero))) m h = (3, here refl)
new_factory-IsForest (suc (suc (suc (suc n)))) m h = ground arith

merge_node-exact_example :
    (f : AndersNodeFactory) × (merge_node 0 2 new_factory ≡ some f)
    × IsForest f.nodes
    × ((x y : ℕ) → Root new_factory.nodes x y → Root f.nodes x (if 2 == y then 0 else y))
merge_node-exact_example = merge_node-exact 0 2 new_factory new_factory-IsForest refl refl refl

-- 3 was merged into 2, and 2 into 0.
abbrev merged : AndersNodeFactory
merged = record new_factory { nodes = set_target 3 2 (set_target 2 0 new_factory.nodes) }

get_merge_target-exact_example :
    (f : AndersNodeFactory) × (get_merge_target 3 3 merged ≡ some (0, f))
    × (get_merge_target_const 3 3 merged ≡ some 0)
    × ((x y : ℕ) → Root merged.nodes x y ↔ Root f.nodes x y)
unfolding set_target
get_merge_target-exact_example =
    get_merge_target-exact 3 3 0 merged (up {m = 2} refl (up {m = 0} refl (here refl)))
      (omega arith)
