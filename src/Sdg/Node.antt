-- ===== src/Sdg/Node.antt =====
-- SDG.h: `enum NodeAttr`, `class SDGNode`, and where the nodes live. A node is the value of an
-- entry of one of six maps, so its address is that of a map and its keys.
use programslicer.Common.{ℕ, ◌≡◌, ◌≢◌, none, some, []}
use programslicer.Common.Maps
use programslicer.Common.Maps.{Map}

-- `SIZE` is the attribute of a node that was made by default.
pub data NodeAttr : Type 0 where
  instruction entry caller_aux callee_aux size : NodeAttr

pub record SdgNode : Type 0 where
  pub attr : NodeAttr
  pub value : ℕ

-- `SDGNode()`.
abbrev pub default_node : SdgNode
default_node = record { attr = size; value = 0 }

-- The entries of the maps of `class SDG`, by their keys.
pub data Place : Type 0 where
  inst_node : ℕ → Place
  entry_node : ℕ → Place
  callee_input : ℕ → Place
  callee_output : ℕ → Place
  caller_input : ℕ → ℕ → Place
  caller_output : ℕ → ℕ → Place

-- The C++ library places the entries: they do not move, no two share an address, and none is null.
pub record Placement : Type 0 where
  pub addr : Place → ℕ
  pub addr_injective : (p q : Place) → addr p ≡ addr q → p ≡ q
  pub addr_nonnull : (p : Place) → addr p ≢ 0

module _ {V : Type 0} where
  -- `m.insert(pair(k, v))`: an entry that is there stays.
  unfoldable pub emplace : ℕ → V → Map V → Map V
  unfolding Maps.set
  emplace k v m = elim (Maps.lookup k m) [ none ↦ Maps.set k v m | some _ ↦ m ]

-- The map after `m[k]` was evaluated: a node is made by default where there was none.
abbrev pub subscript : ℕ → Map SdgNode → Map SdgNode
subscript k m = emplace k default_node m

-- `m[k]` for the maps of maps of the call sites.
abbrev pub site : ℕ → Map (Map SdgNode) → Map SdgNode
site k m = elim (Maps.lookup k m) [ none ↦ [] | some inner ↦ inner ]
