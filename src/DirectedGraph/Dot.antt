-- ===== src/DirectedGraph/Dot.antt =====
-- DirectedGraph.h, `printDot`: the text, as the sequence of the pieces that are put out. The text of a
-- node and of a label is the business of their own `print` functions: such a piece holds the address
-- of the node, which is dereferenced, or the label.
use Prim.Native.String.{String}
use programslicer.Common.{ℕ, ◌≡◌, ◌⊎◌, Option, none, some, List, [], ◌∷◌, ◌++◌, ◌==◌, if◌then◌else◌}
use programslicer.Common.Maps
use programslicer.Common.Maps.{Map}
use programslicer.DirectedGraph.{DirectedGraph, null}

-- A piece for each literal of `printDot`, and those for what is not literal.
pub data Piece (E : Type 0) : Type 0 where
  digraph open_brace tab quote entry arrow label_open label_close end_line close_brace : Piece E
  name : String → Piece E
  node : ℕ → Piece E
  edge : E → Piece E

pub record Arc (E : Type 0) : Type 0 where
  pub source : ℕ
  pub target : ℕ
  pub label : Option E

module _ {E : Type 0} where
  unfoldable pub print_node : ℕ → Piece E
  print_node a = if a == null then entry else node a

  unfoldable pub print_label : Option E → List (Piece E) → List (Piece E)
  print_label none rest = rest
  print_label (some e) rest = label_open ∷ edge e ∷ label_close ∷ rest

  -- The body of the inner loop, with what is put out after it.
  unfoldable pub print_edge : ℕ → ℕ → Option E → List (Piece E) → List (Piece E)
  unfolding print_node print_label
  print_edge a b e rest =
      tab
      ∷ quote
      ∷ print_node a
      ∷ quote
      ∷ arrow
      ∷ quote
      ∷ print_node b
      ∷ quote
      ∷ print_label e (end_line ∷ rest)

  -- The inner loop, over the successors of `a`.
  unfoldable pub print_successors : ℕ → Map (Option E) → List (Piece E) → List (Piece E)
  unfolding print_edge
  print_successors a [] rest = rest
  print_successors a ((b, e) ∷ m) rest = print_edge a b e (print_successors a m rest)

  -- The outer loop.
  unfoldable pub print_all : Map (Map (Option E)) → List (Piece E) → List (Piece E)
  unfolding print_successors
  print_all [] rest = rest
  print_all ((a, m) ∷ more) rest = print_successors a m (print_all more rest)

  unfoldable pub print_dot : String → DirectedGraph E → List (Piece E)
  unfolding print_all
  print_dot title g = digraph ∷ name title ∷ open_brace ∷ print_all g.succ_map (close_brace ∷ [])

  -- A reader of the output, which knows nothing of graphs: the node between two quotes, where `entry`
  -- is null and nothing else may be.
  read_node : Piece E → Option ℕ
  read_node entry = some null
  read_node (node a) = if a == null then none else some a
  read_node p = none

  -- The arc that two nodes and a label make.
  abbrev arc_of : Option ℕ → Option ℕ → Option E → Option (List (Arc E)) → Option (List (Arc E))
  arc_of (some a) (some b) e (some arcs) =
      some (record { source = a; target = b; label = e } ∷ arcs)
  arc_of a b e arcs = none

  -- The lines up to the closing brace, which ends the text.
  read_lines : List (Piece E) → Option (List (Arc E))
  read_lines (close_brace ∷ []) = some []
  read_lines (tab ∷ quote ∷ a ∷ quote ∷ arrow ∷ quote ∷ b ∷ quote ∷ end_line ∷ rest) =
      arc_of (read_node a) (read_node b) none (read_lines rest)
  read_lines
        (tab
          ∷ quote
          ∷ a
          ∷ quote
          ∷ arrow
          ∷ quote
          ∷ b
          ∷ quote
          ∷ label_open
          ∷ edge e
          ∷ label_close
          ∷ end_line
          ∷ rest) =
      arc_of (read_node a) (read_node b) (some e) (read_lines rest)
  read_lines other = none

  pub read_dot : List (Piece E) → Option (String × List (Arc E))
  unfolding read_lines
  read_dot (digraph ∷ name title ∷ open_brace ∷ rest) = elim (read_lines rest) [
    | none ↦ none
    | some arcs ↦ some (title, arcs)
  ]
  read_dot other = none

  -- The arcs of the edges, in the order of the maps.
  abbrev successor_arcs : ℕ → Map (Option E) → List (Arc E)
  successor_arcs a [] = []
  successor_arcs a ((b, e) ∷ m) = record { source = a; target = b; label = e } ∷ successor_arcs a m

  abbrev all_arcs : Map (Map (Option E)) → List (Arc E)
  all_arcs [] = []
  all_arcs ((a, m) ∷ rest) = successor_arcs a m ++ all_arcs rest

  -- An arc stands in the output.
  abbrev pub Printed : Arc E → List (Arc E) → Type 0
  Printed x [] = ⊥
  Printed x (y ∷ ys) = (x ≡ y) ⊎ Printed x ys
