-- ===== src/Tests/Memory.antt =====
-- andersen/lib/AndersenAA.cpp, `pointsToConstantMemory`: an example.
use programslicer.Common.{ℕ, Bool, List, [], ◌∷◌, ◌==◌}
use programslicer.NodeFactory.{AndersNodeFactory, new_factory, anders_node, value_node, obj_node}
use programslicer.Andersen.Constraint.{AndersConstraint, addr_of, constraint}
use programslicer.Andersen.Constraint.Derives.{Derives}
use programslicer.Andersen.Alias.{Location}

-- The pointer 10, with the node 4, points to null and to the object of the constant global 11.
abbrev factory : AndersNodeFactory
factory = record new_factory {
  nodes =
      anders_node value_node 0 0
      ∷ anders_node obj_node 1 0
      ∷ anders_node value_node 2 0
      ∷ anders_node obj_node 3 0
      ∷ anders_node value_node 4 10
      ∷ anders_node obj_node 5 11
      ∷ [];
  value_node_map = (10, 4) ∷ [];
}

abbrev program : List AndersConstraint
program = constraint addr_of 4 3 ∷ constraint addr_of 4 5 ∷ []

abbrev is_eleven : ℕ → Bool
is_eleven v = v == 11

abbrev location : Location
location = record { ptr = 10; size = 4 }
