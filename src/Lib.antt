-- ===== src/Lib.antt =====
-- The program slicer: LLVM passes that build a system dependence graph of a module and cut the
-- module down to what a criterion depends on, or what depends on it.
--
-- Parts, and the files that model them:
--   Ir             the part of an LLVM module that the passes read; a pointer is a number, null is 0
--   DirectedGraph  DirectedGraph.h, the graph of all the passes, with its printer in DirectedGraph/Dot
--   Cdg            CDG.h and CDG.cpp: control dependence of the blocks of a function
--   Sdg            SDG.h and SDG.cpp: Sdg/Edge and Sdg/Node for the attributes, nodes and edges,
--                  Sdg/State for the members of the class, Sdg/Control, Sdg/Calls, Sdg/Data and
--                  Sdg/Pointer for the four steps of `SDG::runOnModule`, and Sdg/Build for the whole
--   Slice          BackSlice.cpp and ForwardSlice.cpp: Slice/Input for `readInit`, Slice/Mark for
--                  `markVertices…` and `markReachingVertices…`, Slice/Remove for `sliceModule`, and
--                  Slice/Run for `runOnModule`
--   NodeFactory    andersen/include/NodeFactory.h and andersen/lib/NodeFactory.cpp: the nodes of the
--                  points-to analysis; NodeFactory/Create on their creation, NodeFactory/Merge,
--                  NodeFactory/Target and NodeFactory/Depth on their merging
--   Andersen       the analysis over these nodes: Andersen/Constraint for include/Constraint.h, with what a
--                  constraint says in its children, Andersen/PtsSet for include/PtsSet.h, and
--                  Andersen/Graph, Andersen/WorkList and Andersen/Solve for lib/ConstraintSolving.cpp;
--                  the children of Andersen/Solve follow the steps of `solveConstraints`;
--                  Andersen/Collapse for `collapseNodes` of that file, which the cycle detections use;
--                  Andersen/Code for the part of a module that the collection of the constraints
--                  reads, and Andersen/Collect for lib/ConstraintCollect.cpp and
--                  lib/ExternalLibrary.cpp, with a child for each function of these files, and with
--                  Valid, Created, Keeps, Places, Demands, Linked, Returned, Passed, Indirect, Complete and
--                  Sound on what is collected, and Total on that it returns;
--                  Andersen/Alias for lib/AndersenAA.cpp and `Andersen::getPointsToSet`, and
--                  Andersen/Run for `Andersen::runOnModule`
--   Common         lists, options, the loops, and `std::set` and `std::map` as sorted lists
--   Tests          an example for each theorem that has hypotheses
--
-- SDG asks CDG for the control dependences of each function and the alias analysis for the alias
-- sets of the stores. The two slicers ask SDG for its graph and its maps of nodes, mark nodes, and
-- remove from the module what is not marked. An operation has its name of the source in snake case.
-- Where C++ creates an entry of a map by reading it, the model does too. A failed assertion, a null
-- dereference, and fuel that ran out are all `none`.
--
-- Bounds: `markReachingVertices…` has as many rounds as the graph has nodes and the worklist
-- elements, since every round marks a node; `CDG::runOnFunction` climbs the tree at most as often
-- as the function has blocks, plus one; the loops of `readInit` and of `getMergeTarget` have a number
-- of rounds that is given. `solveConstraints` goes on for as many rounds as there are pairs of nodes
-- for edges, pairs for elements of points-to sets, and nodes in the first work list: a round takes a
-- node off, and a node is put on with a new edge or element. The solver uses `getMergeTarget`
-- through the interface `MergeTargets` of Andersen/Solve/State, which Andersen/Solve/Factory fills.
--
-- Parameters: LLVM's post-dominator tree, its casts, types and own alias answers, the alias sets, and
-- the addresses of the nodes (`Placement`). Not modelled: the messages, the debug printing, the range
-- analysis, whose result is not read, the two optional
-- cycle detections of the solver (enable-hcd and enable-lcd, off by default), the optimisation of the
-- constraints between collection and solving (enable-hvn and enable-hu, off by default too), the
-- copy of another analysis in ptranalysis/, and PA/, which nothing uses. The index of a new node is
-- not cut to 32 bits, which 2^32 nodes would take.
pub mod Common
pub mod Ir
pub mod DirectedGraph
pub mod Cdg
pub mod Sdg
pub mod Slice
pub mod NodeFactory
pub mod Andersen
pub mod Tests
