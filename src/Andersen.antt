-- ===== src/Andersen.antt =====
-- andersen/: the points-to analysis. The children model its data and its phases.
pub mod Constraint
pub mod PtsSet
pub mod Graph
pub mod WorkList
pub mod Solve
pub mod Alias
pub mod Collapse
pub mod Code
pub mod Collect
pub mod Run
