-- ===== src/Sdg.antt =====
-- SDG.h, SDG.cpp: the system dependence graph.
pub mod Edge
pub mod Node
pub mod State
pub mod Control
pub mod Calls
pub mod Data
pub mod Pointer
pub mod Build
pub mod Keeps
pub mod Shape
pub mod Complete
