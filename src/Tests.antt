-- ===== src/Tests.antt =====
-- The examples, one for each theorem that has hypotheses, at an input that exercises the code.
mod Placing
mod Graphs
mod Control
mod Builder
mod Reading
mod Cutting
mod Merging
mod Creating
mod Solving
mod Aliasing
mod Collapsing
mod Memory
mod Collecting
mod Returning
