-- ===== src/Slice.antt =====
-- BackSlice.cpp, ForwardSlice.cpp: the two slicing passes.
pub mod Mark
pub mod Input
pub mod Remove
pub mod Run
