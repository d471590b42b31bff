-- ===== src/Andersen/Collect/Total.antt =====
-- andersen/lib/ConstraintCollect.cpp and andersen/lib/ExternalLibrary.cpp: on a well-formed module no
-- assertion of the phase fails. Ready says what a module is to have; the other children follow the
-- two files.
pub mod Ready
pub mod Nodes
pub mod Library
pub mod Calls
pub mod Sites
pub mod Instructions
pub mod Create
pub mod Addresses
pub mod Globals
pub mod Functions
pub mod Initial
pub mod Facts
pub mod Bodies
pub mod Whole
pub mod Returns
