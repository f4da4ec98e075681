-- ===== src/Runtime.antt =====
-- The parts of src/runtime.cpp that are not kernels.
pub mod ThreadTeam
