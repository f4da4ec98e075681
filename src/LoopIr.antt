-- ===== src/LoopIr.antt =====
-- The explicit loop IR: `LoopOperation` trees of include/schedforge/schedforge.h and src/ir.cpp.
pub mod Ops
pub mod Analyze
pub mod Verify
pub mod Build
pub mod Passes
pub mod Epilogue
