-- ===== src/Graph.antt =====
-- The tensor graph of include/schedforge/graph_compiler.h and src/graph_compiler.cpp.
pub mod Types
pub mod Build
pub mod Fusion
pub mod Shapes
pub mod Planner
