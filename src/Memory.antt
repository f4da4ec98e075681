-- ===== src/Memory.antt =====
-- Where buffers are put in the arena: the kernel planner (src/compiler.cpp) and the slots of the graph
-- bufferizer (src/graph_compiler.cpp), against one notion of buffers that may not share bytes.
pub mod Ranges
pub mod Planner
pub mod Slots
pub mod Lifetimes
