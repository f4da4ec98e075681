-- ===== src/Lib.antt =====
-- SchedForge: a verification library of the scheduling compiler.
--
-- The program lowers a matrix product with an optional bias and ReLU into an explicit loop program
-- (LoopIR) under a schedule, analyses and transforms that program, plans the memory of single
-- kernels and of whole tensor graphs, plans the tasks of mixture-of-experts layers, and estimates
-- cache behaviour with a simulator. The parts, each with its file:
--
-- - Schedule: the records of include/schedforge/schedforge.h and the register pressure of
--   src/target.cpp.
-- - LoopIr: src/ir.cpp. Ops has the operation tree (`LoopOperation`, two types in a mutual block)
--   with `visit` (preorder) and `find_loop`; Analyze has `analyze_loop_ir`, which returns the plan
--   and the program with the plan cached in it, and `verify_loop_ir`; Build has `apply_schedule`,
--   whose lambdas and branches are its definitions; Epilogue has the member functions that change a
--   program; Passes has the five passes. Epilogue/Levels lists the operations of a tree with their
--   depths. Verify, Build/*, Passes/Effects and Epilogue/* have the proofs.
-- - Transform: `TransformProgram` of src/graph_compiler.cpp, whose `replay` folds over the
--   operations and whose `apply` calls `apply_schedule`.
-- - Graph: the tensor graph of include/schedforge/graph_compiler.h and the functions of
--   src/graph_compiler.cpp that build it, with Graph/Build/* for the def-use chains and for what a
--   call that throws leaves; Graph/Fusion is the legality test of `FusionPlanner` and its loop that
--   collects a dispatch, Graph/Planner its whole `run`; Graph/Shapes is `ShapeInferencePass`.
-- - Memory: Planner is `MemoryPlanner` of src/compiler.cpp, Lifetimes and Slots the two halves of
--   `GraphBufferizer::run` of src/graph_compiler.cpp; all use the byte ranges and lifetimes of
--   Ranges.
-- - Simulator: `Cache` and `Hierarchy` of src/simulator.cpp.
-- - Moe: `bucket_for` and `plan_moe_tasks` of src/moe_compiler.cpp.
-- - Attention: Layout has `validate_config` and the index functions of src/attention_compiler.cpp,
--   Plan has `select_attention_plan`.
-- - Serving: KvCache has the contiguous cache of src/attention_compiler.cpp, PagedKv the paged one
--   of src/next_milestones.cpp with its allocator of pages. Pages and Invariant say which pages are
--   in use, Calls and Reachable what the calls do to them, Offsets, Stores, Rounds and Reads where
--   an element stands, Contents and Refinement what the cache holds for its users, Gather when it
--   can be gathered.
-- - GenericIr: src/generic_ir.cpp with its values, operations and blocks in a store; Builder is
--   `IRBuilder`, Uses and Replacing the use lists, Programs what a sequence of calls makes.
-- - Runtime: ThreadTeam of src/runtime.cpp as interleaved steps of its threads.
-- - Search: the candidates of src/autoscheduler.cpp and the test on them, with the target as an
--   argument.
-- - Numeric: the bf16 conversions of src/compiler.cpp on bit patterns, sums modulo 2 ^ 32.
-- - Dynamic: the buckets of the dynamic dispatcher of src/compiler.cpp.
-- - Base: lists, predicates, text, integers and the result type that the parts share.
-- - Examples: the theorems at concrete inputs.
--
-- Exceptions are `throw` results, indices natural numbers, an index of -1 `none`. An `int` or
-- `size_t` is a natural number: extents, tiles and byte counts are meant to be non-negative and far
-- below the machine bounds, so that no sum here wraps around. The step of a loop, the fields of a
-- plan that are copied from it, and the arguments of the paged cache whose sign is tested are an
-- `ℤ` of Base/Integers. Byte ranges are half open. A `std::vector` is a list, a
-- `std::unordered_map` the list of its entries. The loop of `chunks` runs on fuel, one unit for
-- each token of the expert, which is enough because a round takes at least one token, and that of
-- `grow` one unit for each operation of the graph, which is enough because a round moves on by one;
-- the loops that move a page have one unit of fuel for each page that they may move; every other
-- loop is structural recursion.
--
-- Not modelled: floating-point kernels and cost estimates, timing, the threads of the kernels, the
-- calls of LLVM, file and process input and output, printing, and the subsystems that only compose
-- these (the decoder, attention and AOT executors, the command-line tools).
pub mod Base
pub mod Schedule
pub mod LoopIr
pub mod Transform
pub mod Memory
pub mod Graph
pub mod Simulator
pub mod Moe
pub mod Attention
mod Examples
pub mod Serving
pub mod GenericIr
pub mod Runtime
pub mod Numeric
pub mod Search
pub mod Dynamic
