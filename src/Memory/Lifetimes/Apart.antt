-- ===== src/Memory/Lifetimes/Apart.antt =====
-- The lifetimes that `GraphBufferizer::run` (src/graph_compiler.cpp) finds, and the workspace of a whole
-- graph.
use sched_forge.Base.{◌≡◌, true, some}
use sched_forge.Base.Result.{ok}
use sched_forge.Graph.Types.{constant, GraphValue, TensorGraph}
use sched_forge.Memory.Lifetimes.{Lifetimes, producer_kind}

-- A value that a constant operation makes is marked as a constant.
abbrev pub IsMarked : TensorGraph → GraphValue → Type 0
IsMarked g value = producer_kind g value ≡ ok (some constant) → value.constant ≡ true
