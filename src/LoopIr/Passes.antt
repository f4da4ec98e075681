-- ===== src/LoopIr/Passes.antt =====
-- The passes of src/ir.cpp that rewrite a loop program: each analyses the program, changes some
-- fields of the schedule that the plan stands for, and builds the program again.
pub mod Effects
use sched_forge.Base.{ℕ, max, Bool, true, false}
use sched_forge.Base.Integers.{natural}
use sched_forge.Base.Result.{Result}
use sched_forge.Schedule.{
  LoopOrder, ijk, ikj, Problem, Schedule, default_schedule, LoopExecutionPlan,
}
use sched_forge.LoopIr.Ops.{LoopIr}
use sched_forge.LoopIr.Analyze.{analyze_loop_ir}
use sched_forge.LoopIr.Build.{apply_schedule}

-- The fields that every pass copies from the plan. A schedule has no negative field here: `apply_schedule`
-- raises each of these to 1 at least, so that one below 0 and a 0 stand for the same program.
abbrev pub schedule_of : LoopExecutionPlan → Schedule
schedule_of plan = record default_schedule {
  order = plan.order;
  tiled = plan.tiled;
  bm = natural plan.bm;
  bn = natural plan.bn;
  bk = natural plan.bk;
  mr = natural plan.mr;
  nr = natural plan.nr;
  vector_width = plan.vector_width;
  threads = plan.threads;
  unroll_k = natural plan.unroll_k;
  pack_a = plan.pack_a;
  pack_b = plan.pack_b;
  prefetch_distance = plan.prefetch_distance;
  fused = plan.fused;
  pin_threads = plan.pin_threads;
}

-- `LowerToLoopsPass`: the untransformed program of a problem.
abbrev pub untransformed : Schedule
untransformed = record default_schedule {
  order = ijk;
  tiled = false;
  vector_width = 1;
  mr = 1;
  nr = 1;
  fused = false;
}

unfoldable pub lower_to_loops : Problem → Result LoopIr
lower_to_loops p = apply_schedule p untransformed

unfoldable pub loop_interchange : LoopIr → Result LoopIr
loop_interchange loop =
    apply_schedule loop.problem (record (schedule_of (analyze_loop_ir loop).0) { order = ikj })

unfoldable pub loop_tiling : ℕ → ℕ → ℕ → LoopIr → Result LoopIr
loop_tiling bm bn bk loop =
    apply_schedule loop.problem (record (schedule_of (analyze_loop_ir loop).0) {
      tiled = true;
      bm = max 1 bm;
      bn = max 1 bn;
      bk = max 1 bk;
    })

unfoldable pub vectorize : ℕ → LoopIr → Result LoopIr
vectorize width loop =
    apply_schedule loop.problem (record (schedule_of (analyze_loop_ir loop).0) {
      nr = max 1 width;
      vector_width = max 1 width;
    })

unfoldable pub fusion : LoopIr → Result LoopIr
fusion loop =
    apply_schedule loop.problem (record (schedule_of (analyze_loop_ir loop).0) { fused = true })
