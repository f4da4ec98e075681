-- ===== src/LoopIr/Build/Plan.antt =====
-- The execution plan of a scheduled loop nest, field by field.
use sched_forge.Base.{
  String, ◌≡◌, refl, max, Bool, true, false, not, ◌&&◌, ◌||◌, ltb, ◌==◌, if◌then◌else◌, Bool-cases,
  inl, inr, arith,
}
use sched_forge.Base.Integers.{pos}
use sched_forge.Schedule.{LoopExecutionPlan, Problem, Schedule, ijk, ikj}
use sched_forge.LoopIr.Ops.{for_loop, parallel_for, LoopBody, nil, cons, append}
use sched_forge.LoopIr.Analyze.{compute_plan, is_bias_or_relu, has_epilogue}
use sched_forge.LoopIr.Build.{
  buffer_ops, element_loops, scalar_loops, separate_epilogue, scheduled_operations, width,
  scalar_nest, is_ikj, tile_m, tile_n, tile_k,
}
use sched_forge.LoopIr.Build.Scans.{scan-scheduled_operations}
use sched_forge.LoopIr.Build.Finds.{find_loop-scheduled_operations}

has_epilogue-append :
    (a b : LoopBody) → has_epilogue (append a b) ≡ (has_epilogue a || has_epilogue b)
unfolding has_epilogue
has_epilogue-append nil b = refl
has_epilogue-append (cons o a) b = ground (arith, has_epilogue-append a b)

has_epilogue-buffer_ops :
    (enabled : Bool) (a b c : String) → has_epilogue (buffer_ops enabled a b c) ≡ false
unfolding has_epilogue buffer_ops
has_epilogue-buffer_ops true a b c = refl
has_epilogue-buffer_ops false a b c = refl

outer_kind : (b : Bool) → is_bias_or_relu (if b then parallel_for else for_loop) ≡ false
outer_kind true = refl
outer_kind false = refl

module _ (p : Problem) (s : Schedule) where
  has_epilogue-nest :
      (b : Bool) (rest : LoopBody)
      → has_epilogue (cons (if b then scalar_loops p s else element_loops p s) rest)
        ≡ has_epilogue rest
  unfolding has_epilogue scalar_loops element_loops
  has_epilogue-nest true rest = rw (outer_kind (ltb 1 s.threads))
  has_epilogue-nest false rest = rw (outer_kind (ltb 1 s.threads))

  has_epilogue-separate_epilogue :
      has_epilogue (separate_epilogue p s)
      ≡ ((not s.fused || is_ikj s.order && (width p s == 1)) && (p.bias || p.relu))
  unfolding has_epilogue separate_epilogue
  has_epilogue-separate_epilogue =
      elim (Bool-cases (not s.fused || is_ikj s.order && (width p s == 1))) [
        | inl e ↦ rw e (ground arith)
        | inr e ↦ rw e (ground arith)
      ]

  has_epilogue-scheduled_operations :
      has_epilogue (scheduled_operations p s)
      ≡ ((not s.fused || is_ikj s.order && (width p s == 1)) && (p.bias || p.relu))
  unfolding scheduled_operations
  has_epilogue-scheduled_operations = simp (
    has_epilogue-append, has_epilogue-buffer_ops, has_epilogue-nest, has_epilogue-separate_epilogue,
  )

  -- The plan that a schedule stands for.
  abbrev pub effective_plan : LoopExecutionPlan
  effective_plan =
      let bm = max 1 (tile_m p s) in
      let bn = max 1 (tile_n p s) in
      let bk = max 1 (tile_k p s) in
      let w = width p s in
      record {
        order = if scalar_nest p s then ikj else ijk;
        bm = pos bm;
        bn = pos bn;
        bk = pos bk;
        mr = pos (if scalar_nest p s then 1 else if ltb 1 w then max 1 s.mr else 1);
        nr = pos (if scalar_nest p s then 1 else if ltb 1 w then max w s.nr else 1);
        vector_width = w;
        threads = max 1 s.threads;
        mc = pos bm;
        nc = pos bn;
        kc = pos bk;
        unroll_k = pos (max 1 s.unroll_k);
        prefetch_distance = s.prefetch_distance;
        tiled = ltb bm p.m || ltb bn p.n || ltb bk p.k;
        fused = not ((not s.fused || is_ikj s.order && (w == 1)) && (p.bias || p.relu));
        pack_a = s.pack_a;
        pack_b = s.pack_b;
        pin_threads = s.pin_threads;
        gelu = false;
        residual = false;
      }

  -- The analysis of the tree that `apply_schedule` builds returns the effective plan of the schedule.
  pub compute_plan-scheduled_operations : compute_plan p (scheduled_operations p s) ≡ effective_plan
  unfolding compute_plan
  compute_plan-scheduled_operations =
      let a = scan-scheduled_operations p s in
      let f = find_loop-scheduled_operations p s in
      rw (
        has_epilogue-scheduled_operations, a.order_lem, a.pack_a_lem, a.pack_b_lem, a.prefetch_lem,
        a.gelu_lem, a.residual_lem, a.widest_lem, f.ii_step, f.ii_threads, f.ii_pinned, f.jj_step,
        f.kk_step, f.i_step, f.j_step, f.k_step,
      )
