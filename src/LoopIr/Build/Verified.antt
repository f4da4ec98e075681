-- ===== src/LoopIr/Build/Verified.antt =====
-- The operations that occur in a scheduled loop nest, and `verify_loop_ir` on it (src/ir.cpp).
use sched_forge.Base.{
  String, ◌≡◌, refl, Bool, true, false, not, ◌&&◌, ◌||◌, some, ◌==◌, if◌then◌else◌, Bool-cases, inl,
  inr, arith,
}
use sched_forge.Base.Result.{ok}
use sched_forge.Schedule.{Problem, Schedule}
use sched_forge.LoopIr.Ops.{nil, cons}
use sched_forge.LoopIr.Analyze.{verify_ops, verify_loop_ir, analyze_loop_ir}
use sched_forge.LoopIr.Verify.{
  occurs, occurs-nil, occurs-cons, occurs-append, is_stuck_loop, is_fma_op, is_store_op,
  verify_ops_iff,
}
use sched_forge.LoopIr.Build.{
  buffer_ops, reduction_body, epilogue, element_body, element_loops, scalar_loops,
  separate_epilogue, scheduled_operations, apply_schedule, width, is_ikj,
}
use sched_forge.LoopIr.Build.Plan.{effective_plan, compute_plan-scheduled_operations}

ruleset occurrences = (occurs-nil, occurs-cons, occurs-append)

stuck-buffer_ops :
    (enabled : Bool) (a b c : String) → occurs is_stuck_loop (buffer_ops enabled a b c) ≡ false
unfolding occurs buffer_ops
stuck-buffer_ops true a b c = refl
stuck-buffer_ops false a b c = refl

module _ (p : Problem) (s : Schedule) where
  stuck-reduction_body : occurs is_stuck_loop (reduction_body p s) ≡ false
  unfolding occurs reduction_body
  stuck-reduction_body = ground arith

  fma-reduction_body : occurs is_fma_op (reduction_body p s) ≡ true
  unfolding occurs reduction_body
  fma-reduction_body = ground arith

  stuck-epilogue : (b : Bool) → occurs is_stuck_loop (if b then epilogue p s else nil) ≡ false
  unfolding occurs epilogue
  stuck-epilogue true = ground arith
  stuck-epilogue false = refl

  stuck-separate_epilogue : occurs is_stuck_loop (separate_epilogue p s) ≡ false
  unfolding occurs separate_epilogue
  stuck-separate_epilogue = elim (Bool-cases (not s.fused || is_ikj s.order && (width p s == 1))) [
    | inl e ↦ rw e (ground arith)
    | inr e ↦ rw e
  ]

  stuck-nest :
      (b : Bool)
      → occurs is_stuck_loop
          (cons (if b then scalar_loops p s else element_loops p s) (separate_epilogue p s))
        ≡ false
  unfolding scalar_loops element_loops element_body
  stuck-nest true = simp (occurrences, stuck-reduction_body, stuck-separate_epilogue) (ground arith)
  stuck-nest false =
      simp (occurrences, stuck-reduction_body, stuck-epilogue, stuck-separate_epilogue)
        (ground arith)

  fma-nest :
      (b : Bool)
      → occurs is_fma_op
          (cons (if b then scalar_loops p s else element_loops p s) (separate_epilogue p s))
        ≡ true
  unfolding scalar_loops element_loops element_body
  fma-nest true = simp (occurrences, fma-reduction_body) (ground arith)
  fma-nest false = simp (occurrences, fma-reduction_body) (ground arith)

  store-nest :
      (b : Bool)
      → occurs is_store_op
          (cons (if b then scalar_loops p s else element_loops p s) (separate_epilogue p s))
        ≡ true
  unfolding scalar_loops element_loops element_body
  store-nest true = simp occurrences (ground arith)
  store-nest false = simp occurrences (ground arith)

  -- The built tree has no loop of step 0 or below, and holds an FMA and a store.
  pub verify_ops-scheduled_operations : verify_ops (scheduled_operations p s) ≡ ok tt
  unfolding scheduled_operations
  verify_ops-scheduled_operations = (verify_ops_iff _).1 (
    simp (occurs-append, stuck-buffer_ops, stuck-nest),
    simp (occurs-append, fma-nest) (ground arith),
    simp (occurs-append, store-nest) (ground arith),
  )

  -- `apply_schedule` never throws: its tree passes the verifier, and carries the plan it stands for.
  pub apply_schedule-eq-ok :
      apply_schedule p s
      ≡ ok (record {
        problem = p;
        operations = scheduled_operations p s;
        execution_plan = some (effective_plan p s);
      })
  unfolding apply_schedule verify_loop_ir analyze_loop_ir
  apply_schedule-eq-ok = rw (verify_ops-scheduled_operations, compute_plan-scheduled_operations)
