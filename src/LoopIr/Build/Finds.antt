-- ===== src/LoopIr/Build/Finds.antt =====
-- The loops that `find_loop` finds in a scheduled loop nest.
use Prim.Native.String.{String}
use sched_forge.Base.{
  arith, ◌≡◌, refl, sym, subst, fun_ext, max, Bool, true, false, Option, ltb, if◌then◌else◌,
  Bool-cases, inl, inr,
}
use sched_forge.Base.Integers.{pos}
use sched_forge.Schedule.{Problem, Schedule}
use sched_forge.LoopIr.Ops.{LoopOperation, LoopBody, cons, append, find_loop}
use sched_forge.LoopIr.Analyze.{step_or, threads_of, pinned_of}
use sched_forge.LoopIr.Build.{
  buffer_ops, element_loops, scalar_loops, separate_epilogue, scheduled_operations, width,
  scalar_nest, element_body, tile_m, tile_n, tile_k,
}

find_loop-buffer_ops :
    (enabled : Bool) (a b c : String) (rest : LoopBody) (x : String)
    → find_loop (append (buffer_ops enabled a b c) rest) x ≡ find_loop rest x
unfolding buffer_ops
find_loop-buffer_ops true a b c rest x = refl
find_loop-buffer_ops false a b c rest x = refl

module _ (p : Problem) (s : Schedule) where
  -- What the plan takes from the six loops.
  pub record Found (find : String → Option LoopOperation) : Type 0 where
    pub ii_step : step_or p.m (find "ii") ≡ pos (max 1 (tile_m p s))
    pub ii_threads : threads_of (find "ii") ≡ max 1 s.threads
    pub ii_pinned : pinned_of (find "ii") ≡ s.pin_threads
    pub jj_step : step_or p.n (find "jj") ≡ pos (max 1 (tile_n p s))
    pub kk_step : step_or p.k (find "kk") ≡ pos (max 1 (tile_k p s))
    pub i_step :
        step_or 1 (find "i")
        ≡ pos (if scalar_nest p s then 1 else if ltb 1 (width p s) then max 1 s.mr else 1)
    pub j_step :
        step_or 1 (find "j")
        ≡ pos (if scalar_nest p s then 1 else if ltb 1 (width p s) then max (width p s) s.nr else 1)
    pub k_step : step_or 1 (find "k") ≡ pos (max 1 s.unroll_k)

  Found-buffer_ops :
      (enabled : Bool) (a b c : String) (rest : LoopBody)
      → Found (find_loop rest)
      → Found (find_loop (append (buffer_ops enabled a b c) rest))
  Found-buffer_ops enabled a b c rest f =
      subst Found (fun_ext (λ x. sym (find_loop-buffer_ops enabled a b c rest x))) f

  Found-nest :
      (b : Bool)
      → scalar_nest p s ≡ b
      → Found (
          find_loop
            (cons (if b then scalar_loops p s else element_loops p s) (separate_epilogue p s)))
  unfolding scalar_loops element_loops element_body
  Found-nest true e = elim (Bool-cases (ltb 1 s.threads)) [
    | inl t ↦ rw t (ground arith)
    | inr t ↦ rw t (ground arith)
  ]
  Found-nest false e = elim (Bool-cases (ltb 1 s.threads)) [
    | inl t ↦ rw t (ground arith)
    | inr t ↦ rw t (ground arith)
  ]

  pub find_loop-scheduled_operations : Found (find_loop (scheduled_operations p s))
  unfolding scheduled_operations
  find_loop-scheduled_operations =
      Found-buffer_ops _ _ _ _ _ (Found-buffer_ops _ _ _ _ _ (Found-nest (scalar_nest p s) refl))
