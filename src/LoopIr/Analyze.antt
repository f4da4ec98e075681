-- ===== src/LoopIr/Analyze.antt =====
-- `analyze_loop_ir` and `verify_loop_ir` of src/ir.cpp. An exception of `verify_loop_ir` is a
-- `throw`, and the plan that `analyze_loop_ir` caches in the `LoopIR` is part of the state it returns.
use text.Mathlib.Text.{◌==◌ as str_eq}
use sched_forge.Base.{
  ℕ, ◌+◌, ◌-◌, ◌^◌, max, Bool, true, false, not, ◌&&◌, ◌||◌, Option, none, some, List, [], ◌∷◌, any,
  foldl, ltb, ◌==◌, if◌then◌else◌,
}
use sched_forge.Base.Integers.{ℤ, pos, is_nonpositive, is_below}
use sched_forge.Base.Result.{Result, ok, throw, ◌>>=◌, ◌>>◌, throw_if}
use sched_forge.Schedule.{Problem, LoopExecutionPlan, ijk, ikj}
use sched_forge.LoopIr.Ops.{
  LoopOpKind, pack, prefetch, vector_load, fma, add_bias, relu, gelu, add_residual, vector_store,
  parallel_for, LoopOperation, operation, LoopBody, nil, cons, LoopIr, kind_of, fields_of, preorder,
  is_loop, is_store, is_fma, find_loop,
}

-- `std::numeric_limits<std::size_t>::max()`.
abbrev pub npos : ℕ
npos = 2 ^ 64 - 1

-- What the callback of the second traversal accumulates.
pub record Scan : Type 0 where
  pub traversal_index : ℕ
  pub kk_position : ℕ
  pub jj_position : ℕ
  pub pack_a : Bool
  pub pack_b : Bool
  pub prefetch_distance : ℕ
  pub gelu_seen : Bool
  pub residual_seen : Bool
  pub widest : ℕ

abbrev pub start_scan : Scan
start_scan = record {
  traversal_index = 0;
  kk_position = npos;
  jj_position = npos;
  pack_a = false;
  pack_b = false;
  prefetch_distance = 0;
  gelu_seen = false;
  residual_seen = false;
  widest = 1;
}

abbrev pub is_pack : LoopOpKind → Bool
is_pack pack = true
is_pack _ = false

abbrev pub is_prefetch : LoopOpKind → Bool
is_prefetch prefetch = true
is_prefetch _ = false

abbrev pub is_gelu : LoopOpKind → Bool
is_gelu gelu = true
is_gelu _ = false

abbrev pub is_add_residual : LoopOpKind → Bool
is_add_residual add_residual = true
is_add_residual _ = false

-- The kinds whose width counts.
abbrev pub is_vector : LoopOpKind → Bool
is_vector vector_load = true
is_vector vector_store = true
is_vector fma = true
is_vector _ = false

abbrev pub is_bias_or_relu : LoopOpKind → Bool
is_bias_or_relu add_bias = true
is_bias_or_relu relu = true
is_bias_or_relu _ = false

unfoldable pub scan_step : Scan → LoopOperation → Scan
scan_step s (operation kind f body) = record {
  traversal_index = s.traversal_index + 1;
  kk_position =
      if str_eq f.induction "kk" && (s.kk_position == npos)
      then s.traversal_index
      else s.kk_position;
  jj_position =
      if str_eq f.induction "jj" && (s.jj_position == npos)
      then s.traversal_index
      else s.jj_position;
  pack_a = if is_pack kind && str_eq f.source "%A" then true else s.pack_a;
  pack_b = if is_pack kind && str_eq f.source "%B" then true else s.pack_b;
  prefetch_distance = if is_prefetch kind then f.distance else s.prefetch_distance;
  gelu_seen = if is_gelu kind then true else s.gelu_seen;
  residual_seen = if is_add_residual kind then true else s.residual_seen;
  widest = if is_vector kind then max s.widest f.width else s.widest;
}

unfoldable pub scan : Scan → LoopBody → Scan
scan s body = foldl scan_step s (preorder body)

-- A field of the first loop with that induction variable, or a default where there is none.
abbrev pub step_or : ℕ → Option LoopOperation → ℤ
step_or d none = pos d
step_or d (some o) = (fields_of o).step

abbrev is_parallel : LoopOpKind → Bool
is_parallel parallel_for = true
is_parallel _ = false

abbrev pub threads_of : Option LoopOperation → ℕ
threads_of none = 1
threads_of (some o) = if is_parallel (kind_of o) then (fields_of o).threads else 1

abbrev pub pinned_of : Option LoopOperation → Bool
pinned_of none = false
pinned_of (some o) = (fields_of o).pinned

abbrev pub top_level : LoopBody → List LoopOperation
top_level nil = []
top_level (cons o body) = o ∷ top_level body

-- `top_level_epilogue`: a bias or ReLU outside every loop.
unfoldable pub has_epilogue : LoopBody → Bool
has_epilogue body = any (λ o. is_bias_or_relu (kind_of o)) (top_level body)

unfoldable pub plan_from :
    Problem → Scan → (ii jj kk i j k : Option LoopOperation) → Bool → LoopExecutionPlan
plan_from p s ii jj kk i j k top_level_epilogue =
    let bm = step_or p.m ii in
    let bn = step_or p.n jj in
    let bk = step_or p.k kk in
    record {
      order = if ltb s.kk_position s.jj_position then ikj else ijk;
      bm = bm;
      bn = bn;
      bk = bk;
      mr = step_or 1 i;
      nr = step_or 1 j;
      vector_width = s.widest;
      threads = threads_of ii;
      mc = bm;
      nc = bn;
      kc = bk;
      unroll_k = step_or 1 k;
      prefetch_distance = s.prefetch_distance;
      tiled = is_below bm p.m || is_below bn p.n || is_below bk p.k;
      fused = not top_level_epilogue;
      pack_a = s.pack_a;
      pack_b = s.pack_b;
      pin_threads = pinned_of ii;
      gelu = s.gelu_seen;
      residual = s.residual_seen;
    }

-- The plan computed from the operations, when none is cached.
unfoldable pub compute_plan : Problem → LoopBody → LoopExecutionPlan
unfolding plan_from
compute_plan p body =
    plan_from p (scan start_scan body) (find_loop body "ii") (find_loop body "jj")
      (find_loop body "kk") (find_loop body "i") (find_loop body "j") (find_loop body "k")
      (has_epilogue body)

unfoldable pub analyze_loop_ir : LoopIr → LoopExecutionPlan × LoopIr
analyze_loop_ir loop = elim loop.execution_plan [
  | some plan ↦ (plan, loop)
  | none ↦
      let plan = compute_plan loop.problem loop.operations in
      (plan, record loop { execution_plan = some plan })
]

-- The callback of `verify_loop_ir`: the flags `has_fma` and `has_store`, or the exception.
unfoldable pub verify_step : Bool × Bool → LoopOperation → Result (Bool × Bool)
verify_step (has_fma, has_store) (operation kind f body) = do
  throw_if (is_loop kind && is_nonpositive f.step) "LoopIR loop step must be positive"
  ok (is_fma kind || has_fma, is_store kind || has_store)

unfoldable pub verify_all : Bool × Bool → List LoopOperation → Result (Bool × Bool)
verify_all flags [] = ok flags
verify_all flags (o ∷ os) = verify_step flags o >>= λ flags'. verify_all flags' os

unfoldable pub verify_ops : LoopBody → Result (Unit {0})
unfolding verify_all verify_step
verify_ops nil = throw "LoopIR has no operations"
verify_ops (cons o body) = do
  (has_fma, has_store) ← verify_all (false, false) (preorder (cons o body))
  throw_if (not has_fma || not has_store) "LoopIR requires explicit FMA and store operations"

unfoldable pub verify_loop_ir : LoopIr → Result (Unit {0})
unfolding verify_ops
verify_loop_ir loop = verify_ops loop.operations
