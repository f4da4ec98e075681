-- ===== src/LoopIr/Passes/Effects.antt =====
-- What each pass does to the execution plan of a scheduled program.
use sched_forge.Base.{
  ℕ, ◌≡◌, ◌≤◌, refl, sym, ap, ◌∙◌, max, Bool, true, false, not, ◌&&◌, ◌||◌, ltb, ◌==◌,
  if◌then◌else◌, arith,
}
use sched_forge.Base.Integers.{pos}
use sched_forge.Base.Result.{Result, ok, ◌>>=◌}
use sched_forge.Schedule.{Problem, Schedule, LoopExecutionPlan, ijk, ikj}
use sched_forge.LoopIr.Ops.{LoopIr}
use sched_forge.LoopIr.Analyze.{analyze_loop_ir}
use sched_forge.LoopIr.Build.{apply_schedule, scalar_nest, width, tile_m, tile_n, tile_k}
use sched_forge.LoopIr.Build.Plan.{effective_plan}
use sched_forge.LoopIr.Build.Verified.{apply_schedule-eq-ok}
use sched_forge.LoopIr.Passes.{schedule_of, loop_interchange, loop_tiling, vectorize, fusion}

-- The plan that a pass leaves behind, after the schedule `s` was applied to `p`.
abbrev pub plan_after : (LoopIr → Result LoopIr) → Problem → Schedule → Result LoopExecutionPlan
plan_after pass p s =
    apply_schedule p s >>= λ loop. pass loop >>= λ loop'. ok (analyze_loop_ir loop').0

-- A tile that a plan gives back is built again as it was, if the plan is tiled.
tile_again :
    (t : Bool) (m b : ℕ) → 1 ≤ b → max 1 (if t then max 1 b else m) ≡ (if t then b else max 1 m)
tile_again true m b h = omega arith
tile_again false m b h = refl

tiled_again :
    (m n k bm bn bk : ℕ) (t : Bool)
    → t ≡ (ltb bm m || ltb bn n || ltb bk k)
    → (ltb (if t then bm else max 1 m) m
        || ltb (if t then bn else max 1 n) n
        || ltb (if t then bk else max 1 k) k)
      ≡ t
tiled_again m n k bm bn bk true h = sym h
tiled_again m n k bm bn bk false h = ground arith

module _ (p : Problem) (s : Schedule) where
  abbrev before : LoopExecutionPlan
  before = effective_plan p s

  tiling_plan :
      (bm bn bk : ℕ)
      → effective_plan p (record (schedule_of before) {
        tiled = true;
        bm = max 1 bm;
        bn = max 1 bn;
        bk = max 1 bk;
      })
        ≡ record before {
          bm = pos (max 1 bm);
          bn = pos (max 1 bn);
          bk = pos (max 1 bk);
          mc = pos (max 1 bm);
          nc = pos (max 1 bn);
          kc = pos (max 1 bk);
          tiled = ltb (max 1 bm) p.m || ltb (max 1 bn) p.n || ltb (max 1 bk) p.k;
        }
  tiling_plan bm bn bk = ground arith

  -- A pass that keeps the tiles of an untiled plan replaces them by the extents.
  abbrev clamped_m : ℕ
  clamped_m = if before.tiled then max 1 (tile_m p s) else max 1 p.m

  abbrev clamped_n : ℕ
  clamped_n = if before.tiled then max 1 (tile_n p s) else max 1 p.n

  abbrev clamped_k : ℕ
  clamped_k = if before.tiled then max 1 (tile_k p s) else max 1 p.k

  abbrev clamped : LoopExecutionPlan
  clamped = record before {
    bm = pos clamped_m;
    bn = pos clamped_n;
    bk = pos clamped_k;
    mc = pos clamped_m;
    nc = pos clamped_n;
    kc = pos clamped_k;
  }

  module _ (changed : Schedule)
      (keeps : (changed.tiled ≡ before.tiled)
        × (changed.bm ≡ max 1 (tile_m p s))
        × (changed.bn ≡ max 1 (tile_n p s))
        × (changed.bk ≡ max 1 (tile_k p s))) where
    bm_again : max 1 (tile_m p changed) ≡ clamped_m
    bm_again =
        rw (keeps.0, keeps.1) (tile_again before.tiled p.m (max 1 (tile_m p s)) (omega arith))

    bn_again : max 1 (tile_n p changed) ≡ clamped_n
    bn_again =
        rw (keeps.0, keeps.2) (tile_again before.tiled p.n (max 1 (tile_n p s)) (omega arith))

    bk_again : max 1 (tile_k p changed) ≡ clamped_k
    bk_again =
        rw (keeps.0, keeps.3) (tile_again before.tiled p.k (max 1 (tile_k p s)) (omega arith))

    clamped_tiled :
        (ltb (max 1 (tile_m p changed)) p.m
          || ltb (max 1 (tile_n p changed)) p.n
          || ltb (max 1 (tile_k p changed)) p.k)
        ≡ before.tiled
    clamped_tiled =
        rw (bm_again, bn_again, bk_again)
          (tiled_again p.m p.n p.k (max 1 (tile_m p s)) (max 1 (tile_n p s)) (max 1 (tile_k p s))
            before.tiled refl)

    pub rebuilt : effective_plan p changed ≡ record (effective_plan p changed) {
      bm = clamped.bm;
      bn = clamped.bn;
      bk = clamped.bk;
      mc = clamped.bm;
      nc = clamped.bn;
      kc = clamped.bk;
      tiled = before.tiled;
    }
    rebuilt = λ i. record (effective_plan p changed) {
      bm = pos (bm_again i);
      bn = pos (bn_again i);
      bk = pos (bk_again i);
      mc = pos (bm_again i);
      nc = pos (bn_again i);
      kc = pos (bk_again i);
      tiled = clamped_tiled i;
    }

  -- The two plans compared on the fields that `rebuilt` leaves.
  assemble :
      (changed : Schedule) (target : LoopExecutionPlan)
      → effective_plan p changed ≡ record (effective_plan p changed) {
        bm = target.bm;
        bn = target.bn;
        bk = target.bk;
        mc = target.mc;
        nc = target.nc;
        kc = target.kc;
        tiled = target.tiled;
      }
      → (effective_plan p changed).order ≡ target.order
      → (effective_plan p changed).mr ≡ target.mr
      → (effective_plan p changed).nr ≡ target.nr
      → (effective_plan p changed).vector_width ≡ target.vector_width
      → (effective_plan p changed).threads ≡ target.threads
      → (effective_plan p changed).unroll_k ≡ target.unroll_k
      → (effective_plan p changed).fused ≡ target.fused
      → (changed.prefetch_distance ≡ target.prefetch_distance)
        × (changed.pack_a ≡ target.pack_a)
        × (changed.pack_b ≡ target.pack_b)
        × (changed.pin_threads ≡ target.pin_threads)
        × (target.gelu ≡ false)
        × (target.residual ≡ false)
      → effective_plan p changed ≡ target
  assemble changed target e order mr nr w threads unroll fused rest = e ∙ λ i. record {
    order = order i;
    bm = target.bm;
    bn = target.bn;
    bk = target.bk;
    mr = mr i;
    nr = nr i;
    vector_width = w i;
    threads = threads i;
    mc = target.mc;
    nc = target.nc;
    kc = target.kc;
    unroll_k = unroll i;
    prefetch_distance = rest.0 i;
    tiled = target.tiled;
    fused = fused i;
    pack_a = rest.1 i;
    pack_b = rest.2 i;
    pin_threads = rest.3 i;
    gelu = sym rest.4 i;
    residual = sym rest.5 i;
  }

  abbrev pub fused_plan : LoopExecutionPlan
  fused_plan = record clamped { fused = not (scalar_nest p s && (p.bias || p.relu)) }

  fusion_plan : effective_plan p (record (schedule_of before) { fused = true }) ≡ fused_plan
  fusion_plan =
      assemble (record (schedule_of before) { fused = true }) fused_plan
        (rebuilt (record (schedule_of before) { fused = true }) (refl, refl, refl, refl))
        (ground arith) (ground arith) (ground arith) (ground arith) (ground arith) (ground arith)
        (ground arith) (refl, refl, refl, refl, refl, refl)

  abbrev pub vectorized_plan : ℕ → LoopExecutionPlan
  vectorized_plan w = record clamped {
    order = if scalar_nest p s && (max 1 w == 1) then ikj else ijk;
    mr = if ltb 1 w then before.mr else pos 1;
    nr = pos (max 1 w);
    vector_width = max 1 w;
  }

  vectorize_plan :
      (w : ℕ)
      → effective_plan p (record (schedule_of before) { nr = max 1 w; vector_width = max 1 w })
        ≡ vectorized_plan w
  vectorize_plan w =
      assemble (record (schedule_of before) { nr = max 1 w; vector_width = max 1 w })
        (vectorized_plan w)
        (rebuilt (record (schedule_of before) { nr = max 1 w; vector_width = max 1 w })
          (refl, refl, refl, refl))
        (ground arith) (ground arith) (ground arith) (ground arith) (ground arith) (ground arith)
        (ground arith) (refl, refl, refl, refl, refl, refl)

  abbrev pub interchanged_plan : LoopExecutionPlan
  interchanged_plan = record clamped {
    order = if (width p s == 1) && not s.pack_a && not s.pack_b then ikj else ijk;
    fused = before.fused && not ((width p s == 1) && (p.bias || p.relu));
  }

  interchange_plan :
      effective_plan p (record (schedule_of before) { order = ikj }) ≡ interchanged_plan
  interchange_plan =
      assemble (record (schedule_of before) { order = ikj }) interchanged_plan
        (rebuilt (record (schedule_of before) { order = ikj }) (refl, refl, refl, refl))
        (ground arith) (ground arith) (ground arith) (ground arith) (ground arith) (ground arith)
        (ground arith) (refl, refl, refl, refl, refl, refl)

  after_pass :
      (pass : LoopIr → Result LoopIr) (t : LoopExecutionPlan → Schedule)
      → ((loop : LoopIr) → pass loop ≡ apply_schedule loop.problem (t (analyze_loop_ir loop).0))
      → plan_after pass p s ≡ ok (effective_plan p (t before))
  unfolding analyze_loop_ir
  after_pass pass t is_pass =
      rw (apply_schedule-eq-ok p s, is_pass, apply_schedule-eq-ok p (t before))

  -- On a program fresh from `apply_schedule`, tiling replaces the tiles of the plan, decides anew whether
  -- they tile, and changes nothing else of the plan.
  pub loop_tiling-plan :
      (bm bn bk : ℕ)
      → plan_after (loop_tiling bm bn bk) p s
        ≡ ok (record (effective_plan p s) {
          bm = pos (max 1 bm);
          bn = pos (max 1 bn);
          bk = pos (max 1 bk);
          mc = pos (max 1 bm);
          nc = pos (max 1 bn);
          kc = pos (max 1 bk);
          tiled = ltb (max 1 bm) p.m || ltb (max 1 bn) p.n || ltb (max 1 bk) p.k;
        })
  unfolding loop_tiling
  loop_tiling-plan bm bn bk =
      after_pass (loop_tiling bm bn bk)
        (λ e. record (schedule_of e) { tiled = true; bm = max 1 bm; bn = max 1 bn; bk = max 1 bk })
        (λ loop. refl)
      ∙ ap ok (tiling_plan bm bn bk)

  -- On a program fresh from `apply_schedule`, fusion fuses the epilogue unless the program is the scalar unpacked IKJ nest with a bias or ReLU.
  pub fusion-plan : plan_after fusion p s ≡ ok fused_plan
  unfolding fusion
  fusion-plan =
      after_pass fusion (λ e. record (schedule_of e) { fused = true }) (λ loop. refl)
      ∙ ap ok fusion_plan

  -- On a program fresh from `apply_schedule`, vectorizing sets the vector width and the register tile's width, and leaves the IKJ order only
  -- to a scalar nest vectorized at width 1.
  pub vectorize-plan : (w : ℕ) → plan_after (vectorize w) p s ≡ ok (vectorized_plan w)
  unfolding vectorize
  vectorize-plan w =
      after_pass (vectorize w)
        (λ e. record (schedule_of e) { nr = max 1 w; vector_width = max 1 w }) (λ loop. refl)
      ∙ ap ok (vectorize_plan w)

  -- On a program fresh from `apply_schedule`, interchange reaches the IKJ order exactly if the program is
  -- scalar and unpacked.
  pub loop_interchange-plan : plan_after loop_interchange p s ≡ ok interchanged_plan
  unfolding loop_interchange
  loop_interchange-plan =
      after_pass loop_interchange (λ e. record (schedule_of e) { order = ikj }) (λ loop. refl)
      ∙ ap ok interchange_plan
