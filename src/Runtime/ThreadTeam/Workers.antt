-- ===== src/Runtime/ThreadTeam/Workers.antt =====
-- The steps of the workers of `ThreadTeam` (src/runtime.cpp), and the jobs that they have run.
use sched_forge.Base.{
  ℕ, zero, suc, ◌+◌, ◌≡◌, refl, sym, ap, ◌∙◌, subst, true, false, ◌==◌, if◌then◌else◌, Option-cases,
  some, some_injective, not_some, List, [], ◌∷◌, length-update, get_elem?, update, All, All-map,
  All-get, All-update, inl, inr, arith, true-ne-false,
}
use sched_forge.Runtime.ThreadTeam.{
  waiting, running, Worker, Team, wake, finish, phase_step, worker_step, return_worker, give_job,
  job_done, Step, begins, works, ends, stops, IsReachable, start, next,
}
use sched_forge.Runtime.ThreadTeam.Invariant.{
  IsRested, IsStage, fresh, busy, done, IsLeaving, still, gone, is_done, count_done, IsRunning,
  IsStopping, IsTeam, idle, in_run, in_stop, make_team-IsTeam, begin_run-IsTeam, end_run-IsTeam,
  begin_stop-IsTeam,
}

module _ {J : Type 0} where
  -- Only the worker that steps counts differently.
  pub count_done-update :
      (generation : ℕ) (ws : List (Worker J)) (i : ℕ) (f : Worker J → Worker J) {x : Worker J}
      → get_elem? ws i ≡ some x
      → count_done generation (update ws i f) + (if is_done generation x then 1 else 0)
        ≡ count_done generation ws + (if is_done generation (f x) then 1 else 0)
  unfolding count_done
  count_done-update generation [] i f e = cc
  count_done-update generation (w ∷ ws) zero f {x} e =
      let same : w ≡ x = some_injective e in
      subst
        (λ (y : Worker J).
          count_done generation (f w ∷ ws) + (if is_done generation y then 1 else 0)
          ≡ count_done generation (w ∷ ws) + (if is_done generation (f y) then 1 else 0))
        same (ground arith)
  count_done-update generation (w ∷ ws) (suc i) f e =
      ground (arith, count_done-update generation ws i f e)

  pub wake-rested :
      (i : ℕ) (s t : Team J) (x : Worker J)
      → s.stopping ≡ false
      → x.observed ≡ s.generation
      → wake i x s ≡ some t
      → ⊥
  unfolding wake
  wake-rested i s t x going seen e =
      let same : (s.generation == x.observed) ≡ true = ground arith in
      not_some (rw (going, same, wake) at e)

  -- A worker that takes the job.
  fresh-IsRunning :
      (i : ℕ) (s t : Team J) (x : Worker J) (w : IsRunning s)
      → get_elem? s.workers i ≡ some x
      → x.phase ≡ waiting
      → suc x.observed ≡ s.generation
      → x.ran ≡ w.past
      → wake i x s ≡ some t
      → IsTeam t
  unfolding wake
  fresh-IsRunning i s t x w at_i p seen r e =
      let new : (s.generation == x.observed) ≡ false = ground arith in
      let give = give_job s.generation w.current in
      let old : is_done s.generation x ≡ false = rw p (ground arith) in
      subst IsTeam (some_injective (rw (w.not_stopping, new, w.job_eq, wake) at e)) (
        in_run (record {
          calling_now = w.calling_now;
          not_stopping = w.not_stopping;
          enough = length-update s.workers i give ∙ w.enough;
          current = w.current;
          past = w.past;
          job_eq = w.job_eq;
          history_eq = w.history_eq;
          stages =
              All-update (IsStage s.generation w.current w.past) s.workers i give at_i
                (busy refl refl r) w.stages;
          counted =
              omega (
                arith,
                w.counted,
                rw old at (count_done-update s.generation s.workers i give at_i),
              );
        }))

  -- A worker that has run the job.
  busy-IsRunning :
      (i : ℕ) (s : Team J) (x : Worker J) (w : IsRunning s)
      → get_elem? s.workers i ≡ some x
      → x.phase ≡ running w.current
      → x.observed ≡ s.generation
      → x.ran ≡ w.past
      → IsTeam (finish i w.current s)
  unfolding finish
  busy-IsRunning i s x w at_i p seen r =
      let old : is_done s.generation x ≡ false = rw p refl in
      let now : is_done s.generation (job_done w.current x) ≡ true = ground (arith, seen) in
      in_run (record {
        calling_now = w.calling_now;
        not_stopping = w.not_stopping;
        enough = length-update s.workers i (job_done w.current) ∙ w.enough;
        current = w.current;
        past = w.past;
        job_eq = w.job_eq;
        history_eq = w.history_eq;
        stages =
            All-update (IsStage s.generation w.current w.past) s.workers i (job_done w.current) at_i
              (done refl seen (ap (λ (ran : List J). w.current ∷ ran) r)) w.stages;
        counted = omega (
          arith,
          w.counted,
          rw (old, now) at (count_done-update s.generation s.workers i (job_done w.current) at_i),
        );
      })

  leave-IsStopping :
      (i : ℕ) (s t : Team J) (x : Worker J)
      → IsStopping s
      → get_elem? s.workers i ≡ some x
      → x.ran ≡ s.history
      → wake i x s ≡ some t
      → IsTeam t
  unfolding wake
  leave-IsStopping i s t x w at_i r e =
      subst IsTeam (some_injective (rw (w.stopping_now, wake) at e)) (
        in_stop (record {
          not_calling = w.not_calling;
          stopping_now = refl;
          leaving =
              All-update (IsLeaving s.history) s.workers i return_worker at_i (gone refl r)
                w.leaving;
        }))

  worker_step-IsTeam : (i : ℕ) (s t : Team J) → IsTeam s → worker_step i s ≡ some t → IsTeam t
  unfolding worker_step phase_step
  worker_step-IsTeam i s t team e = elim (Option-cases (get_elem? s.workers i)) [
    | inl n ↦ absurd (not_some (rw (n, worker_step) at e))
    | inr (x, at_i) ↦ by_state x at_i (rw (at_i, worker_step) at e) team
  ]
    where
      by_stage :
          (x : Worker J) (w : IsRunning s)
          → get_elem? s.workers i ≡ some x
          → IsStage s.generation w.current w.past x
          → phase_step i x x.phase s ≡ some t
          → IsTeam t
      by_stage x w at_i (fresh p o r) e =
          fresh-IsRunning i s t x w at_i p o r (rw (p, phase_step) at e)
      by_stage x w at_i (busy p o r) e =
          subst IsTeam (some_injective (rw (p, phase_step) at e))
            (busy-IsRunning i s x w at_i p o r)
      by_stage x w at_i (done p o r) e =
          absurd (wake-rested i s t x w.not_stopping o (rw (p, phase_step) at e))

      by_leaving :
          (x : Worker J) (w : IsStopping s)
          → get_elem? s.workers i ≡ some x
          → IsLeaving s.history x
          → phase_step i x x.phase s ≡ some t
          → IsTeam t
      by_leaving x w at_i (still p r) e =
          leave-IsStopping i s t x w at_i r (rw (p, phase_step) at e)
      by_leaving x w at_i (gone p r) e = absurd (not_some (rw (p, phase_step) at e))

      by_state :
          (x : Worker J)
          → get_elem? s.workers i ≡ some x
          → phase_step i x x.phase s ≡ some t
          → IsTeam s
          → IsTeam t
      by_state x at_i e (idle w) =
          let r = All-get (IsRested s.generation s.history) s.workers i at_i w.rested in
          absurd (wake-rested i s t x w.not_stopping r.seen (rw (r.waits, phase_step) at e))
      by_state x at_i e (in_run w) =
          by_stage x w at_i
            (All-get (IsStage s.generation w.current w.past) s.workers i at_i w.stages) e
      by_state x at_i e (in_stop w) =
          by_leaving x w at_i (All-get (IsLeaving s.history) s.workers i at_i w.leaving) e

  Step-IsTeam : {s t : Team J} → Step s t → IsTeam s → IsTeam t
  Step-IsTeam {s} {t} (begins job e) w = begin_run-IsTeam job s t w e
  Step-IsTeam {s} {t} (works i e) w = worker_step-IsTeam i s t w e
  Step-IsTeam {s} {t} (ends e) w = end_run-IsTeam s t w e
  Step-IsTeam {s} {t} (stops e) w = begin_stop-IsTeam s t w e

  pub IsReachable-IsTeam : {n : ℕ} {s : Team J} → IsReachable n s → IsTeam s
  IsReachable-IsTeam {n} start = make_team-IsTeam n
  IsReachable-IsTeam (next r st) = Step-IsTeam st (IsReachable-IsTeam r)

  leaving-ran : (history : List J) (x : Worker J) → IsLeaving history x → x.ran ≡ history
  leaving-ran history x (still p r) = r
  leaving-ran history x (gone p r) = r

  -- However the threads of a team take turns, when no call of `run` is in progress, every worker has run
  -- every job that was given to `run`, each once and in the order of the calls.
  pub jobs-run_once :
      {n : ℕ} {s : Team J}
      → IsReachable n s
      → s.calling ≡ false
      → All (λ (w : Worker J). w.ran ≡ s.history) s.workers
  jobs-run_once {s} r quiet = by_state (IsReachable-IsTeam r)
    where
      by_state : IsTeam s → All (λ (w : Worker J). w.ran ≡ s.history) s.workers
      by_state (idle w) =
          All-map (IsRested s.generation s.history) (λ (x : Worker J). x.ran ≡ s.history) s.workers
            (λ x k. k.ran_all) w.rested
      by_state (in_run w) = absurd (true-ne-false (sym w.calling_now ∙ quiet))
      by_state (in_stop w) =
          All-map (IsLeaving s.history) (λ (x : Worker J). x.ran ≡ s.history) s.workers
            (leaving-ran s.history) w.leaving
