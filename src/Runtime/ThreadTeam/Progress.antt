-- ===== src/Runtime/ThreadTeam/Progress.antt =====
-- The work that the workers have left in a call of `ThreadTeam::run`, and what their steps do to it.
use sched_forge.Base.{
  ℕ, zero, suc, ◌+◌, ◌*◌, ◌≤◌, ◌<◌, ◌≡◌, Bool, ◌⊎◌, refl, sym, ap, ◌∙◌, subst, true, false, ◌==◌,
  if◌then◌else◌, Bool-cases, Option-cases, none, some, some_injective, not_some, List, [], ◌∷◌,
  length, get_elem?, update, All, All-get, inl, inr, arith, true-ne-false,
}
use sched_forge.Runtime.ThreadTeam.{
  Phase, waiting, running, returned, Worker, Team, wake, finish, phase_step, worker_step, end_run,
  give_job, job_done, IsReachable,
}
use sched_forge.Runtime.ThreadTeam.Invariant.{
  IsStage, fresh, busy, done, is_done, count_done, IsRunning, IsTeam, idle, in_run, in_stop,
}
use sched_forge.Runtime.ThreadTeam.Workers.{IsReachable-IsTeam, wake-rested}

module _ {J : Type 0} where
  -- The steps that a worker has left in a run: two before it takes the job, one while it runs it.
  abbrev pub phase_work : Phase J → ℕ → ℕ
  phase_work waiting fresh_work = fresh_work
  phase_work (running job) fresh_work = 1
  phase_work returned fresh_work = 0

  unfoldable pub work_left : ℕ → List (Worker J) → ℕ
  work_left generation [] = 0
  work_left generation (w ∷ ws) =
      let rest = work_left generation ws in
      phase_work w.phase (if w.observed == generation then 0 else 2) + rest

  -- Some worker is not done, and can step.
  find_worker :
      (generation : ℕ) (job : J) (past : List J) (ws : List (Worker J))
      → All (IsStage generation job past) ws
      → (count_done generation ws ≡ length ws)
        ⊎ ((i : ℕ) × (x : Worker J) × (get_elem? ws i ≡ some x)
            × IsStage generation job past x
            × (is_done generation x ≡ false))
  unfolding count_done
  find_worker generation job past [] h = inl refl
  find_worker generation job past (w ∷ ws) h = elim (Bool-cases (is_done generation w)) [
    | inr f ↦ inr (zero, w, refl, h.0, f)
    | inl t ↦ elim (find_worker generation job past ws h.1) [
      | inl all ↦ inl (rw t (ap suc all))
      | inr (i, x, at_i, stage, f) ↦ inr (suc i, x, at_i, stage, f)
    ]
  ]

  abbrev work_of : ℕ → Worker J → ℕ
  work_of generation w = phase_work w.phase (if w.observed == generation then 0 else 2)

  work_left-update :
      (generation : ℕ) (ws : List (Worker J)) (i : ℕ) (f : Worker J → Worker J) {x : Worker J}
      → get_elem? ws i ≡ some x
      → work_left generation (update ws i f) + work_of generation x
        ≡ work_left generation ws + work_of generation (f x)
  unfolding work_left
  work_left-update generation [] i f e = cc
  work_left-update generation (w ∷ ws) zero f {x} e =
      let same : w ≡ x = some_injective e in
      subst
        (λ (y : Worker J).
          work_left generation (f w ∷ ws) + work_of generation y
          ≡ work_left generation (w ∷ ws) + work_of generation (f y))
        same (omega arith)
  work_left-update generation (w ∷ ws) (suc i) f e =
      omega (arith, work_left-update generation ws i f e)

  abbrev Works : Team J → ℕ → Team J → Type 0
  Works s i t =
      (worker_step i s ≡ some t)
      × (work_left t.generation t.workers < work_left s.generation s.workers)

  -- A worker that is not done takes the job or finishes it, and has less to do then.
  stage-Works :
      (s : Team J) (w : IsRunning s) (i : ℕ) (x : Worker J)
      → get_elem? s.workers i ≡ some x
      → IsStage s.generation w.current w.past x
      → is_done s.generation x ≡ false
      → (t : Team J) × Works s i t
  unfolding worker_step phase_step wake finish
  stage-Works s w i x at_i (fresh p o r) f =
      let give = give_job s.generation w.current in
      let new : (s.generation == x.observed) ≡ false = ground arith in
      let before : work_of s.generation x ≡ 2 = rw p (ground arith) in
      (
        record s { workers = update s.workers i give },
        (
          rw (at_i, worker_step, p, phase_step, w.not_stopping, new, w.job_eq, wake)
              (λ j. some (record s {
                workers = update s.workers i give;
                job = w.job_eq j;
                stopping = w.not_stopping j;
              })),
          omega (arith, before, work_left-update s.generation s.workers i give at_i),
        ),
      )
  stage-Works s w i x at_i (busy p o r) f =
      let before : work_of s.generation x ≡ 1 = rw p refl in
      let after : work_of s.generation (job_done w.current x) ≡ 0 = ground (arith, o) in
      (
        finish i w.current s,
        (
          rw (at_i, worker_step, p, phase_step) refl,
          omega (
            arith,
            before,
            after,
            work_left-update s.generation s.workers i (job_done w.current) at_i,
          ),
        ),
      )
  stage-Works s w i x at_i (done p o r) f =
      absurd (true-ne-false (sym (rw p (ground (arith, o))) ∙ f))

  -- A worker that is done has no step.
  done-rests :
      (s t : Team J) (w : IsRunning s) (i : ℕ) (x : Worker J)
      → get_elem? s.workers i ≡ some x
      → IsStage s.generation w.current w.past x
      → is_done s.generation x ≡ true
      → worker_step i s ≡ some t
      → ⊥
  unfolding worker_step phase_step
  done-rests s t w i x at_i (fresh p o r) d e = true-ne-false (sym d ∙ rw p (ground arith))
  done-rests s t w i x at_i (busy p o r) d e = true-ne-false (sym d ∙ rw p refl)
  done-rests s t w i x at_i (done p o r) d e =
      wake-rested i s t x w.not_stopping o (rw (at_i, worker_step, p, phase_step) at e)

  phase_work-bound : (phase : Phase J) (seen : Bool) → phase_work phase (if seen then 0 else 2) ≤ 2
  phase_work-bound waiting true = omega arith
  phase_work-bound waiting false = omega arith
  phase_work-bound (running job) seen = omega arith
  phase_work-bound returned seen = omega arith

  work_left-bound :
      (generation : ℕ) (ws : List (Worker J)) → work_left generation ws ≤ 2 * length ws
  unfolding work_left
  work_left-bound generation [] = omega arith
  work_left-bound generation (w ∷ ws) =
      omega
        (arith, phase_work-bound w.phase (w.observed == generation), work_left-bound generation ws)

  -- Of the steps that `worker_step` allows a worker in a run, each one is the step found above.
  stage-decreases :
      (s t : Team J) (w : IsRunning s) (i : ℕ) (x : Worker J)
      → get_elem? s.workers i ≡ some x
      → IsStage s.generation w.current w.past x
      → worker_step i s ≡ some t
      → work_left t.generation t.workers < work_left s.generation s.workers
  unfolding worker_step phase_step
  stage-decreases s t w i x at_i stage e = elim (Bool-cases (is_done s.generation x)) [
    | inl t' ↦ absurd (done-rests s t w i x at_i stage t' e)
    | inr f ↦
        let (u, (step, less)) = stage-Works s w i x at_i stage f in
        subst (λ (v : Team J). work_left v.generation v.workers < work_left s.generation s.workers)
          (some_injective (sym step ∙ e)) less
  ]

  running-decreases :
      (s : Team J)
      → IsRunning s
      → (i : ℕ) (t : Team J) → worker_step i s ≡ some t
      → work_left t.generation t.workers < work_left s.generation s.workers
  unfolding worker_step
  running-decreases s w i t e = elim (Option-cases (get_elem? s.workers i)) [
    | inl n ↦ absurd (not_some (rw (n, worker_step) at e))
    | inr (x, at_i) ↦
        stage-decreases s t w i x at_i
          (All-get (IsStage s.generation w.current w.past) s.workers i at_i w.stages) e
  ]

  can_go_on :
      (s : Team J)
      → IsRunning s
      → ((t : Team J) × (end_run s ≡ some t))
        ⊎ ((i : ℕ) × (t : Team J) × (worker_step i s ≡ some t))
  unfolding end_run
  can_go_on s w = elim (find_worker s.generation w.current w.past s.workers w.stages) [
    | inl all ↦
        let full : (s.completed == s.thread_count) ≡ true =
          ground (arith, all, w.counted, w.enough) in
        inl (record s { job = none; calling = false }, rw (w.calling_now, full, end_run) refl)
    | inr (i, x, at_i, stage, f) ↦
        (let (t, step) = stage-Works s w i x at_i stage f in inr (i, t, step.0))
  ]

  -- While a call of `run` is in progress, every step that a worker can take leaves the workers less to do,
  -- what they have left is at most twice their number, and the call can return or some worker can step.
  pub run-progress :
      {n : ℕ} {s : Team J}
      → IsReachable n s
      → s.calling ≡ true
      → ((i : ℕ) (t : Team J)
          → worker_step i s ≡ some t
          → work_left t.generation t.workers < work_left s.generation s.workers)
        × (work_left s.generation s.workers ≤ 2 * length s.workers)
        × (((t : Team J) × (end_run s ≡ some t))
            ⊎ ((i : ℕ) × (t : Team J) × (worker_step i s ≡ some t)))
  run-progress {s} r calls = by_state (IsReachable-IsTeam r)
    where
      by_state :
          IsTeam s
          → ((i : ℕ) (t : Team J)
              → worker_step i s ≡ some t
              → work_left t.generation t.workers < work_left s.generation s.workers)
            × (work_left s.generation s.workers ≤ 2 * length s.workers)
            × (((t : Team J) × (end_run s ≡ some t))
                ⊎ ((i : ℕ) × (t : Team J) × (worker_step i s ≡ some t)))
      by_state (idle w) = absurd (true-ne-false (sym calls ∙ w.not_calling))
      by_state (in_stop w) = absurd (true-ne-false (sym calls ∙ w.not_calling))
      by_state (in_run w) =
          (running-decreases s w, work_left-bound s.generation s.workers, can_go_on s w)
