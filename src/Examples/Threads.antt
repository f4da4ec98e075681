-- ===== src/Examples/Threads.antt =====
-- A team of two workers that is given one job, a number.
use sched_forge.Base.{ℕ, ◌*◌, ◌≤◌, ◌<◌, ◌≡◌, ◌⊎◌, refl, some, length, All}
use sched_forge.Runtime.ThreadTeam.{
  Worker, Team, make_team, begin_run, worker_step, end_run, IsReachable, start, next, begins, works,
  ends,
}
use sched_forge.Runtime.ThreadTeam.Workers.{jobs-run_once}
use sched_forge.Runtime.ThreadTeam.Progress.{work_left, run-progress}

record Run : Type 0 where
  team : Team ℕ
  reach : IsReachable 2 team

-- Worker 1 takes the job first and finishes last.
called : Run
unfolding begin_run make_team
called = record { team = _; reach = next start (begins 7 refl) }

half_done : Run
unfolding called worker_step begin_run make_team
half_done = record {
  team = _;
  reach = next (next (next called.reach (works 1 refl)) (works 0 refl)) (works 0 refl);
}

all_done : Run
unfolding half_done called worker_step end_run begin_run make_team
all_done = record { team = _; reach = next (next half_done.reach (works 1 refl)) (ends refl) }

jobs-run_once_example : All (λ (w : Worker ℕ). w.ran ≡ all_done.team.history) all_done.team.workers
unfolding all_done half_done called worker_step end_run begin_run make_team
jobs-run_once_example = jobs-run_once all_done.reach refl

run-progress_example :
    ((i : ℕ) (t : Team ℕ)
      → worker_step i half_done.team ≡ some t
      → work_left t.generation t.workers
        < work_left half_done.team.generation half_done.team.workers)
    × (work_left half_done.team.generation half_done.team.workers
        ≤ 2 * length half_done.team.workers)
    × (((t : Team ℕ) × (end_run half_done.team ≡ some t))
        ⊎ ((i : ℕ) × (t : Team ℕ) × (worker_step i half_done.team ≡ some t)))
unfolding half_done called worker_step begin_run make_team
run-progress_example = run-progress half_done.reach refl
