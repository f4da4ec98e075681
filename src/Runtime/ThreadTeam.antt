-- ===== src/Runtime/ThreadTeam.antt =====
-- `ThreadTeam` of src/runtime.cpp: workers that wait for a job, run it once each, and tell the caller.
-- A step is what one thread does while it holds the mutex, and a run of the job. A wait ends when its
-- predicate holds, which is looked at again after each notification, and every change that makes a
-- predicate true is followed by one.
pub mod Invariant
pub mod Workers
pub mod Progress
use sched_forge.Base.{
  ◌≡◌, ℕ, zero, suc, ◌+◌, Bool, true, false, not, ◌&&◌, ◌||◌, ◌==◌, if◌then◌else◌, Option, none,
  some, List, [], ◌∷◌, get_elem?, update,
}

pub data Phase (J : Type 0) : Type 0 where
  waiting : Phase J
  running : J → Phase J
  returned : Phase J

-- `observed_generation` and the place in `worker_loop`; `ran` lists the jobs it has run, the last first.
pub record Worker (J : Type 0) : Type 0 where
  pub observed : ℕ
  pub phase : Phase J
  pub ran : List J

-- The members of the team, whether a thread is inside `run`, and the jobs given to `run`, the last first.
pub record Team (J : Type 0) : Type 0 where
  pub thread_count : ℕ
  pub workers : List (Worker J)
  pub job : Option J
  pub generation : ℕ
  pub completed : ℕ
  pub stopping : Bool
  pub calling : Bool
  pub history : List J

module _ {J : Type 0} where
  abbrev pub new_worker : Worker J
  new_worker = record { observed = 0; phase = waiting; ran = [] }

  unfoldable pub new_workers : ℕ → List (Worker J)
  new_workers zero = []
  new_workers (suc n) = new_worker ∷ new_workers n

  -- The constructor.
  unfoldable pub make_team : ℕ → Team J
  unfolding new_workers
  make_team n = record {
    thread_count = n;
    workers = new_workers n;
    job = none;
    generation = 0;
    completed = 0;
    stopping = false;
    calling = false;
    history = [];
  }

  -- `run` up to its wait. `dispatch_mutex_` lets one thread in; the destructor has not begun.
  unfoldable pub begin_run : J → Team J → Option (Team J)
  begin_run job s =
      if s.calling || s.stopping
      then none
      else some (record s {
        job = some job;
        completed = 0;
        generation = s.generation + 1;
        calling = true;
        history = job ∷ s.history;
      })

  -- `run` after its wait.
  unfoldable pub end_run : Team J → Option (Team J)
  end_run s =
      if s.calling && s.completed == s.thread_count
      then some (record s { job = none; calling = false })
      else none

  -- The destructor up to its joins, when no thread is inside `run`.
  unfoldable pub begin_stop : Team J → Option (Team J)
  begin_stop s =
      if s.calling then none else some (record s { stopping = true; generation = s.generation + 1 })

  abbrev pub return_worker : Worker J → Worker J
  return_worker w = record w { phase = returned }

  abbrev pub give_job : ℕ → J → Worker J → Worker J
  give_job generation job w = record w { observed = generation; phase = running job }

  -- A waiting worker passes its wait, and returns or takes the job. Without a job there is none to take.
  unfoldable pub wake : ℕ → Worker J → Team J → Option (Team J)
  wake i w s =
      if s.stopping
      then some (record s { workers = update s.workers i return_worker })
      else if s.generation == w.observed
      then none
      else elim s.job [
        | none ↦ none
        | some job ↦ some (record s { workers = update s.workers i (give_job s.generation job) })
      ]

  abbrev pub job_done : J → Worker J → Worker J
  job_done job w = record w { phase = waiting; ran = job ∷ w.ran }

  -- A worker has run its job, and counts itself.
  unfoldable pub finish : ℕ → J → Team J → Team J
  finish i job s = record s {
    workers = update s.workers i (job_done job);
    completed = s.completed + 1;
  }

  unfoldable pub phase_step : ℕ → Worker J → Phase J → Team J → Option (Team J)
  unfolding wake finish
  phase_step i w waiting s = wake i w s
  phase_step i w (running job) s = some (finish i job s)
  phase_step i w returned s = none

  -- The next step of worker `i`, if it has one.
  unfoldable pub worker_step : ℕ → Team J → Option (Team J)
  unfolding phase_step
  worker_step i s = elim (get_elem? s.workers i) [ none ↦ none | some w ↦ phase_step i w w.phase s ]

  -- A step of the team: of the caller, of a worker, or of the destructor, in any order.
  pub data Step (s t : Team J) : Type 0 where
    begins : (job : J) → begin_run job s ≡ some t → Step s t
    works : (i : ℕ) → worker_step i s ≡ some t → Step s t
    ends : end_run s ≡ some t → Step s t
    stops : begin_stop s ≡ some t → Step s t

  pub data IsReachable (n : ℕ) : Team J → Type 0 where
    start : IsReachable n (make_team n)
    next : {s t : Team J} → IsReachable n s → Step s t → IsReachable n t
