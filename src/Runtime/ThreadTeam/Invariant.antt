-- ===== src/Runtime/ThreadTeam/Invariant.antt =====
-- Where the workers of `ThreadTeam` stand, in every interleaving of the threads.
use sched_forge.Base.{
  ℕ, zero, suc, ◌+◌, ◌≤◌, ◌≡◌, refl, sym, ap, subst, Bool, true, false, ◌&&◌, ◌==◌, if◌then◌else◌,
  Bool-cases, some, some_injective, not_some, List, [], ◌∷◌, length, All, All-map, inl, inr, arith,
}
use sched_forge.Runtime.ThreadTeam.{
  Phase, waiting, running, returned, Worker, Team, make_team, new_workers, begin_run, end_run,
  begin_stop,
}

module _ {J : Type 0} where
  -- Between two runs: the worker waits, and has run every job.
  pub record IsRested (generation : ℕ) (history : List J) (w : Worker J) : Type 0 where
    pub waits : w.phase ≡ waiting
    pub seen : w.observed ≡ generation
    pub ran_all : w.ran ≡ history

  -- During a run of `job`: the worker has not seen it yet, runs it, or has run it.
  pub data IsStage (generation : ℕ) (job : J) (past : List J) (w : Worker J) : Type 0 where
    fresh :
        w.phase ≡ waiting
        → suc w.observed ≡ generation
        → w.ran ≡ past
        → IsStage generation job past w
    busy :
        w.phase ≡ running job
        → w.observed ≡ generation
        → w.ran ≡ past
        → IsStage generation job past w
    done :
        w.phase ≡ waiting
        → w.observed ≡ generation
        → w.ran ≡ job ∷ past
        → IsStage generation job past w

  -- While the team is torn down: the worker waits or has returned, and has run every job.
  pub data IsLeaving (history : List J) (w : Worker J) : Type 0 where
    still : w.phase ≡ waiting → w.ran ≡ history → IsLeaving history w
    gone : w.phase ≡ returned → w.ran ≡ history → IsLeaving history w

  abbrev pub is_waiting : Phase J → Bool
  is_waiting waiting = true
  is_waiting _ = false

  abbrev pub is_done : ℕ → Worker J → Bool
  is_done generation w = is_waiting w.phase && w.observed == generation

  unfoldable pub count_done : ℕ → List (Worker J) → ℕ
  count_done generation [] = 0
  count_done generation (w ∷ ws) =
      let rest = count_done generation ws in if is_done generation w then suc rest else rest

  pub record IsIdle (s : Team J) : Type 0 where
    pub not_calling : s.calling ≡ false
    pub not_stopping : s.stopping ≡ false
    pub enough : length s.workers ≡ s.thread_count
    pub rested : All (IsRested s.generation s.history) s.workers

  pub record IsRunning (s : Team J) : Type 0 where
    pub calling_now : s.calling ≡ true
    pub not_stopping : s.stopping ≡ false
    pub enough : length s.workers ≡ s.thread_count
    pub current : J
    pub past : List J
    pub job_eq : s.job ≡ some current
    pub history_eq : s.history ≡ current ∷ past
    pub stages : All (IsStage s.generation current past) s.workers
    pub counted : s.completed ≡ count_done s.generation s.workers

  pub record IsStopping (s : Team J) : Type 0 where
    pub not_calling : s.calling ≡ false
    pub stopping_now : s.stopping ≡ true
    pub leaving : All (IsLeaving s.history) s.workers

  pub data IsTeam (s : Team J) : Type 0 where
    idle : IsIdle s → IsTeam s
    in_run : IsRunning s → IsTeam s
    in_stop : IsStopping s → IsTeam s

length-new_workers : (J : Type 0) (n : ℕ) → length (new_workers {J = J} n) ≡ n
unfolding new_workers
length-new_workers J zero = refl
length-new_workers J (suc n) = ap suc (length-new_workers J n)

new_workers-IsRested : (J : Type 0) (n : ℕ) → All (IsRested {J = J} 0 []) (new_workers {J = J} n)
unfolding new_workers
new_workers-IsRested J zero = tt
new_workers-IsRested J (suc n) =
    (record { waits = refl; seen = refl; ran_all = refl }, new_workers-IsRested J n)

module _ {J : Type 0} where
  pub make_team-IsTeam : (n : ℕ) → IsTeam (make_team {J = J} n)
  unfolding make_team
  make_team-IsTeam n = idle (record {
    not_calling = refl;
    not_stopping = refl;
    enough = length-new_workers J n;
    rested = new_workers-IsRested J n;
  })

  -- A new generation has been seen by no worker.
  count_done-rested :
      (generation : ℕ) (history : List J) (ws : List (Worker J))
      → All (IsRested generation history) ws
      → count_done (generation + 1) ws ≡ 0
  unfolding count_done
  count_done-rested generation history [] h = refl
  count_done-rested generation history (w ∷ ws) h =
      let rest = count_done-rested generation history ws h.1 in
      let seen = h.0.seen in
      let not_done : is_done (generation + 1) w ≡ false = rw h.0.waits (ground (arith, seen)) in
      rw not_done rest

  pub begin_run-IsTeam : (job : J) (s t : Team J) → IsTeam s → begin_run job s ≡ some t → IsTeam t
  unfolding begin_run
  begin_run-IsTeam job s t (idle w) e =
      let same = some_injective (rw (w.not_calling, w.not_stopping, begin_run) at e) in
      subst IsTeam same (
        in_run (record {
          calling_now = refl;
          not_stopping = refl;
          enough = w.enough;
          current = job;
          past = s.history;
          job_eq = refl;
          history_eq = refl;
          stages =
              All-map (IsRested s.generation s.history) (IsStage (s.generation + 1) job s.history)
                s.workers (λ x r. fresh r.waits (omega (arith, r.seen)) r.ran_all) w.rested;
          counted = sym (count_done-rested s.generation s.history s.workers w.rested);
        }))
  begin_run-IsTeam job s t (in_run w) e = absurd (not_some (rw (w.calling_now, begin_run) at e))
  begin_run-IsTeam job s t (in_stop w) e =
      absurd (not_some (rw (w.not_calling, w.stopping_now, begin_run) at e))

  -- When all are done, all have run the job.
  pub count_done-le : (generation : ℕ) (ws : List (Worker J)) → count_done generation ws ≤ length ws
  unfolding count_done
  count_done-le generation [] = omega arith
  count_done-le generation (w ∷ ws) = ground (arith, count_done-le generation ws)

  all_done :
      (generation : ℕ) (job : J) (past : List J) (ws : List (Worker J))
      → All (IsStage generation job past) ws
      → count_done generation ws ≡ length ws
      → All (IsRested generation (job ∷ past)) ws
  unfolding count_done
  all_done generation job past [] h e = tt
  all_done generation job past (w ∷ ws) h e =
      (this h.0, all_done generation job past ws h.1 (ground (arith, count_done-le generation ws)))
    where
      not_done : is_done generation w ≡ false → ⊥
      not_done f = absurd (ground (arith, rw f at e, count_done-le generation ws))

      this : IsStage generation job past w → IsRested generation (job ∷ past) w
      this (fresh p o r) = absurd (not_done (rw p (ground arith)))
      this (busy p o r) = absurd (not_done (rw p refl))
      this (done p o r) = record { waits = p; seen = o; ran_all = r }

  pub end_run-IsTeam : (s t : Team J) → IsTeam s → end_run s ≡ some t → IsTeam t
  unfolding end_run
  end_run-IsTeam s t (idle w) e = absurd (not_some (rw (w.not_calling, end_run) at e))
  end_run-IsTeam s t (in_stop w) e = absurd (not_some (rw (w.not_calling, end_run) at e))
  end_run-IsTeam s t (in_run w) e = elim (Bool-cases (s.completed == s.thread_count)) [
    | inr f ↦ absurd (not_some (rw (w.calling_now, f, end_run) at e))
    | inl c ↦
        let full : count_done s.generation s.workers ≡ length s.workers =
          ground (arith, w.counted, w.enough) in
        let rested = all_done s.generation w.current w.past s.workers w.stages full in
        subst IsTeam (some_injective (rw (w.calling_now, c, end_run) at e)) (
          idle (record {
            not_calling = refl;
            not_stopping = w.not_stopping;
            enough = w.enough;
            rested =
                subst (λ (h : List J). All (IsRested s.generation h) s.workers) (sym w.history_eq)
                  rested;
          }))
  ]

  pub begin_stop-IsTeam : (s t : Team J) → IsTeam s → begin_stop s ≡ some t → IsTeam t
  unfolding begin_stop
  begin_stop-IsTeam s t (in_run w) e = absurd (not_some (rw (w.calling_now, begin_stop) at e))
  begin_stop-IsTeam s t (idle w) e =
      subst IsTeam (some_injective (rw (w.not_calling, begin_stop) at e)) (
        in_stop (record {
          not_calling = refl;
          stopping_now = refl;
          leaving =
              All-map (IsRested s.generation s.history) (IsLeaving s.history) s.workers
                (λ x r. still r.waits r.ran_all) w.rested;
        }))
  begin_stop-IsTeam s t (in_stop w) e =
      subst IsTeam (some_injective (rw (w.not_calling, begin_stop) at e))
        (in_stop (record { not_calling = refl; stopping_now = refl; leaving = w.leaving }))
