-- ===== src/Moe/Tasks/Tiling.antt =====
-- The tasks that `plan_moe_tasks` (src/moe_compiler.cpp) plans, and the tokens of each expert.
use native.Mathlib.Nat.{mod-lt}
use sched_forge.Base.{
  ℕ, zero, suc, ◌+◌, ◌-◌, ◌≤◌, ◌<◌, ◌≡◌, inl, inr, refl, min, max, true, false, Bool-cases,
  Option-cases, find_if, List, [], ◌∷◌, ◌++◌, ltb, leb, ◌==◌, All, All-map, Pairwise, find_if-holds,
  leb→le, true-ne-false, arith,
}
use sched_forge.Moe.Tasks.{
  MoeExecutionSchedule, MoeTask, task_bucket, bucket_for, back, is_bucketed, is_load_aware,
  is_fixed, chunk_of, chunks, expert_tasks, tasks_from, size, insert, stable_sort, plan_moe_tasks,
}
use sched_forge.Moe.Tasks.Chunks.{chunk_of-positive, covering, bit, owns, tasks_from-covering}

insert-covering :
    (e x : ℕ) (t : MoeTask) (ts : List MoeTask) → covering e x (insert t ts) ≡ covering e x (t ∷ ts)
unfolding insert
insert-covering e x t [] = refl
insert-covering e x t (u ∷ us) = elim (Bool-cases (ltb (size u) (size t))) [
  | inl h ↦ rw (h, insert) refl
  | inr h ↦ rw (h, insert) (ground (arith, insert-covering e x t us))
]

stable_sort-covering :
    (e x : ℕ) (sorted ts : List MoeTask)
    → covering e x (stable_sort sorted ts) ≡ covering e x sorted + covering e x ts
unfolding stable_sort
stable_sort-covering e x sorted [] = omega arith
stable_sort-covering e x sorted (t ∷ ts) =
    ground (arith, stable_sort-covering e x (insert t sorted) ts, insert-covering e x t sorted)

-- For each expert and each position of the dispatched tokens, exactly one task of the expert covers the
-- position when it lies between `offsets[expert]` and `offsets[expert + 1]`, and none otherwise: the
-- tasks share out every expert's tokens, whatever the scheduling.
pub plan_moe_tasks-covering :
    (counts : List ℕ) (s : MoeExecutionSchedule) (expert x : ℕ)
    → covering expert x (plan_moe_tasks counts s) ≡ bit (owns counts expert x)
unfolding plan_moe_tasks
plan_moe_tasks-covering counts s expert x = elim (Bool-cases (is_fixed s.task_scheduling)) [
  | inl h ↦ rw (h, plan_moe_tasks) (ground (arith, tasks_from-covering s counts 0 0 expert x))
  | inr h ↦
      rw (h, plan_moe_tasks)
        (ground (
          arith,
          stable_sort-covering expert x [] (tasks_from s 0 0 counts),
          tasks_from-covering s counts 0 0 expert x,
        ))
]

-- What holds of each task: it has a token, its worker is one of the threads, its bucket is large enough
-- where there are buckets, and a split task is not above the threshold.
pub record IsTask (s : MoeExecutionSchedule) (t : MoeTask) : Type 0 where
  pub has_token : t.begin < t.stop
  pub worker : t.preferred_worker < max 1 s.threads
  pub fits : is_bucketed s.strategy ≡ true → size t ≤ t.bucket
  pub split : is_load_aware s.task_scheduling ≡ true → size t ≤ max 1 s.split_threshold

bucket_for-ge : (count : ℕ) (buckets : List ℕ) → count ≤ bucket_for count buckets
unfolding bucket_for
bucket_for-ge count buckets = elim (Option-cases (find_if (λ bucket. leb count bucket) buckets)) [
  | inl e ↦ elim (Option-cases (back buckets)) [
    | inl f ↦ rw (e, f, bucket_for) (omega arith)
    | inr (b, f) ↦ rw (e, f, bucket_for) (omega arith)
  ]
  | inr (b, e) ↦ rw (e, bucket_for) (leb→le count b (find_if-holds _ buckets e))
]

task_bucket-ge :
    (s : MoeExecutionSchedule) (count : ℕ)
    → is_bucketed s.strategy ≡ true
    → count ≤ task_bucket s count
unfolding task_bucket
task_bucket-ge s count h = rw (h, task_bucket) (bucket_for-ge count s.token_buckets)

All-append : (P : MoeTask → Type 0) (ts us : List MoeTask) → All P ts → All P us → All P (ts ++ us)
All-append P [] us h k = k
All-append P (t ∷ ts) us h k = (h.0, All-append P ts us h.1 k)

chunk_of-le :
    (s : MoeExecutionSchedule) (count : ℕ)
    → is_load_aware s.task_scheduling ≡ true
    → chunk_of s count ≤ max 1 s.split_threshold
unfolding chunk_of
chunk_of-le s count h = elim (Bool-cases (ltb s.split_threshold count)) [
  | inl e ↦ rw (h, e, chunk_of) (omega arith)
  | inr e ↦ rw (h, e, chunk_of) (ground arith)
]

chunks-All :
    (s : MoeExecutionSchedule) (expert chunk limit fuel begin : ℕ)
    → 0 < chunk
    → (is_load_aware s.task_scheduling ≡ true → chunk ≤ max 1 s.split_threshold)
    → All (IsTask s) (chunks s expert chunk limit fuel begin)
unfolding chunks
chunks-All s expert chunk limit zero begin p c = tt
chunks-All s expert chunk limit (suc fuel) begin p c = elim (Bool-cases (ltb begin limit)) [
  | inl t ↦
      rw (t, chunks)
        (
          record {
            has_token = ground arith;
            worker = mod-lt expert (omega arith);
            fits = λ h. task_bucket-ge s (min (begin + chunk) limit - begin) h;
            split = λ h. let k = c h in omega arith;
          },
          chunks-All s expert chunk limit fuel (begin + chunk) p c,
        )
  | inr t ↦ rw (t, chunks) tt
]

expert_tasks-All :
    (s : MoeExecutionSchedule) (expert begin count : ℕ)
    → All (IsTask s) (expert_tasks s expert begin count)
unfolding expert_tasks
expert_tasks-All s expert begin count = elim (Bool-cases (count == 0)) [
  | inl t ↦ rw (t, expert_tasks) tt
  | inr t ↦
      rw (t, expert_tasks)
        (chunks-All s expert (chunk_of s count) (begin + count) count begin
          (chunk_of-positive s count (ground arith)) (chunk_of-le s count))
]

tasks_from-All :
    (s : MoeExecutionSchedule) (counts : List ℕ) (expert begin : ℕ)
    → All (IsTask s) (tasks_from s expert begin counts)
unfolding tasks_from
tasks_from-All s [] expert begin = tt
tasks_from-All s (count ∷ counts) expert begin =
    All-append (IsTask s) (expert_tasks s expert begin count) _
      (expert_tasks-All s expert begin count) (tasks_from-All s counts (suc expert) (begin + count))

insert-All :
    (P : MoeTask → Type 0) (t : MoeTask) (ts : List MoeTask) → P t → All P ts → All P (insert t ts)
unfolding insert
insert-All P t [] p h = (p, tt)
insert-All P t (u ∷ us) p h = elim (Bool-cases (ltb (size u) (size t))) [
  | inl e ↦ rw (e, insert) (p, (h.0, h.1))
  | inr e ↦ rw (e, insert) (h.0, insert-All P t us p h.1)
]

abbrev pub Larger : MoeTask → MoeTask → Type 0
Larger a b = size b ≤ size a

insert-Larger :
    (t : MoeTask) (ts : List MoeTask) → Pairwise Larger ts → Pairwise Larger (insert t ts)
unfolding insert
insert-Larger t [] h = (tt, tt)
insert-Larger t (u ∷ us) h = elim (Bool-cases (ltb (size u) (size t))) [
  | inl e ↦
      rw (e, insert) ((ground arith, All-map (Larger u) (Larger t) us (λ x k. ground arith) h.0), h)
  | inr e ↦ rw (e, insert) (insert-All (Larger u) t us (ground arith) h.0, insert-Larger t us h.1)
]

stable_sort-Larger :
    (s : MoeExecutionSchedule) (sorted ts : List MoeTask)
    → All (IsTask s) sorted
    → All (IsTask s) ts
    → Pairwise Larger sorted
    → All (IsTask s) (stable_sort sorted ts) × Pairwise Larger (stable_sort sorted ts)
unfolding stable_sort
stable_sort-Larger s sorted [] a b h = (a, h)
stable_sort-Larger s sorted (t ∷ ts) a b h =
    stable_sort-Larger s (insert t sorted) ts (insert-All (IsTask s) t sorted b.0 a) b.1
      (insert-Larger t sorted h)

-- Every planned task has a token, a worker below `max(1, threads)`, a bucket that its tokens fit where
-- the strategy is bucketed, and at most `max(1, split_threshold)` tokens where the scheduling splits;
-- unless the experts are fixed, no task is before a larger one.
pub plan_moe_tasks-IsTask :
    (counts : List ℕ) (s : MoeExecutionSchedule)
    → All (IsTask s) (plan_moe_tasks counts s)
      × (is_fixed s.task_scheduling ≡ false → Pairwise Larger (plan_moe_tasks counts s))
unfolding plan_moe_tasks
plan_moe_tasks-IsTask counts s = elim (Bool-cases (is_fixed s.task_scheduling)) [
  | inl h ↦ rw (h, plan_moe_tasks) (tasks_from-All s counts 0 0, λ e. absurd (true-ne-false e))
  | inr h ↦
      let r =
        stable_sort-Larger s [] (tasks_from s 0 0 counts) tt (tasks_from-All s counts 0 0) tt in
      rw (h, plan_moe_tasks) (r.0, λ e. r.1)
]
