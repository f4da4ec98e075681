-- ===== src/Moe/Tasks.antt =====
-- `bucket_for` and `plan_moe_tasks` (src/moe_compiler.cpp). The integers are not negative; `threads` and
-- `split_threshold` below 0 behave as at 0.
pub mod Chunks
pub mod Tiling
use sched_forge.Base.{
  ℕ, zero, suc, ◌+◌, ◌-◌, ◌*◌, ◌%◌, ◌<◌, min, max, Bool, true, false, ◌&&◌, find_if, Option, none,
  some, List, [], ◌∷◌, ◌++◌, ltb, leb, ◌==◌, if◌then◌else◌,
}

pub data MoeExecutionStrategy : Type 0 where
  independent_experts grouped bucketed_grouped : MoeExecutionStrategy

pub data MoeTaskScheduling : Type 0 where
  fixed_experts work_stealing load_aware_split : MoeTaskScheduling

-- The fields of `MoeExecutionSchedule` that the planner reads.
pub record MoeExecutionSchedule : Type 0 where
  pub strategy : MoeExecutionStrategy
  pub task_scheduling : MoeTaskScheduling
  pub token_buckets : List ℕ
  pub split_threshold : ℕ
  pub threads : ℕ

pub record MoeTask : Type 0 where
  pub expert : ℕ
  pub begin : ℕ
  pub stop : ℕ
  pub bucket : ℕ
  pub preferred_worker : ℕ

unfoldable pub back : List ℕ → Option ℕ
back [] = none
back (x ∷ []) = some x
back (x ∷ y ∷ xs) = back (y ∷ xs)

unfoldable pub bucket_for : ℕ → List ℕ → ℕ
bucket_for count buckets = elim (find_if (λ bucket. leb count bucket) buckets) [
  | some bucket ↦ bucket
  | none ↦ elim (back buckets) [ none ↦ count | some bucket ↦ max count bucket ]
]

abbrev pub is_bucketed : MoeExecutionStrategy → Bool
is_bucketed bucketed_grouped = true
is_bucketed _ = false

abbrev pub is_load_aware : MoeTaskScheduling → Bool
is_load_aware load_aware_split = true
is_load_aware _ = false

abbrev pub is_fixed : MoeTaskScheduling → Bool
is_fixed fixed_experts = true
is_fixed _ = false

unfoldable pub task_bucket : MoeExecutionSchedule → ℕ → ℕ
task_bucket schedule count =
    if is_bucketed schedule.strategy
    then bucket_for count schedule.token_buckets
    else elim (back schedule.token_buckets) [ none ↦ count | some bucket ↦ bucket ]

unfoldable pub chunk_of : MoeExecutionSchedule → ℕ → ℕ
chunk_of schedule count =
    if is_load_aware schedule.task_scheduling && ltb schedule.split_threshold count
    then max 1 schedule.split_threshold
    else count

abbrev pub make_task : MoeExecutionSchedule → ℕ → ℕ → ℕ → MoeTask
make_task schedule expert begin stop = record {
  expert = expert;
  begin = begin;
  stop = stop;
  bucket = task_bucket schedule (stop - begin);
  preferred_worker = expert % max 1 schedule.threads;
}

-- `for (int begin = ...; begin < limit; begin += chunk)`: at most `fuel` rounds.
unfoldable pub chunks : MoeExecutionSchedule → ℕ → ℕ → ℕ → ℕ → ℕ → List MoeTask
chunks schedule expert chunk limit zero begin = []
chunks schedule expert chunk limit (suc fuel) begin =
    let rest = chunks schedule expert chunk limit fuel (begin + chunk) in
    if ltb begin limit
    then make_task schedule expert begin (min (begin + chunk) limit) ∷ rest
    else []

-- The tasks of one expert, whose tokens are those from `begin`. A round takes at least one token.
unfoldable pub expert_tasks : MoeExecutionSchedule → ℕ → ℕ → ℕ → List MoeTask
expert_tasks schedule expert begin count =
    if count == 0
    then []
    else chunks schedule expert (chunk_of schedule count) (begin + count) count begin

-- The loop over the experts; `begin` is `offsets[expert]`, the sum of the counts before.
unfoldable pub tasks_from : MoeExecutionSchedule → ℕ → ℕ → List ℕ → List MoeTask
tasks_from schedule expert begin [] = []
tasks_from schedule expert begin (count ∷ counts) =
    expert_tasks schedule expert begin count
    ++ tasks_from schedule (suc expert) (begin + count) counts

abbrev pub size : MoeTask → ℕ
size t = t.stop - t.begin

-- `std::stable_sort` by decreasing size: a task goes behind those that are not smaller.
unfoldable pub insert : MoeTask → List MoeTask → List MoeTask
insert t [] = t ∷ []
insert t (u ∷ us) = let rest = insert t us in if ltb (size u) (size t) then t ∷ u ∷ us else u ∷ rest

unfoldable pub stable_sort : List MoeTask → List MoeTask → List MoeTask
stable_sort sorted [] = sorted
stable_sort sorted (t ∷ ts) = stable_sort (insert t sorted) ts

unfoldable pub plan_moe_tasks : List ℕ → MoeExecutionSchedule → List MoeTask
plan_moe_tasks counts schedule =
    let tasks = tasks_from schedule 0 0 counts in
    if is_fixed schedule.task_scheduling then tasks else stable_sort [] tasks
