-- ===== src/Examples/Machine.antt =====
-- The memory planners, the cache simulator and the task planner at concrete inputs.
use sched_forge.Base.{
  ◌⊎◌, ℕ, ◌+◌, ◌%◌, ◌≤◌, ◌≡◌, refl, true, false, some, List, [], ◌∷◌, length, get_elem?, update,
  All, Pairwise, arith,
}
use sched_forge.Base.Result.{ok, throw}
use sched_forge.Schedule.{Problem, Schedule, default_schedule, TargetInfo, default_target}
use sched_forge.Graph.Types.{default_layout}
use sched_forge.Memory.Planner.{plan, peak_bytes}
use sched_forge.Memory.Planner.Safety.{BuffersApart, plan-Pairwise, plan-IsAligned}
use sched_forge.Memory.Slots.{GraphBufferPlan, assign_all}
use sched_forge.Memory.Slots.Safety.{TemporariesApart, assign_all-Pairwise}
use sched_forge.Simulator.Cache.{
  Line, empty_line, Cache, replicate, make_cache, access_set, access, resident,
}
use sched_forge.Simulator.Cache.Lru.{UsedAfter, access_set-victim}
use sched_forge.Simulator.Cache.Residence.{accesses, accesses-resident}
use sched_forge.Simulator.Hierarchy.{Hierarchy, hierarchy_of, make_hierarchy, run}
use sched_forge.Simulator.Hierarchy.Counters.{run-counters}
use sched_forge.Attention.Layout.{AttentionConfig, is_invalid, q_index, k_index, v_index, o_index}
use sched_forge.Attention.Layout.Indexes.{IsLayout, indexes-IsLayout}
use sched_forge.Attention.Plan.{AttentionPlanOptions, select_attention_plan}
use sched_forge.Attention.Plan.Bounds.{IsUsable, select_attention_plan-IsUsable}
use sched_forge.Moe.Tasks.{
  bucketed_grouped, load_aware_split, MoeExecutionSchedule, is_fixed, plan_moe_tasks,
}
use sched_forge.Moe.Tasks.Chunks.{covering, bit, owns}
use sched_forge.Moe.Tasks.Tiling.{IsTask, Larger, plan_moe_tasks-covering, plan_moe_tasks-IsTask}

abbrev problem : Problem
problem = record { m = 64; n = 48; k = 32; bias = true; relu = true }

abbrev unfused : Schedule
unfused = record default_schedule { pack_a = true; pack_b = true; fused = false }

plan-Pairwise_example : Pairwise BuffersApart (plan problem unfused)
plan-Pairwise_example = plan-Pairwise problem unfused

plan-IsAligned_example :
    All
      (λ b. (b.offset % 64 ≡ 0) × (b.offset + b.bytes ≤ peak_bytes (plan problem unfused)))
      (plan problem unfused)
plan-IsAligned_example = plan-IsAligned problem unfused

abbrev temporary : ℕ → ℕ → ℕ → ℕ → GraphBufferPlan
temporary bytes first last value = record {
  name = "t";
  bytes = bytes;
  offset = 0;
  alignment = 64;
  first_dispatch = first;
  last_dispatch = last;
  value = value;
  external = false;
  layout = default_layout;
}

abbrev temporaries : List GraphBufferPlan
temporaries = temporary 100 0 1 2 ∷ temporary 40 1 2 3 ∷ temporary 80 2 3 4 ∷ []

assign_all-Pairwise_example :
    Pairwise TemporariesApart (assign_all temporaries).temporaries
    × All
        (λ t. (t.offset % 64 ≡ 0) × (t.offset + t.bytes ≤ (assign_all temporaries).workspace_bytes))
        (assign_all temporaries).temporaries
assign_all-Pairwise_example =
    assign_all-Pairwise temporaries
      ((omega arith, refl), ((omega arith, refl), ((omega arith, refl), tt)))

abbrev small_cache : Cache
small_cache = record {
  line_size = 64;
  ways = 2;
  sets = 4;
  lines = replicate 4 (replicate 2 empty_line);
  clock = 0;
}

small_cache-made : make_cache 512 64 2 ≡ ok small_cache
unfolding make_cache
small_cache-made = refl

accesses-resident_example :
    let c = accesses small_cache (0 ∷ 256 ∷ 512 ∷ []) in
    ((access c 256).1 ≡ resident c 256) × (resident (access c 256).0 256 ≡ true)
accesses-resident_example =
    accesses-resident 512 64 2 small_cache (0 ∷ 256 ∷ 512 ∷ []) 256 small_cache-made

abbrev full_set : List Line
full_set =
    record { tag = 1; last_used = 5; valid = true }
    ∷ record { tag = 2; last_used = 3; valid = true }
    ∷ []

access_set-victim_example :
    (v : ℕ) × (line : Line) × (get_elem? full_set v ≡ some line)
    × All (UsedAfter line.last_used) full_set
    × (access_set 6 9 full_set
        ≡ (update full_set v (λ _. record { tag = 9; last_used = 6; valid = true }), false))
access_set-victim_example =
    access_set-victim 6 9 full_set (λ e. cc, (λ e. cc, tt)) (omega arith) refl

abbrev small_target : TargetInfo
small_target = record default_target { l1_bytes = 1024; l2_bytes = 2048; l3_bytes = 4096 }

abbrev fresh_cache : ℕ → ℕ → Cache
fresh_cache ways sets = record {
  line_size = 64;
  ways = ways;
  sets = sets;
  lines = replicate sets (replicate ways empty_line);
  clock = 0;
}

abbrev small_hierarchy : Hierarchy
small_hierarchy = hierarchy_of 4096 (fresh_cache 8 2) (fresh_cache 8 4) (fresh_cache 16 4)

small_hierarchy-made : make_hierarchy small_target ≡ ok small_hierarchy
unfolding make_hierarchy make_cache
small_hierarchy-made = refl

run-counters_example :
    let after = run small_hierarchy ((0, true) ∷ (64, false) ∷ (0, false) ∷ []) in
    let r = after.result in
    (r.dtlb_hits + r.dtlb_misses ≡ r.memory_accesses)
    × (r.l1.hits + r.l1.misses ≡ r.memory_accesses)
    × (r.l2.hits + r.l2.misses ≡ r.l1.misses)
    × (r.l3.hits + r.l3.misses ≡ r.l2.misses)
    × (r.dram_accesses ≡ r.l3.misses)
    × (r.useful_prefetches ≤ r.prefetched_lines)
    × (length after.tlb ≤ 64)
run-counters_example =
    run-counters small_target small_hierarchy ((0, true) ∷ (64, false) ∷ (0, false) ∷ [])
      small_hierarchy-made

abbrev grouped_schedule : MoeExecutionSchedule
grouped_schedule = record {
  strategy = bucketed_grouped;
  task_scheduling = load_aware_split;
  token_buckets = 4 ∷ 16 ∷ 64 ∷ [];
  split_threshold = 32;
  threads = 4;
}

plan_moe_tasks-covering_example :
    covering 2 70 (plan_moe_tasks (10 ∷ 0 ∷ 80 ∷ []) grouped_schedule)
    ≡ bit (owns (10 ∷ 0 ∷ 80 ∷ []) 2 70)
plan_moe_tasks-covering_example = plan_moe_tasks-covering (10 ∷ 0 ∷ 80 ∷ []) grouped_schedule 2 70

plan_moe_tasks-IsTask_example :
    All (IsTask grouped_schedule) (plan_moe_tasks (10 ∷ 0 ∷ 80 ∷ []) grouped_schedule)
    × (is_fixed grouped_schedule.task_scheduling ≡ false
        → Pairwise Larger (plan_moe_tasks (10 ∷ 0 ∷ 80 ∷ []) grouped_schedule))
plan_moe_tasks-IsTask_example = plan_moe_tasks-IsTask (10 ∷ 0 ∷ 80 ∷ []) grouped_schedule

abbrev prefill : AttentionConfig
prefill = record {
  batch = 2;
  query_heads = 8;
  kv_heads = 4;
  sequence_query = 128;
  sequence_kv = 256;
  head_dim = 64;
  head_dim_value = 32;
  causal = true;
}

indexes-IsLayout_example :
    IsLayout 2 8 128 64 (q_index prefill)
    × IsLayout 2 4 256 64 (k_index prefill)
    × IsLayout 2 4 256 32 (v_index prefill)
    × IsLayout 2 8 128 32 (o_index prefill)
indexes-IsLayout_example = indexes-IsLayout prefill

select_attention_plan-IsUsable_example :
    ((is_invalid prefill ≡ true)
      × (select_attention_plan prefill default_target 4 ≡ throw "invalid attention configuration"))
    ⊎ ((is_invalid prefill ≡ false)
        × ((o : AttentionPlanOptions) × (select_attention_plan prefill default_target 4 ≡ ok o)
            × IsUsable prefill default_target o))
select_attention_plan-IsUsable_example =
    select_attention_plan-IsUsable prefill default_target 4 (omega arith)
