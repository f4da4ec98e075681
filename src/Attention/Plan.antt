-- ===== src/Attention/Plan.antt =====
-- `select_attention_plan` (src/attention_compiler.cpp).
pub mod Bounds
use sched_forge.Base.{ℕ, ◌+◌, ◌*◌, ◌/◌, min, max, Bool, true, false, ◌&&◌, ltb, leb, if◌then◌else◌}
use sched_forge.Base.Result.{Result, ok, ◌>>◌}
use sched_forge.Schedule.{TargetInfo}
use sched_forge.Attention.Layout.{AttentionConfig, validate_config}

pub data AttentionLoweringStrategy : Type 0 where
  materialized tiled_materialized io_aware auto_scheduled_io_aware : AttentionLoweringStrategy
  split_kv_decode : AttentionLoweringStrategy

pub data AttentionParallelAxis : Type 0 where
  batch_head query_block head_query_block split_kv_axis : AttentionParallelAxis

pub record AttentionSchedule : Type 0 where
  pub query_tile : ℕ
  pub kv_tile : ℕ
  pub qk_micro_rows : ℕ
  pub qk_micro_columns : ℕ
  pub pv_micro_rows : ℕ
  pub pv_micro_columns : ℕ
  pub softmax_vector_width : ℕ
  pub pack_k : Bool
  pub pack_v : Bool
  pub prefetch_k : ℕ
  pub prefetch_v : ℕ
  pub threads : ℕ
  pub parallel_axis : AttentionParallelAxis

abbrev pub default_attention_schedule : AttentionSchedule
default_attention_schedule = record {
  query_tile = 32;
  kv_tile = 64;
  qk_micro_rows = 4;
  qk_micro_columns = 8;
  pv_micro_rows = 4;
  pv_micro_columns = 8;
  softmax_vector_width = 8;
  pack_k = true;
  pack_v = false;
  prefetch_k = 2;
  prefetch_v = 2;
  threads = 1;
  parallel_axis = head_query_block;
}

pub record AttentionPlanOptions : Type 0 where
  pub strategy : AttentionLoweringStrategy
  pub schedule : AttentionSchedule
  pub split_kv : ℕ

-- `std::clamp`, for bounds in order.
abbrev pub clamp : ℕ → ℕ → ℕ → ℕ
clamp value low high = if ltb value low then low else if ltb high value then high else value

-- The branch for one or two queries.
unfoldable pub decode_plan : AttentionConfig → ℕ → AttentionPlanOptions
decode_plan c threads = record {
  strategy = split_kv_decode;
  schedule = record default_attention_schedule {
    threads = threads;
    query_tile = 1;
    kv_tile = if leb 1024 c.sequence_kv then 128 else 64;
    parallel_axis = split_kv_axis;
  };
  split_kv = if ltb 1 threads then clamp (max 2 (c.sequence_kv / 128)) 2 threads else 1;
}

unfoldable pub materialized_plan : AttentionConfig → ℕ → AttentionPlanOptions
materialized_plan c threads = record {
  strategy = materialized;
  schedule = record default_attention_schedule {
    threads = threads;
    query_tile = c.sequence_query;
    kv_tile = c.sequence_kv;
  };
  split_kv = 1;
}

-- The bytes of one pair of a query and a key, `sizeof(float)` being 4.
abbrev pub bytes_per_pair : AttentionConfig → ℕ
bytes_per_pair c = (c.head_dim * 2 + c.head_dim_value + 1) * 4

unfoldable pub prefill_plan : AttentionConfig → TargetInfo → ℕ → AttentionPlanOptions
prefill_plan c target threads =
    let query_tile = if leb 128 c.head_dim then 16 else 32 in
    let kv_tile = clamp (target.l2_bytes / max 1 (bytes_per_pair c * query_tile)) 16 128 in
    record {
      strategy = auto_scheduled_io_aware;
      schedule = record default_attention_schedule {
        threads = threads;
        query_tile = query_tile;
        kv_tile = max 16 (kv_tile / 16 * 16);
      };
      split_kv = 1;
    }

unfoldable pub plan_options : AttentionConfig → TargetInfo → ℕ → AttentionPlanOptions
plan_options c target threads =
    if leb c.sequence_query 2
    then decode_plan c threads
    else if leb c.sequence_query 16 && leb c.sequence_kv 64
    then materialized_plan c threads
    else prefill_plan c target threads

unfoldable pub select_attention_plan :
    AttentionConfig → TargetInfo → ℕ → Result AttentionPlanOptions
select_attention_plan c target max_threads = do
  validate_config c
  ok (plan_options c target (clamp max_threads 1 target.logical_cpus))
