-- ===== src/Attention/Plan/Bounds.antt =====
-- The tiles, threads and splits of the plan that `select_attention_plan` (src/attention_compiler.cpp) selects.
use sched_forge.Base.{
  ℕ, ◌*◌, ◌/◌, ◌%◌, ◌≤◌, ◌<◌, ◌≡◌, ◌⊎◌, inl, inr, refl, max, true, false, Bool-cases, ◌&&◌, leb,
  if◌then◌else◌, arith,
}
use sched_forge.Base.Result.{ok, throw}
use sched_forge.Schedule.{TargetInfo}
use sched_forge.Attention.Layout.{AttentionConfig, is_invalid, validate_config}
use sched_forge.Attention.Plan.{
  bytes_per_pair, AttentionPlanOptions, split_kv_decode, auto_scheduled_io_aware, clamp,
  decode_plan, materialized_plan, prefill_plan, plan_options, select_attention_plan,
}

-- A usable plan: there are threads, at most as many as processors, tiles that are not empty and that
-- fit the strategy, and no more parts of the keys than threads.
pub record IsUsable (c : AttentionConfig) (target : TargetInfo) (o : AttentionPlanOptions)
    : Type 0 where
  pub some_thread : 1 ≤ o.schedule.threads
  pub few_threads : o.schedule.threads ≤ target.logical_cpus
  pub query_rows : 1 ≤ o.schedule.query_tile
  pub key_rows : 1 ≤ o.schedule.kv_tile
  pub split_parts : (1 ≤ o.split_kv) × (o.split_kv ≤ o.schedule.threads)
  pub split_decode : 1 < o.split_kv → (o.strategy ≡ split_kv_decode) × (c.sequence_query ≤ 2)
  pub whole_tiles :
      o.strategy ≡ auto_scheduled_io_aware
      → (o.schedule.kv_tile % 16 ≡ 0) × (o.schedule.kv_tile ≤ 128)

decode-IsUsable :
    (c : AttentionConfig) (target : TargetInfo) (threads : ℕ)
    → 1 ≤ threads
    → threads ≤ target.logical_cpus
    → c.sequence_query ≤ 2
    → IsUsable c target (decode_plan c threads)
unfolding decode_plan
decode-IsUsable c target threads a b q = record {
  some_thread = a;
  few_threads = b;
  query_rows = omega arith;
  key_rows = ground arith;
  split_parts = (ground arith, ground arith);
  split_decode = λ h. (refl, q);
  whole_tiles = λ h. cc;
}

materialized-IsUsable :
    (c : AttentionConfig) (target : TargetInfo) (threads : ℕ)
    → 1 ≤ threads
    → threads ≤ target.logical_cpus
    → 1 ≤ c.sequence_query
    → 1 ≤ c.sequence_kv
    → IsUsable c target (materialized_plan c threads)
unfolding materialized_plan
materialized-IsUsable c target threads a b q k = record {
  some_thread = a;
  few_threads = b;
  query_rows = q;
  key_rows = k;
  split_parts = (omega arith, a);
  split_decode = λ h. absurd (omega arith);
  whole_tiles = λ h. cc;
}

clamp-within : (x low high : ℕ) → low ≤ high → (low ≤ clamp x low high) × (clamp x low high ≤ high)
clamp-within x low high h = (ground arith, ground arith)

whole : (x : ℕ) → let tile = max 16 (clamp x 16 128 / 16 * 16) in (tile % 16 ≡ 0) × (tile ≤ 128)
whole x = let (a, b) = clamp-within x 16 128 (omega arith) in (omega arith, omega arith)

prefill-IsUsable :
    (c : AttentionConfig) (target : TargetInfo) (threads : ℕ)
    → 1 ≤ threads
    → threads ≤ target.logical_cpus
    → IsUsable c target (prefill_plan c target threads)
unfolding prefill_plan
prefill-IsUsable c target threads a b = record {
  some_thread = a;
  few_threads = b;
  query_rows = ground arith;
  key_rows = omega arith;
  split_parts = (omega arith, a);
  split_decode = λ h. absurd (omega arith);
  whole_tiles = λ h.
      whole (target.l2_bytes / max 1 (bytes_per_pair c * (if leb 128 c.head_dim then 16 else 32)));
}

valid_sequences :
    (c : AttentionConfig) → is_invalid c ≡ false → (1 ≤ c.sequence_query) × (1 ≤ c.sequence_kv)
unfolding is_invalid
valid_sequences c h = (ground arith, ground arith)

plan_options-IsUsable :
    (c : AttentionConfig) (target : TargetInfo) (threads : ℕ)
    → 1 ≤ threads
    → threads ≤ target.logical_cpus
    → is_invalid c ≡ false
    → IsUsable c target (plan_options c target threads)
unfolding plan_options
plan_options-IsUsable c target threads a b v = elim (Bool-cases (leb c.sequence_query 2)) [
  | inl e ↦ rw (e, plan_options) (decode-IsUsable c target threads a b (ground arith))
  | inr e ↦ elim (Bool-cases (leb c.sequence_query 16 && leb c.sequence_kv 64)) [
    | inl f ↦
        rw (e, f, plan_options)
          (materialized-IsUsable c target threads a b (valid_sequences c v).0
            (valid_sequences c v).1)
    | inr f ↦ rw (e, f, plan_options) (prefill-IsUsable c target threads a b)
  ]
]

-- On a target with at least one processor, the planner throws for an invalid configuration, and for a
-- valid one returns a usable plan: threads within the processors, tiles that are not empty, no more
-- parts of the keys than threads and several only for one or two queries, and key tiles of the
-- scheduled strategy that are multiples of 16 up to 128.
pub select_attention_plan-IsUsable :
    (c : AttentionConfig) (target : TargetInfo) (max_threads : ℕ)
    → 1 ≤ target.logical_cpus
    → ((is_invalid c ≡ true)
        × (select_attention_plan c target max_threads ≡ throw "invalid attention configuration"))
      ⊎ ((is_invalid c ≡ false)
          × ((o : AttentionPlanOptions) × (select_attention_plan c target max_threads ≡ ok o)
              × IsUsable c target o))
unfolding select_attention_plan validate_config
select_attention_plan-IsUsable c target max_threads h = elim (Bool-cases (is_invalid c)) [
  | inl e ↦ inl (e, rw (e, select_attention_plan) refl)
  | inr e ↦
      let threads = clamp max_threads 1 target.logical_cpus in
      let (a, b) = clamp-within max_threads 1 target.logical_cpus h in
      inr (
        e,
        (
          plan_options c target threads,
          rw (e, select_attention_plan) refl,
          plan_options-IsUsable c target threads a b e,
        ),
      )
]
