-- ===== src/Serving/PagedKv/Gather.antt =====
-- `gather_paged_kv` of src/next_milestones.cpp, and when it returns.
use sched_forge.Base.{
  ℕ, ◌+◌, ◌*◌, ◌/◌, ◌%◌, ◌<◌, ◌≡◌, ◌↔◌, refl, false, not, ◌==◌, ==_iff, Bool-cases, inl, inr, arith,
  none, some, List, get_elem?,
}
use sched_forge.Base.Loops.{for_range}
use sched_forge.Base.Result.{Result, ok, throw_if, throw-ne-ok, ◌>>=◌, ◌>>◌}
use sched_forge.Attention.Layout.{AttentionConfig, is_invalid, validate_config}
use sched_forge.Serving.KvCache.{KvCache, copy_elem, cache_of, make_kv_cache}
use sched_forge.Serving.PagedKv.{PagedKvConfig, PagedKvCache, page_offset}
use sched_forge.Serving.PagedKv.Invariant.{IsPositive}
use sched_forge.Serving.PagedKv.Reachable.{IsReachable, IsReachable-IsValid}

-- The configuration that `gather_paged_kv` gives the contiguous cache: what it does not assign keeps
-- the default of `AttentionConfig`.
unfoldable pub gather_config : PagedKvConfig → ℕ → AttentionConfig
gather_config c used = record {
  batch = c.batch;
  query_heads = 8;
  kv_heads = c.kv_heads;
  sequence_query = 128;
  sequence_kv = used;
  head_dim = c.head_dim;
  head_dim_value = c.head_dim_value;
  causal = false;
}

module _ {F : Type 0} where
  -- The loop over the dimensions of one token of a head, for the keys or the values.
  unfoldable pub gather_row : PagedKvCache F → List F → ℕ → ℕ → ℕ → ℕ → ℕ → List F → List F
  unfolding page_offset copy_elem for_range
  gather_row cache storage page batch head token width =
      let c = cache.config in
      for_range width (λ dim target.
        copy_elem target (((batch * c.kv_heads + head) * cache.used + token) * width + dim) storage
          (page_offset c page batch head (token % c.page_tokens) dim width))

  unfoldable pub gather_token : PagedKvCache F → ℕ → ℕ → KvCache F → KvCache F
  unfolding gather_row for_range
  gather_token cache token page flat =
      let c = cache.config in
      for_range c.batch
        (λ batch. for_range c.kv_heads (λ head now. record now {
          keys = gather_row cache cache.keys page batch head token c.head_dim now.keys;
          values = gather_row cache cache.values page batch head token c.head_dim_value now.values;
        }))
        flat

  unfoldable pub gather_tokens : PagedKvCache F → KvCache F → KvCache F
  unfolding gather_token for_range
  gather_tokens cache flat =
      for_range cache.used
        (λ token now. elim (get_elem? cache.page_table (token / cache.config.page_tokens)) [
          | none ↦ now
          | some page ↦ gather_token cache token page now
        ])
        flat

  unfoldable pub gather_paged_kv : F → PagedKvCache F → Result (KvCache F)
  unfolding gather_config make_kv_cache gather_tokens
  gather_paged_kv zero_float cache =
      throw_if (cache.used == 0) "cannot gather empty paged KV cache"
      >> make_kv_cache zero_float (gather_config cache.config cache.used) cache.used
      >>= (λ (flat : KvCache F). ok (gather_tokens cache (record flat { used = cache.used })))

gather_config-invalid :
    (c : PagedKvConfig) (used : ℕ)
    → IsPositive c
    → 0 < used
    → is_invalid (gather_config c used) ≡ not (8 % c.kv_heads == 0)
unfolding is_invalid gather_config
gather_config-invalid c used w h = ground (arith, w.batch_pos, w.heads_pos, w.dim_pos, w.value_pos)

module _ {F : Type 0} where
  -- A reachable paged cache that is not empty can be gathered exactly if the number of its heads divides
  -- 8, the default number of query heads: with any other number the call throws.
  pub gather-returns :
      {zero_float : F} {c : PagedKvConfig} (cache : PagedKvCache F)
      → IsReachable zero_float c cache
      → 0 < cache.used
      → ((flat : KvCache F) × (gather_paged_kv zero_float cache ≡ ok flat))
        ↔ (8 % cache.config.kv_heads ≡ 0)
  unfolding gather_paged_kv make_kv_cache validate_config
  gather-returns {zero_float} cache r h =
      let w = IsReachable-IsValid r in
      let config = gather_config-invalid cache.config cache.used w.config_ok h in
      let some_used : (cache.used == 0) ≡ false = ground arith in
      elim (Bool-cases (8 % cache.config.kv_heads == 0)) [
        | inl t ↦ (
          (λ _. (==_iff (8 % cache.config.kv_heads) 0).0 t),
          (λ _. (
            gather_tokens cache
                (record (cache_of zero_float (gather_config cache.config cache.used) cache.used) {
                  used = cache.used;
                }),
            rw (gather_paged_kv, some_used, make_kv_cache, validate_config, config, t) refl,
          )),
        )
        | inr f ↦ (
          (λ returns. absurd (
              throw-ne-ok (
                rw (gather_paged_kv, some_used, make_kv_cache, validate_config, config, f) at
                  returns.1))),
          (λ e. absurd (ground arith)),
        )
      ]
