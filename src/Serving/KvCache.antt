-- ===== src/Serving/KvCache.antt =====
-- The contiguous key and value cache: `make_kv_cache` and `append_kv` of src/attention_compiler.cpp.
-- A float is an element of `F`, which is only stored, and `zero_float` is the value that `resize` fills in.
-- Counts are not negative but where a test of the code is on the sign.
use sched_forge.Base.{
  ℕ, zero, suc, ◌+◌, ◌*◌, max, not, ◌||◌, ltb, ◌==◌, none, some, List, [], ◌∷◌, length, get_elem?,
  set,
}
use sched_forge.Base.Loops.{for_range}
use sched_forge.Base.Result.{Result, ok, ◌>>◌, throw_if}
use sched_forge.Attention.Layout.{AttentionConfig, validate_config}

pub record KvCache (F : Type 0) : Type 0 where
  pub batch : ℕ
  pub kv_heads : ℕ
  pub head_dim : ℕ
  pub head_dim_value : ℕ
  pub capacity : ℕ
  pub used : ℕ
  pub keys : List F
  pub values : List F

module _ {F : Type 0} where
  -- `resize` of an empty vector.
  unfoldable pub zeros : F → ℕ → List F
  zeros x zero = []
  zeros x (suc n) = x ∷ zeros x n

  -- `target[i] = source[j]`; an index out of range is out of the model, and writes nothing.
  unfoldable pub copy_elem : List F → ℕ → List F → ℕ → List F
  copy_elem target i source j = elim (get_elem? source j) [
    | none ↦ target
    | some x ↦ set target i x
  ]

  -- `std::copy_n(source + from, n, target + to)`.
  unfoldable pub copy_n : List F → ℕ → ℕ → ℕ → List F → List F
  unfolding copy_elem for_range
  copy_n source from n to target =
      for_range n (λ i target. copy_elem target (to + i) source (from + i)) target

  unfoldable pub cache_of : F → AttentionConfig → ℕ → KvCache F
  unfolding zeros
  cache_of zero_float c capacity = record {
    batch = c.batch;
    kv_heads = c.kv_heads;
    head_dim = c.head_dim;
    head_dim_value = c.head_dim_value;
    capacity = max c.sequence_kv capacity;
    used = 0;
    keys = zeros zero_float (c.batch * c.kv_heads * max c.sequence_kv capacity * c.head_dim);
    values =
        zeros zero_float (c.batch * c.kv_heads * max c.sequence_kv capacity * c.head_dim_value);
  }

  unfoldable pub make_kv_cache : F → AttentionConfig → ℕ → Result (KvCache F)
  unfolding validate_config cache_of
  make_kv_cache zero_float c capacity = validate_config c >> ok (cache_of zero_float c capacity)

  -- The body of the two loops of `append_kv`, for the keys or the values of a head.
  unfoldable pub append_head : KvCache F → ℕ → ℕ → List F → ℕ → ℕ → List F → List F
  unfolding copy_n
  append_head cache width tokens source batch head =
      copy_n source ((batch * cache.kv_heads + head) * tokens * width) (tokens * width)
        (((batch * cache.kv_heads + head) * cache.capacity + cache.used) * width)

  unfoldable pub append_heads : List F → List F → ℕ → KvCache F → KvCache F
  unfolding append_head for_range
  append_heads keys values tokens cache =
      for_range cache.batch
        (λ batch. for_range cache.kv_heads (λ head now. record now {
          keys = append_head cache cache.head_dim tokens keys batch head now.keys;
          values = append_head cache cache.head_dim_value tokens values batch head now.values;
        }))
        cache

  unfoldable pub append_kv : KvCache F → List F → List F → ℕ → Result (KvCache F)
  unfolding append_heads
  append_kv cache keys values tokens =
      throw_if (tokens == 0 || ltb cache.capacity (cache.used + tokens))
        "KV cache capacity exceeded"
      >> throw_if
          (not (length keys == cache.batch * cache.kv_heads * tokens * cache.head_dim)
            || not (length values == cache.batch * cache.kv_heads * tokens * cache.head_dim_value))
          "KV append shape mismatch"
      >> ok (
          let stored = append_heads keys values tokens cache in
          record stored { used = stored.used + tokens })
