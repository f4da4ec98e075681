-- ===== src/Serving/PagedKv.antt =====
-- The paged key and value cache of src/next_milestones.cpp: its pages, appending, truncating,
-- releasing and gathering. A float is an element of `F`, which is only stored. An integer that a
-- caller passes and whose sign is tested is an `ℤ`; the others are not negative.
pub mod Pages
pub mod Invariant
pub mod Calls
pub mod Reachable
pub mod Offsets
pub mod Stores
pub mod Rounds
pub mod Reads
pub mod Contents
pub mod Refinement
pub mod Gather
use Prim.Native.String.{String}
use sched_forge.Base.{
  ℕ, zero, suc, ◌+◌, ◌-◌, ◌*◌, ◌/◌, ◌%◌, Bool, true, false, not, ◌||◌, ltb, leb, ◌==◌,
  if◌then◌else◌, Option, none, some, List, [], ◌∷◌, ◌++◌, length, get_elem?, any,
}
use sched_forge.Base.Integers.{ℤ, pos, negsuc}
use sched_forge.Base.Loops.{for_range, back, pop_back}
use sched_forge.Base.Result.{Result, throw, ok, ◌>>=◌, ◌>>◌, throw_if}
use sched_forge.Attention.Layout.{AttentionConfig}
use sched_forge.Serving.KvCache.{KvCache, zeros, copy_elem, make_kv_cache}

pub record PagedKvConfig : Type 0 where
  pub batch : ℕ
  pub kv_heads : ℕ
  pub head_dim : ℕ
  pub head_dim_value : ℕ
  pub page_tokens : ℕ
  pub capacity : ℕ

-- `used` is the field `length`.
pub record PagedKvCache (F : Type 0) : Type 0 where
  pub config : PagedKvConfig
  pub used : ℕ
  pub page_table : List ℕ
  pub keys : List F
  pub values : List F
  pub free_pages : List ℕ

unfoldable pub is_invalid : PagedKvConfig → Bool
is_invalid c =
    c.batch == 0
    || c.kv_heads == 0
    || c.head_dim == 0
    || c.head_dim_value == 0
    || c.page_tokens == 0
    || c.capacity == 0

unfoldable pub validate_paged_config : PagedKvConfig → Result (Unit {0})
unfolding is_invalid
validate_paged_config c = throw_if (is_invalid c) "invalid paged KV configuration"

unfoldable pub page_offset : PagedKvConfig → ℕ → ℕ → ℕ → ℕ → ℕ → ℕ → ℕ
page_offset c page batch head token dim width =
    (((page * c.batch + batch) * c.kv_heads + head) * c.page_tokens + token) * width + dim

-- The pages that `tokens` tokens take up.
unfoldable pub pages_of : PagedKvConfig → ℕ → ℕ
pages_of c tokens = (tokens + c.page_tokens - 1) / c.page_tokens

-- `std::iota` from 0.
unfoldable pub iota : ℕ → List ℕ
iota zero = []
iota (suc n) = iota n ++ n ∷ []

unfoldable pub page_size : PagedKvConfig → ℕ
page_size c = c.batch * c.kv_heads * c.page_tokens

-- A call that returns or throws leaves the cache behind either way.
pub record Outcome (F : Type 0) : Type 0 where
  pub cache : PagedKvCache F
  pub error : Option String

-- Where token `token` of a head stands in the appended keys or values.
unfoldable pub source_row : PagedKvConfig → ℕ → ℕ → ℕ → ℕ → ℕ → ℕ
source_row c tokens token batch head width = ((batch * c.kv_heads + head) * tokens + token) * width

module _ {F : Type 0} where
  unfoldable pub paged_of : F → PagedKvConfig → PagedKvCache F
  unfolding zeros iota page_size pages_of
  paged_of zero_float c = record {
    config = c;
    used = 0;
    page_table = [];
    keys = zeros zero_float (pages_of c c.capacity * page_size c * c.head_dim);
    values = zeros zero_float (pages_of c c.capacity * page_size c * c.head_dim_value);
    free_pages = iota (pages_of c c.capacity);
  }

  unfoldable pub make_paged_kv_cache : F → PagedKvConfig → Result (PagedKvCache F)
  unfolding validate_paged_config paged_of
  make_paged_kv_cache zero_float c = validate_paged_config c >> ok (paged_of zero_float c)

  -- The last free page becomes the last page of the table.
  unfoldable pub take_page : PagedKvCache F → ℕ → PagedKvCache F
  unfolding pop_back
  take_page cache page = record cache {
    page_table = cache.page_table ++ page ∷ [];
    free_pages = pop_back cache.free_pages;
  }

  -- `while (page_table.size() <= last_page)`; a round makes the table longer, so that `suc last_page`
  -- rounds of fuel are enough.
  unfoldable pub grow_table : ℕ → ℕ → PagedKvCache F → Outcome F
  unfolding take_page back
  grow_table zero last_page cache = record { cache = cache; error = none }
  grow_table (suc fuel) last_page cache = elim (leb (length cache.page_table) last_page) [
    | false ↦ record { cache = cache; error = none }
    | true ↦ elim (back cache.free_pages) [
      | none ↦ record { cache = cache; error = some "paged KV page allocator exhausted" }
      | some page ↦ grow_table fuel last_page (take_page cache page)
    ]
  ]

  -- The loop over the dimensions of one token of a head, for the keys or the values.
  unfoldable pub store_row : PagedKvConfig → ℕ → ℕ → ℕ → ℕ → ℕ → List F → ℕ → List F → List F
  unfolding page_offset copy_elem for_range
  store_row c page batch head page_token width source from = for_range width (λ dim target.
      copy_elem target (page_offset c page batch head page_token dim width) source (from + dim))

  -- The loops over the batches and heads of one token.
  unfoldable pub store_token :
      PagedKvConfig → List F → List F → ℕ → ℕ → ℕ → ℕ → PagedKvCache F → PagedKvCache F
  unfolding store_row source_row for_range
  store_token c keys values tokens token page page_token cache =
      for_range c.batch
        (λ batch. for_range c.kv_heads (λ head now. record now {
          keys =
              store_row c page batch head page_token c.head_dim keys
                (source_row c tokens token batch head c.head_dim) now.keys;
          values =
              store_row c page batch head page_token c.head_dim_value values
                (source_row c tokens token batch head c.head_dim_value) now.values;
        }))
        cache

  -- A token without a page is out of the model, and is not stored.
  unfoldable pub store_tokens : List F → List F → ℕ → PagedKvCache F → PagedKvCache F
  unfolding store_token for_range
  store_tokens keys values tokens cache =
      for_range tokens
        (λ token now.
          elim (get_elem? cache.page_table ((cache.used + token) / cache.config.page_tokens)) [
            | none ↦ now
            | some page ↦
                store_token cache.config keys values tokens token page
                  ((cache.used + token) % cache.config.page_tokens) now
          ])
        cache

  unfoldable pub append_paged_kv : PagedKvCache F → List F → List F → ℤ → Outcome F
  unfolding grow_table store_tokens
  append_paged_kv cache keys values (negsuc n) = record {
    cache = cache;
    error = some "paged KV capacity exceeded";
  }
  append_paged_kv cache keys values (pos tokens) =
      let c = cache.config in
      if tokens == 0 || ltb c.capacity (cache.used + tokens)
      then record { cache = cache; error = some "paged KV capacity exceeded" }
      else if not (length keys == c.batch * c.kv_heads * tokens * c.head_dim)
          || not (length values == c.batch * c.kv_heads * tokens * c.head_dim_value)
      then record { cache = cache; error = some "paged KV append shape mismatch" }
      else (let last_page = (cache.used + tokens - 1) / c.page_tokens in
          let grown = grow_table (suc last_page) last_page cache in
          elim grown.error [
            | some message ↦ grown
            | none ↦
                (let stored = store_tokens keys values tokens grown.cache in
                  record { cache = record stored { used = stored.used + tokens }; error = none })
          ])

  -- The last page of the table becomes the last free page.
  unfoldable pub give_page : PagedKvCache F → ℕ → PagedKvCache F
  unfolding pop_back
  give_page cache page = record cache {
    page_table = pop_back cache.page_table;
    free_pages = cache.free_pages ++ page ∷ [];
  }

  -- `while (page_table.size() > retained_pages)`; the length of the table is fuel enough.
  unfoldable pub shrink_table : ℕ → ℕ → PagedKvCache F → PagedKvCache F
  unfolding give_page back
  shrink_table zero retained cache = cache
  shrink_table (suc fuel) retained cache = elim (ltb retained (length cache.page_table)) [
    | false ↦ cache
    | true ↦ elim (back cache.page_table) [
      | none ↦ cache
      | some page ↦ shrink_table fuel retained (give_page cache page)
    ]
  ]

  unfoldable pub truncate_paged_kv : PagedKvCache F → ℤ → Outcome F
  unfolding shrink_table pages_of
  truncate_paged_kv cache (negsuc n) = record {
    cache = cache;
    error = some "invalid paged KV truncation length";
  }
  truncate_paged_kv cache (pos new_length) =
      if ltb cache.used new_length
      then record { cache = cache; error = some "invalid paged KV truncation length" }
      else (let retained = if new_length == 0 then 0 else pages_of cache.config new_length in
          record {
            cache = record (shrink_table (length cache.page_table) retained cache) {
              used = new_length;
            };
            error = none;
          })

  -- `page_count` of `release_paged_kv_pages`.
  unfoldable pub stored_pages : PagedKvCache F → ℕ
  stored_pages cache =
      let c = cache.config in
      length cache.keys / (c.batch * c.kv_heads * c.page_tokens * c.head_dim)

  -- One round of the loop; a page out of range or in use is an error.
  unfoldable pub release_page : PagedKvCache F → ℤ → Outcome F
  unfolding stored_pages
  release_page cache (negsuc n) = record { cache = cache; error = some "invalid physical KV page" }
  release_page cache (pos page) =
      if leb (stored_pages cache) page
      then record { cache = cache; error = some "invalid physical KV page" }
      else if any (λ p. p == page) cache.page_table
      then record { cache = cache; error = some "cannot release an active paged KV page" }
      else if any (λ p. p == page) cache.free_pages
      then record { cache = cache; error = none }
      else record {
        cache = record cache { free_pages = cache.free_pages ++ page ∷ [] };
        error = none;
      }

  -- The pages before the one that throws stay released.
  unfoldable pub release_paged_kv_pages : PagedKvCache F → List ℤ → Outcome F
  unfolding release_page
  release_paged_kv_pages cache [] = record { cache = cache; error = none }
  release_paged_kv_pages cache (page ∷ pages) =
      let first = release_page cache page in
      elim first.error [ some message ↦ first | none ↦ release_paged_kv_pages first.cache pages ]

module _ {F : Type 0} where
  -- `paged_pointer(...)[dim]`: how attention reads the cache.
  unfoldable pub read_page : PagedKvCache F → List F → ℕ → ℕ → ℕ → ℕ → ℕ → Option F
  unfolding page_offset
  read_page cache storage batch head token width dim =
      elim (get_elem? cache.page_table (token / cache.config.page_tokens)) [
        | none ↦ none
        | some page ↦ get_elem? storage (
            page_offset cache.config page batch head (token % cache.config.page_tokens) 0 width
            + dim)
      ]
