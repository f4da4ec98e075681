-- ===== src/Serving/PagedKv/Calls.antt =====
-- What each call on a paged cache does to its pages, and what appending writes to.
use native.Mathlib.Nat.{div-lt_iff_lt-mul}
use Prim.Native.String.{String}
use sched_forge.Base.{
  ℕ, suc, ◌+◌, ◌-◌, ◌*◌, ◌/◌, ◌≤◌, ◌<◌, ◌≡◌, ◌⊎◌, refl, sym, ap, ◌∙◌, subst, not, ◌||◌, ltb, ◌==◌,
  Bool-cases, Option-cases, none, some, List, length, get_elem?, length-set, inl, inr, arith,
}
use sched_forge.Base.Loops.{for_range-keep}
use sched_forge.Serving.KvCache.{copy_elem}
use sched_forge.Serving.PagedKv.{
  pos, PagedKvConfig, PagedKvCache, Outcome, pages_of, page_offset, grow_table, store_row,
  source_row, store_token, store_tokens, append_paged_kv,
}
use sched_forge.Serving.PagedKv.Pages.{IsGrown, grow_table-IsGrown, covers, page_of-lt}
use sched_forge.Serving.PagedKv.Invariant.{IsValid}

pub some-ne-none : {message : String} → some message ≡ none → ⊥
some-ne-none e = cc

module _ {F : Type 0} where
  pub length-copy_elem :
      (target : List F) (i : ℕ) (source : List F) (j : ℕ)
      → length (copy_elem target i source j) ≡ length target
  unfolding copy_elem
  length-copy_elem target i source j = elim (Option-cases (get_elem? source j)) [
    | inl e ↦ rw (e, copy_elem) refl
    | inr (x, e) ↦ rw (e, copy_elem) (length-set target i x)
  ]

  pub length-store_row :
      (c : PagedKvConfig) (page batch head token width : ℕ) (source : List F) (from : ℕ)
      (target : List F)
      → length (store_row c page batch head token width source from target) ≡ length target
  unfolding store_row
  length-store_row c page batch head token width source from target =
      for_range-keep (λ (s : List F). length s ≡ length target) width _
        (λ i l s e.
          length-copy_elem s (page_offset c page batch head token i width) source (from + i) ∙ e)
        target refl

  -- Only the stored keys and values have changed, and not how many.
  pub record IsStored (cache now : PagedKvCache F) : Type 0 where
    pub same : now ≡ record cache { keys = now.keys; values = now.values }
    pub keys_len : length now.keys ≡ length cache.keys
    pub values_len : length now.values ≡ length cache.values

  store_token-IsStored :
      (c : PagedKvConfig) (keys values : List F) (tokens token page page_token : ℕ)
      (cache now : PagedKvCache F)
      → IsStored cache now
      → IsStored cache (store_token c keys values tokens token page page_token now)
  unfolding store_token
  store_token-IsStored c keys values tokens token page page_token cache now w =
      for_range-keep (IsStored cache) c.batch _
        (λ batch l. for_range-keep (IsStored cache) c.kv_heads _ (λ head k s v. record {
          same = λ i. record (v.same i) {
            keys =
                store_row c page batch head page_token c.head_dim keys
                  (source_row c tokens token batch head c.head_dim) s.keys;
            values =
                store_row c page batch head page_token c.head_dim_value values
                  (source_row c tokens token batch head c.head_dim_value) s.values;
          };
          keys_len = length-store_row c page batch head page_token _ keys _ s.keys ∙ v.keys_len;
          values_len =
              length-store_row c page batch head page_token _ values _ s.values ∙ v.values_len;
        }))
        now w

  pub store_tokens-IsStored :
      (keys values : List F) (tokens : ℕ) (cache : PagedKvCache F)
      → IsStored cache (store_tokens keys values tokens cache)
  unfolding store_tokens
  store_tokens-IsStored keys values tokens cache =
      for_range-keep (IsStored cache) tokens _
        (λ token l now w.
          elim (Option-cases
            (get_elem? cache.page_table ((cache.used + token) / cache.config.page_tokens))) [
              | inl e ↦ rw e w
              | inr (page, e) ↦
                  rw e
                    (store_token-IsStored cache.config keys values tokens token page _ cache now w)
            ])
        cache (record { same = refl; keys_len = refl; values_len = refl })

  -- A request to append that the cache has room for, with keys and values of the right sizes.
  pub record Fits (cache : PagedKvCache F) (keys values : List F) (tokens : ℕ) : Type 0 where
    pub some_tokens : 0 < tokens
    pub room : cache.used + tokens ≤ cache.config.capacity
    pub keys_fit :
        length keys ≡ cache.config.batch * cache.config.kv_heads * tokens * cache.config.head_dim
    pub values_fit :
        length values
        ≡ cache.config.batch * cache.config.kv_heads * tokens * cache.config.head_dim_value

  -- The table with room for the tokens, and the cache once they are stored.
  abbrev pub grown_for : PagedKvCache F → ℕ → Outcome F
  grown_for cache tokens =
      let last_page = (cache.used + tokens - 1) / cache.config.page_tokens in
      grow_table (suc last_page) last_page cache

  abbrev pub appended : PagedKvCache F → List F → List F → ℕ → PagedKvCache F
  appended cache keys values tokens =
      let stored = store_tokens keys values tokens (grown_for cache tokens).cache in
      record stored { used = stored.used + tokens }

  pub grown_for-IsGrown :
      (cache : PagedKvCache F) (tokens : ℕ)
      → IsValid cache
      → 0 < tokens
      → cache.used + tokens ≤ cache.config.capacity
      → IsGrown
          (pages_of cache.config cache.config.capacity)
          ((cache.used + tokens - 1) / cache.config.page_tokens)
          cache
          (grown_for cache tokens)
  grown_for-IsGrown cache tokens w positive room =
      let c = cache.config in
      let n = pages_of c c.capacity in
      let last = (cache.used + tokens - 1) / c.page_tokens in
      let below : last < n =
        page_of-lt (cache.used + tokens - 1) c.page_tokens n w.config_ok.tokens_pos
          (omega (arith, covers c c.capacity w.config_ok.tokens_pos)) in
      grow_table-IsGrown n (suc last) last cache w.pages below (omega arith)

  -- A request that does not fit changes nothing, and one that fits is carried out.
  pub append-cases :
      (cache : PagedKvCache F) (keys values : List F) (tokens : ℕ)
      → IsValid cache
      → ((¬ Fits cache keys values tokens)
          × ((append_paged_kv cache keys values (pos tokens)).cache ≡ cache)
          × ¬ ((append_paged_kv cache keys values (pos tokens)).error ≡ none))
        ⊎ (Fits cache keys values tokens
            × (append_paged_kv cache keys values (pos tokens)
                ≡ record { cache = appended cache keys values tokens; error = none }))
  unfolding append_paged_kv
  append-cases cache keys values tokens w =
      let c = cache.config in
      elim (Bool-cases (tokens == 0 || ltb c.capacity (cache.used + tokens))) [
        | inl t ↦ inl (
          (λ f. absurd (ground (arith, f.some_tokens, f.room))),
          rw (t, append_paged_kv) refl,
          (λ e. some-ne-none (rw (t, append_paged_kv) at e)),
        )
        | inr f ↦
            elim (Bool-cases (
              not (length keys == c.batch * c.kv_heads * tokens * c.head_dim)
              || not (length values == c.batch * c.kv_heads * tokens * c.head_dim_value))) [
                | inl t ↦ inl (
                  (λ fits. absurd (ground (arith, fits.keys_fit, fits.values_fit))),
                  rw (f, t, append_paged_kv) refl,
                  (λ e. some-ne-none (rw (f, t, append_paged_kv) at e)),
                )
                | inr g ↦
                    let fits : Fits cache keys values tokens = record {
                      some_tokens = ground arith;
                      room = ground arith;
                      keys_fit = ground arith;
                      values_fit = ground arith;
                    } in
                    let e = (grown_for-IsGrown cache tokens w fits.some_tokens fits.room).returns in
                    inr (fits, rw (f, g, e, append_paged_kv) refl)
              ]
      ]

  pub appended-IsValid :
      (cache : PagedKvCache F) (keys values : List F) (tokens : ℕ)
      → IsValid cache
      → Fits cache keys values tokens
      → IsValid (appended cache keys values tokens)
  appended-IsValid cache keys values tokens w fits =
      let c = cache.config in
      let grown = grown_for-IsGrown cache tokens w fits.some_tokens fits.room in
      let g = (grown_for cache tokens).cache in
      let s = store_tokens-IsStored keys values tokens g in
      let now = store_tokens keys values tokens g in
      let e : now ≡ record cache {
        page_table = g.page_table;
        free_pages = g.free_pages;
        keys = now.keys;
        values = now.values;
      } =
        s.same ∙ (λ i. record (grown.same i) { keys = now.keys; values = now.values }) in
      let kept : IsValid (record cache {
        page_table = g.page_table;
        free_pages = g.free_pages;
        keys = now.keys;
        values = now.values;
        used = cache.used + tokens;
      }) =
        record {
          config_ok = w.config_ok;
          pages = grown.pages;
          bounded = fits.room;
          covered = omega (
            arith,
            fits.some_tokens,
            (div-lt_iff_lt-mul {x = cache.used + tokens - 1} w.config_ok.tokens_pos).0 grown.long,
          );
          keys_size =
              s.keys_len ∙ ap (λ (x : PagedKvCache F). length x.keys) grown.same ∙ w.keys_size;
          values_size =
              s.values_len
              ∙ ap (λ (x : PagedKvCache F). length x.values) grown.same
              ∙ w.values_size;
        } in
      subst (λ (x : PagedKvCache F). IsValid (record x { used = x.used + tokens })) (sym e) kept
