-- ===== src/Serving/PagedKv/Contents.antt =====
-- The contents of a paged cache as its users see them, without pages: how many tokens it holds, and an
-- element for every batch, head, token and dimension. Appending and truncating act on the contents as on
-- a sequence of tokens.
use native.Mathlib.Nat.{div-lt_iff_lt-mul}
use sched_forge.Base.{
  ℕ, ◌+◌, ◌-◌, ◌*◌, ◌/◌, ◌≤◌, ◌<◌, ◌≡◌, refl, ap, ◌∙◌, fun_ext, Bool, false, ◌&&◌, Option, none,
  Bool-cases, ltb, if◌then◌else◌, List, length, get_elem?, inl, inr, arith,
}
use sched_forge.Serving.PagedKv.{
  PagedKvConfig, PagedKvCache, pages_of, page_size, source_row, store_tokens, read_page,
}
use sched_forge.Serving.PagedKv.Invariant.{IsValid}
use sched_forge.Serving.PagedKv.Calls.{
  Fits, store_tokens-IsStored, grown_for, grown_for-IsGrown, appended,
}
use sched_forge.Serving.PagedKv.Reads.{
  IsPosition, plane-holds, store_tokens-keys, store_tokens-values,
}
use sched_forge.Serving.PagedKv.Stores.{plane_tokens}

pub record Contents (F : Type 0) : Type 0 where
  pub tokens : ℕ
  pub key : ℕ → ℕ → ℕ → ℕ → Option F
  pub value : ℕ → ℕ → ℕ → ℕ → Option F

abbrev pub within : PagedKvConfig → ℕ → ℕ → ℕ → ℕ → Bool
within c width batch head dim = ltb batch c.batch && ltb head c.kv_heads && ltb dim width

module _ {F : Type 0} where
  -- One of the two planes of the contents.
  abbrev pub plane : PagedKvCache F → List F → ℕ → ℕ → ℕ → ℕ → ℕ → Option F
  plane cache storage width batch head t dim =
      if within cache.config width batch head dim && ltb t cache.used
      then read_page cache storage batch head t width dim
      else none

  unfoldable pub contents : PagedKvCache F → Contents F
  contents cache = record {
    tokens = cache.used;
    key = plane cache cache.keys cache.config.head_dim;
    value = plane cache cache.values cache.config.head_dim_value;
  }

  -- New tokens come behind the old ones; their elements stand in the source by batch, head, token and
  -- dimension.
  abbrev pub append_plane :
      PagedKvConfig → ℕ → ℕ → ℕ → List F → (ℕ → ℕ → ℕ → ℕ → Option F) → ℕ → ℕ → ℕ → ℕ → Option F
  append_plane c width tokens more source old batch head t dim =
      if ltb t tokens
      then old batch head t dim
      else if within c width batch head dim && ltb t (tokens + more)
      then get_elem? source (((batch * c.kv_heads + head) * more + (t - tokens)) * width + dim)
      else none

  unfoldable pub append_contents : PagedKvConfig → Contents F → List F → List F → ℕ → Contents F
  append_contents c old keys values more = record {
    tokens = old.tokens + more;
    key = append_plane c c.head_dim old.tokens more keys old.key;
    value = append_plane c c.head_dim_value old.tokens more values old.value;
  }

  unfoldable pub truncate_contents : Contents F → ℕ → Contents F
  truncate_contents old tokens = record {
    tokens = tokens;
    key = λ batch head t dim. if ltb t tokens then old.key batch head t dim else none;
    value = λ batch head t dim. if ltb t tokens then old.value batch head t dim else none;
  }

  pub fun_ext4 : {f g : ℕ → ℕ → ℕ → ℕ → Option F} → ((a b c d : ℕ) → f a b c d ≡ g a b c d) → f ≡ g
  fun_ext4 h = fun_ext (λ a. fun_ext (λ b. fun_ext (λ c. fun_ext (λ d. h a b c d))))

  -- The cache with the table already grown: valid, and with the old elements where they were.
  grown-IsValid :
      (cache : PagedKvCache F) (tokens : ℕ)
      → IsValid cache
      → 0 < tokens
      → cache.used + tokens ≤ cache.config.capacity
      → IsValid (record cache {
        page_table = (grown_for cache tokens).cache.page_table;
        free_pages = (grown_for cache tokens).cache.free_pages;
      })
        × (cache.used + tokens
            ≤ length (grown_for cache tokens).cache.page_table * cache.config.page_tokens)
  grown-IsValid cache tokens w positive room =
      let grown = grown_for-IsGrown cache tokens w positive room in
      let long : cache.used + tokens
          ≤ length (grown_for cache tokens).cache.page_table * cache.config.page_tokens =
        omega (
          arith,
          positive,
          (div-lt_iff_lt-mul {x = cache.used + tokens - 1} w.config_ok.tokens_pos).0 grown.long,
        ) in
      (
        record {
          config_ok = w.config_ok;
          pages = grown.pages;
          bounded = w.bounded;
          covered = omega (arith, long);
          keys_size = w.keys_size;
          values_size = w.values_size;
        },
        long,
      )

  pub read-prefix :
      (cache : PagedKvCache F) (table free : List ℕ) (storage : List F) (batch head t width dim : ℕ)
      → get_elem? table (t / cache.config.page_tokens)
        ≡ get_elem? cache.page_table (t / cache.config.page_tokens)
      → read_page
          (record cache { page_table = table; free_pages = free })
          storage
          batch
          head
          t
          width
          dim
        ≡ read_page cache storage batch head t width dim
  unfolding read_page
  read-prefix cache table free storage batch head t width dim e = rw (e, read_page) refl

  -- The same cache with its table grown.
  abbrev grown_cache : PagedKvCache F → ℕ → PagedKvCache F
  grown_cache cache tokens = record cache {
    page_table = (grown_for cache tokens).cache.page_table;
    free_pages = (grown_for cache tokens).cache.free_pages;
  }

  -- What appending has changed, as an update of the old cache.
  abbrev stored_cache : PagedKvCache F → List F → List F → ℕ → PagedKvCache F
  stored_cache cache keys values tokens =
      let g = grown_cache cache tokens in
      record g {
        used = cache.used + tokens;
        keys = plane_tokens g.config g.used g.page_table g.config.head_dim keys tokens g.keys;
        values =
            plane_tokens g.config g.used g.page_table g.config.head_dim_value values tokens
              g.values;
      }

  appended-eq :
      (cache : PagedKvCache F) (keys values : List F) (tokens : ℕ)
      → IsValid cache
      → Fits cache keys values tokens
      → appended cache keys values tokens ≡ stored_cache cache keys values tokens
  appended-eq cache keys values tokens w fits =
      let grown = grown_for-IsGrown cache tokens w fits.some_tokens fits.room in
      let g = grown_cache cache tokens in
      let s = store_tokens-IsStored keys values tokens g in
      ap
        (λ (x : PagedKvCache F). record (store_tokens keys values tokens x) {
          used = (store_tokens keys values tokens x).used + tokens;
        })
        grown.same
      ∙ ap (λ (x : PagedKvCache F). record x { used = x.used + tokens }) s.same
      ∙ (λ i. record g {
        used = cache.used + tokens;
        keys = store_tokens-keys keys values tokens g i;
        values = store_tokens-values keys values tokens g i;
      })

  -- One plane of the cache after appending.
  append-plane :
      (cache : PagedKvCache F) (width : ℕ) (keys values source storage : List F) (tokens : ℕ)
      → IsValid cache
      → Fits cache keys values tokens
      → length storage
        ≡ pages_of cache.config cache.config.capacity * page_size cache.config * width
      → length source ≡ cache.config.batch * cache.config.kv_heads * tokens * width
      → (batch head t dim : ℕ)
      → (if within cache.config width batch head dim && ltb t (cache.used + tokens)
          then read_page
              (grown_cache cache tokens)
              (plane_tokens cache.config cache.used
                (grown_cache cache tokens).page_table
                width
                source
                tokens
                storage)
              batch
              head
              t
              width
              dim
          else none)
        ≡ append_plane cache.config width cache.used tokens source
            (plane cache storage width)
            batch
            head
            t
            dim
  unfolding source_row
  append-plane cache width keys values source storage tokens w fits size fit batch head t dim =
      let c = cache.config in
      let g = grown_cache cache tokens in
      let (gw, long) = grown-IsValid cache tokens w fits.some_tokens fits.room in
      let grown = grown_for-IsGrown cache tokens w fits.some_tokens fits.room in
      elim (Bool-cases (within c width batch head dim)) [
        | inr no_place ↦ rw no_place (ground arith)
        | inl place ↦
            let at : IsPosition c width batch head dim = record {
              batch_lt = ground arith;
              head_lt = ground arith;
              dim_lt = ground arith;
            } in
            elim (Bool-cases (ltb t (cache.used + tokens))) [
              | inr late ↦
                  let late2 : ltb t cache.used ≡ false = ground arith in
                  rw (place, late, late2) refl
              | inl early ↦
                  let holds =
                    plane-holds g width batch head t dim tokens source storage gw at
                      (ground (arith, long)) size fit (ground arith) in
                  elim (Bool-cases (ltb t cache.used)) [
                    | inr new ↦ rw (place, early, new) (rw new at holds)
                    | inl old ↦
                        rw (place, early, old)
                          ((rw old at holds)
                            ∙ read-prefix cache g.page_table g.free_pages storage batch head t width
                                dim
                                (grown.prefix (t / c.page_tokens) (
                                  (div-lt_iff_lt-mul w.config_ok.tokens_pos).1
                                    (ground (arith, w.covered)))))
                  ]
            ]
      ]

  pub appended-contents :
      (cache : PagedKvCache F) (keys values : List F) (tokens : ℕ)
      → IsValid cache
      → Fits cache keys values tokens
      → contents (appended cache keys values tokens)
        ≡ append_contents cache.config (contents cache) keys values tokens
  unfolding contents append_contents read_page
  appended-contents cache keys values tokens w fits =
      let c = cache.config in
      ap contents (appended-eq cache keys values tokens w fits) ∙ (λ i. record {
        tokens = cache.used + tokens;
        key =
            fun_ext4
              (append-plane cache c.head_dim keys values keys cache.keys tokens w fits w.keys_size
                fits.keys_fit)
              i;
        value =
            fun_ext4
              (append-plane cache c.head_dim_value keys values values cache.values tokens w fits
                w.values_size fits.values_fit)
              i;
      })
