-- ===== src/Serving/PagedKv/Reachable.antt =====
-- The states that calls lead a paged cache through, whatever the calls and whether they throw.
use sched_forge.Base.{
  ℕ, suc, ◌+◌, ◌-◌, ◌*◌, ◌≤◌, ◌≡◌, ◌↔◌, ◌⊎◌, refl, sym, ap, ◌∙◌, subst, false, ltb, leb, ◌==◌,
  if◌then◌else◌, Bool-cases, Option-cases, none, List, [], ◌∷◌, length, any, count, inl, inr, arith,
}
use sched_forge.Base.Result.{ok, ok-injective, throw-ne-ok}
use sched_forge.Base.Integers.{ℤ, pos, negsuc}
use sched_forge.Serving.PagedKv.{
  PagedKvConfig, PagedKvCache, Outcome, pages_of, is_invalid, make_paged_kv_cache,
  validate_paged_config, shrink_table, append_paged_kv, truncate_paged_kv, stored_pages,
  release_page, release_paged_kv_pages,
}
use sched_forge.Serving.PagedKv.Pages.{covers, page_of-lt}
use sched_forge.Serving.PagedKv.Invariant.{
  IsValid, IsShrunk, shrink_table-IsShrunk, stored_pages-eq, valid-IsPositive, paged_of-IsValid,
}
use sched_forge.Serving.PagedKv.Calls.{Fits, append-cases, appended-IsValid}

pub any-count : (p : ℕ) (xs : List ℕ) → any (λ x. x == p) xs ≡ false → count p xs ≡ 0
any-count p [] h = refl
any-count p (x ∷ xs) h = ground (arith, any-count p xs)

module _ {F : Type 0} where
  -- The pages that a truncation to `tokens` tokens retains.
  abbrev pub retained_for : PagedKvCache F → ℕ → ℕ
  retained_for cache tokens = if tokens == 0 then 0 else pages_of cache.config tokens

  retained-le :
      (cache : PagedKvCache F) (tokens : ℕ)
      → IsValid cache
      → tokens ≤ cache.used
      → retained_for cache tokens ≤ length cache.page_table
  unfolding pages_of
  retained-le cache tokens w h =
      let c = cache.config in
      let few =
        page_of-lt (tokens + c.page_tokens - 1) c.page_tokens (suc (length cache.page_table))
          w.config_ok.tokens_pos (omega (arith, w.covered, w.config_ok.tokens_pos)) in
      ground (arith, few)

  pub truncated-IsShrunk :
      (cache : PagedKvCache F) (tokens : ℕ)
      → IsValid cache
      → tokens ≤ cache.used
      → IsShrunk
          (pages_of cache.config cache.config.capacity)
          (retained_for cache tokens)
          cache
          (shrink_table (length cache.page_table) (retained_for cache tokens) cache)
  truncated-IsShrunk cache tokens w h =
      shrink_table-IsShrunk (pages_of cache.config cache.config.capacity) (length cache.page_table)
        (retained_for cache tokens) cache w.pages (retained-le cache tokens w h) (omega arith)

  pub retained-covers :
      (cache : PagedKvCache F) (tokens : ℕ)
      → IsValid cache
      → tokens ≤ retained_for cache tokens * cache.config.page_tokens
  retained-covers cache tokens w = ground (arith, covers cache.config tokens w.config_ok.tokens_pos)

  truncated-IsValid :
      (cache : PagedKvCache F) (tokens : ℕ)
      → IsValid cache
      → tokens ≤ cache.used
      → IsValid (record (shrink_table (length cache.page_table) (retained_for cache tokens) cache) {
        used = tokens;
      })
  truncated-IsValid cache tokens w h =
      let r = retained_for cache tokens in
      let out = shrink_table (length cache.page_table) r cache in
      let s = truncated-IsShrunk cache tokens w h in
      let kept : IsValid (record cache {
        page_table = out.page_table;
        free_pages = out.free_pages;
        used = tokens;
      }) =
        record {
          config_ok = w.config_ok;
          pages = s.pages;
          bounded = omega (arith, w.bounded);
          covered =
              subst (λ k. tokens ≤ k * cache.config.page_tokens) (sym s.short)
                (retained-covers cache tokens w);
          keys_size = w.keys_size;
          values_size = w.values_size;
        } in
      subst (λ (x : PagedKvCache F). IsValid (record x { used = tokens })) (sym s.same) kept

  pub truncate-IsValid :
      (cache : PagedKvCache F) (tokens : ℤ)
      → IsValid cache
      → IsValid (truncate_paged_kv cache tokens).cache
  unfolding truncate_paged_kv
  truncate-IsValid cache (negsuc n) w = w
  truncate-IsValid cache (pos tokens) w = elim (Bool-cases (ltb cache.used tokens)) [
    | inl t ↦ rw (t, truncate_paged_kv) w
    | inr f ↦ rw (f, truncate_paged_kv) (truncated-IsValid cache tokens w (ground arith))
  ]

  pub append-IsValid :
      (cache : PagedKvCache F) (keys values : List F) (tokens : ℤ)
      → IsValid cache
      → IsValid (append_paged_kv cache keys values tokens).cache
  unfolding append_paged_kv
  append-IsValid cache keys values (negsuc n) w = w
  append-IsValid cache keys values (pos tokens) w = elim (append-cases cache keys values tokens w) [
    | inl (refused, same, error) ↦ subst IsValid (sym same) w
    | inr (fits, e) ↦
        subst (λ (o : Outcome F). IsValid o.cache) (sym e)
          (appended-IsValid cache keys values tokens w fits)
  ]

  -- A page that is not free is in the table, so that there is nothing to release.
  release_page-eq :
      (cache : PagedKvCache F) (page : ℤ) → IsValid cache → (release_page cache page).cache ≡ cache
  unfolding release_page
  release_page-eq cache (negsuc n) w = refl
  release_page-eq cache (pos page) w = elim (Bool-cases (leb (stored_pages cache) page)) [
    | inl t ↦ rw (t, release_page) refl
    | inr f ↦ elim (Bool-cases (any (λ p. p == page) cache.page_table)) [
      | inl t ↦ rw (f, t, release_page) refl
      | inr g ↦ elim (Bool-cases (any (λ p. p == page) cache.free_pages)) [
        | inl t ↦ rw (f, g, t, release_page) refl
        | inr h ↦ absurd (
            ground (
              arith,
              w.pages.each page,
              any-count page cache.page_table g,
              any-count page cache.free_pages h,
              stored_pages-eq cache w,
            ))
      ]
    ]
  ]

  -- In a valid cache, releasing pages changes nothing, whether the call returns or throws: a page in use
  -- stays in use and a free page is not made free a second time.
  pub release-eq :
      (cache : PagedKvCache F) (pages : List ℤ)
      → IsValid cache
      → (release_paged_kv_pages cache pages).cache ≡ cache
  unfolding release_paged_kv_pages
  release-eq cache [] w = refl
  release-eq cache (page ∷ pages) w =
      let same = release_page-eq cache page w in
      elim (Option-cases (release_page cache page).error) [
        | inr (message, e) ↦ rw (e, release_paged_kv_pages) same
        | inl e ↦
            rw (e, release_paged_kv_pages)
              (release-eq (release_page cache page).cache pages (subst IsValid (sym same) w) ∙ same)
      ]

  -- One call, which may return or throw.
  pub data Call (cache : PagedKvCache F) : PagedKvCache F → Type 0 where
    append :
        (keys values : List F) (tokens : ℤ)
        → Call cache (append_paged_kv cache keys values tokens).cache
    truncate : (tokens : ℤ) → Call cache (truncate_paged_kv cache tokens).cache
    release : (pages : List ℤ) → Call cache (release_paged_kv_pages cache pages).cache

  pub data IsReachable (zero_float : F) (c : PagedKvConfig) : PagedKvCache F → Type 0 where
    made :
        {cache : PagedKvCache F}
        → make_paged_kv_cache zero_float c ≡ ok cache
        → IsReachable zero_float c cache
    called :
        {before after : PagedKvCache F}
        → IsReachable zero_float c before
        → Call before after
        → IsReachable zero_float c after

  made-IsValid :
      (zero_float : F) (c : PagedKvConfig) {cache : PagedKvCache F}
      → make_paged_kv_cache zero_float c ≡ ok cache
      → IsValid cache
  unfolding make_paged_kv_cache validate_paged_config
  made-IsValid zero_float c e = elim (Bool-cases (is_invalid c)) [
    | inl t ↦ absurd (throw-ne-ok (rw t at e))
    | inr f ↦
        subst IsValid (ok-injective (rw f at e))
          (paged_of-IsValid zero_float c (valid-IsPositive c f))
  ]

  -- Whatever calls are made on a paged cache, and whether they return or throw, every page is in the
  -- table or free and not both, the table has a page for every token, the capacity is kept, and the
  -- stored vectors keep their sizes.
  pub IsReachable-IsValid :
      {zero_float : F} {c : PagedKvConfig} {cache : PagedKvCache F}
      → IsReachable zero_float c cache
      → IsValid cache
  IsReachable-IsValid {zero_float} {c} (made e) = made-IsValid zero_float c e
  IsReachable-IsValid (called {before} r (append keys values tokens)) =
      append-IsValid before keys values tokens (IsReachable-IsValid r)
  IsReachable-IsValid (called {before} r (truncate tokens)) =
      truncate-IsValid before tokens (IsReachable-IsValid r)
  IsReachable-IsValid (called {before} r (release pages)) =
      subst IsValid (sym (release-eq before pages (IsReachable-IsValid r))) (IsReachable-IsValid r)

  -- Appending to a reachable cache returns exactly if the request fits: at least one token, room for
  -- all of them, and keys and values of the sizes that the shape gives. It never runs out of pages, and
  -- if it throws, the cache is unchanged.
  pub append-returns :
      {zero_float : F} {c : PagedKvConfig} (cache : PagedKvCache F) (keys values : List F)
      (tokens : ℕ)
      → IsReachable zero_float c cache
      → (((append_paged_kv cache keys values (pos tokens)).error ≡ none)
          ↔ Fits cache keys values tokens)
        × (((append_paged_kv cache keys values (pos tokens)).error ≡ none)
            ⊎ ((append_paged_kv cache keys values (pos tokens)).cache ≡ cache))
  append-returns cache keys values tokens r =
      elim (append-cases cache keys values tokens (IsReachable-IsValid r)) [
        | inl (refused, same, error) ↦
            (((λ e. absurd (error e)), (λ f. absurd (refused f))), inr same)
        | inr (fits, e) ↦ (
          ((λ h. fits), (λ f. ap (λ (o : Outcome F). o.error) e)),
          inl (ap (λ (o : Outcome F). o.error) e),
        )
      ]
