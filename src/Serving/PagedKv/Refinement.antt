-- ===== src/Serving/PagedKv/Refinement.antt =====
-- The calls on a paged cache of src/next_milestones.cpp, against the calls on its contents.
use native.Mathlib.Nat.{div-lt_iff_lt-mul}
use sched_forge.Base.{
  ℕ, ◌/◌, ◌≤◌, ◌≡◌, refl, ap, ◌∙◌, true, ◌&&◌, none, Bool-cases, ltb, if◌then◌else◌, List, length,
  inl, inr, arith,
}
use sched_forge.Serving.PagedKv.{
  pos, PagedKvConfig, PagedKvCache, Outcome, append_paged_kv, truncate_paged_kv, shrink_table,
  read_page,
}
use sched_forge.Serving.PagedKv.Invariant.{IsValid}
use sched_forge.Serving.PagedKv.Calls.{some-ne-none, append-cases}
use sched_forge.Serving.PagedKv.Contents.{
  contents, within, plane, append_contents, truncate_contents, read-prefix, fun_ext4,
  appended-contents,
}
use sched_forge.Serving.PagedKv.Reachable.{
  IsReachable, IsReachable-IsValid, retained_for, retained-covers, truncated-IsShrunk,
}

module _ {F : Type 0} where
  truncated-plane :
      (cache : PagedKvCache F) (tokens width : ℕ) (storage : List F)
      → IsValid cache
      → tokens ≤ cache.used
      → (batch head t dim : ℕ)
      → (if within cache.config width batch head dim && ltb t tokens
          then read_page
              (record cache {
                page_table =
                    (shrink_table
                      (length cache.page_table)
                      (retained_for cache tokens)
                      cache).page_table;
                free_pages =
                    (shrink_table
                      (length cache.page_table)
                      (retained_for cache tokens)
                      cache).free_pages;
              })
              storage
              batch
              head
              t
              width
              dim
          else none)
        ≡ (if ltb t tokens then plane cache storage width batch head t dim else none)
  truncated-plane cache tokens width storage w h batch head t dim =
      let out = shrink_table (length cache.page_table) (retained_for cache tokens) cache in
      elim (Bool-cases (ltb t tokens)) [
        | inr late ↦ rw late (ground arith)
        | inl early ↦ elim (Bool-cases (within cache.config width batch head dim)) [
          | inr no_place ↦ rw (early, no_place) refl
          | inl place ↦
              let old : ltb t cache.used ≡ true = ground arith in
              rw (early, place, old)
                (read-prefix cache out.page_table out.free_pages storage batch head t width dim (
                  (truncated-IsShrunk cache tokens w h).prefix (t / cache.config.page_tokens) (
                    (div-lt_iff_lt-mul w.config_ok.tokens_pos).1
                      (ground (arith, retained-covers cache tokens w)))))
        ]
      ]

  truncated-contents :
      (cache : PagedKvCache F) (tokens : ℕ)
      → IsValid cache
      → tokens ≤ cache.used
      → contents
          (record (shrink_table (length cache.page_table) (retained_for cache tokens) cache) {
            used = tokens;
          })
        ≡ truncate_contents (contents cache) tokens
  unfolding contents truncate_contents read_page
  truncated-contents cache tokens w h =
      ap (λ (x : PagedKvCache F). contents (record x { used = tokens }))
        (truncated-IsShrunk cache tokens w h).same
      ∙ (λ i. record {
        tokens = tokens;
        key = fun_ext4 (truncated-plane cache tokens cache.config.head_dim cache.keys w h) i;
        value =
            fun_ext4 (truncated-plane cache tokens cache.config.head_dim_value cache.values w h) i;
      })

  -- On a reachable cache, a call to append that returns puts the new tokens behind the old ones, which
  -- keep all their elements; and a call to truncate that returns leaves the first tokens as they were. So
  -- the pages implement the contents.
  pub calls-refine :
      {zero_float : F} {c : PagedKvConfig} (cache : PagedKvCache F)
      → IsReachable zero_float c cache
      → (keys values : List F) (tokens : ℕ)
      → ((append_paged_kv cache keys values (pos tokens)).error ≡ none
          → contents (append_paged_kv cache keys values (pos tokens)).cache
            ≡ append_contents cache.config (contents cache) keys values tokens)
        × ((truncate_paged_kv cache (pos tokens)).error ≡ none
            → contents (truncate_paged_kv cache (pos tokens)).cache
              ≡ truncate_contents (contents cache) tokens)
  unfolding truncate_paged_kv
  calls-refine cache r keys values tokens =
      let w = IsReachable-IsValid r in
      (
        (λ returns. elim (append-cases cache keys values tokens w) [
          | inl (refused, same, error) ↦ absurd (error returns)
          | inr (fits, e) ↦
              ap (λ (o : Outcome F). contents o.cache) e
              ∙ appended-contents cache keys values tokens w fits
        ]),
        (λ returns. elim (Bool-cases (ltb cache.used tokens)) [
          | inl t ↦ absurd (some-ne-none (rw (t, truncate_paged_kv) at returns))
          | inr f ↦ rw (f, truncate_paged_kv) (truncated-contents cache tokens w (ground arith))
        ]),
      )
