-- ===== src/Serving/PagedKv/Reads.antt =====
-- Reading the paged cache the way attention does, after appending to it and after truncating it.
use native.Mathlib.Nat.{mod-lt}
use sched_forge.Base.{
  ℕ, ◌+◌, ◌-◌, ◌*◌, ◌/◌, ◌%◌, ◌<◌, ◌≡◌, refl, sym, ap, ◌∙◌, subst, some, Option-cases, Bool-cases,
  ltb, if◌then◌else◌, List, length, get_elem?, get_elem?-lt, inl, inr, arith,
}
use sched_forge.Base.Loops.{for_range-part}
use sched_forge.Serving.PagedKv.{
  PagedKvConfig, PagedKvCache, pages_of, page_offset, page_size, source_row, store_token,
  store_tokens, read_page,
}
use sched_forge.Serving.PagedKv.Pages.{page-lt, page_once, once-injective, page_of-lt}
use sched_forge.Serving.PagedKv.Invariant.{IsValid}
use sched_forge.Serving.PagedKv.Offsets.{Cell, offset_of, page_offset-lt, source_row-get}
use sched_forge.Serving.PagedKv.Stores.{plane_tokens}
use sched_forge.Serving.PagedKv.Rounds.{IsOnce, IsAt, tokens-keep, tokens-store}

-- A position that a request names, of the keys or of the values.
pub record IsPosition (c : PagedKvConfig) (width batch head dim : ℕ) : Type 0 where
  pub batch_lt : batch < c.batch
  pub head_lt : head < c.kv_heads
  pub dim_lt : dim < width

module _ {F : Type 0} where
  IsValid-IsOnce : (cache : PagedKvCache F) → IsValid cache → IsOnce cache.page_table
  IsValid-IsOnce cache w i j p e f =
      once-injective cache.page_table i j
        (page_once (pages_of cache.config cache.config.capacity) cache.page_table cache.free_pages p
          w.pages)
        e f

  -- A token within the length of a valid cache has its place.
  valid-IsAt :
      (cache : PagedKvCache F) (width batch head t dim : ℕ)
      → IsValid cache
      → IsPosition cache.config width batch head dim
      → t < length cache.page_table * cache.config.page_tokens
      → (page : ℕ) × IsAt cache.config width cache.page_table t (record {
        page = page;
        batch = batch;
        head = head;
        token = t % cache.config.page_tokens;
        dim = dim;
      })
  valid-IsAt cache width batch head t dim w at h =
      let positive = w.config_ok.tokens_pos in
      let (page, e) =
        get_elem?-lt cache.page_table (t / cache.config.page_tokens)
          (page_of-lt t cache.config.page_tokens (length cache.page_table) positive h) in
      (
        page,
        record {
          cell = record {
            batch_lt = at.batch_lt;
            head_lt = at.head_lt;
            token_lt = mod-lt t positive;
            dim_lt = at.dim_lt;
          };
          tokens_pos = positive;
          page_eq = e;
          token_eq = refl;
        },
      )

  -- Reading is a look at the offset of the cell.
  read_page-eq :
      (cache : PagedKvCache F) (storage : List F) (width batch head t dim : ℕ) {page : ℕ}
      → get_elem? cache.page_table (t / cache.config.page_tokens) ≡ some page
      → read_page cache storage batch head t width dim
        ≡ get_elem? storage
            (page_offset cache.config page batch head (t % cache.config.page_tokens) dim width)
  unfolding read_page page_offset
  read_page-eq cache storage width batch head t dim {page} e =
      rw (e, read_page) (ap (get_elem? storage) (omega arith))

  pub store_tokens-keys :
      (keys values : List F) (tokens : ℕ) (cache : PagedKvCache F)
      → (store_tokens keys values tokens cache).keys
        ≡ plane_tokens cache.config cache.used cache.page_table cache.config.head_dim keys tokens
            cache.keys
  unfolding store_tokens store_token
  store_tokens-keys keys values tokens cache =
      for_range-part (λ (now : PagedKvCache F). now.keys) tokens _ _
        (λ token now.
          elim (Option-cases
            (get_elem? cache.page_table ((cache.used + token) / cache.config.page_tokens))) [
              | inl e ↦ rw e refl
              | inr (page, e) ↦ rw e (
                  for_range-part (λ (now : PagedKvCache F). now.keys) cache.config.batch _ _
                    (λ b now.
                      for_range-part (λ (now : PagedKvCache F). now.keys) cache.config.kv_heads _ _
                        (λ h now. refl) now)
                    now)
            ])
        cache

  pub store_tokens-values :
      (keys values : List F) (tokens : ℕ) (cache : PagedKvCache F)
      → (store_tokens keys values tokens cache).values
        ≡ plane_tokens cache.config cache.used cache.page_table cache.config.head_dim_value values
            tokens cache.values
  unfolding store_tokens store_token
  store_tokens-values keys values tokens cache =
      for_range-part (λ (now : PagedKvCache F). now.values) tokens _ _
        (λ token now.
          elim (Option-cases
            (get_elem? cache.page_table ((cache.used + token) / cache.config.page_tokens))) [
              | inl e ↦ rw e refl
              | inr (page, e) ↦ rw e (
                  for_range-part (λ (now : PagedKvCache F). now.values) cache.config.batch _ _
                    (λ b now.
                      for_range-part (λ (now : PagedKvCache F). now.values) cache.config.kv_heads _
                        _ (λ h now. refl) now)
                    now)
            ])
        cache

  -- What a plane holds after appending, for a token that the table has a page for: an old token keeps its
  -- element, and a new one has its element of the source.
  pub plane-holds :
      (cache : PagedKvCache F) (width batch head t dim tokens : ℕ) (source storage : List F)
      → IsValid cache
      → IsPosition cache.config width batch head dim
      → t < length cache.page_table * cache.config.page_tokens
      → length storage
        ≡ pages_of cache.config cache.config.capacity * page_size cache.config * width
      → length source ≡ cache.config.batch * cache.config.kv_heads * tokens * width
      → t < cache.used + tokens
      → read_page cache
          (plane_tokens cache.config cache.used cache.page_table width source tokens storage)
          batch
          head
          t
          width
          dim
        ≡ (if ltb t cache.used
            then read_page cache storage batch head t width dim
            else get_elem? source
                (source_row cache.config tokens (t - cache.used) batch head width + dim))
  plane-holds cache width batch head t dim tokens source storage w at h size fit l =
      let c = cache.config in
      let once = IsValid-IsOnce cache w in
      let (page, there) = valid-IsAt cache width batch head t dim w at h in
      let x : Cell = record {
        page = page;
        batch = batch;
        head = head;
        token = t % c.page_tokens;
        dim = dim;
      } in
      let read = λ (s : List F). read_page-eq cache s width batch head t dim there.page_eq in
      let inside : offset_of c width x < length storage =
        subst (λ k. offset_of c width x < k) (sym size)
          (page_offset-lt c width (pages_of c c.capacity) x there.cell (
            page-lt (pages_of c c.capacity) cache.page_table cache.free_pages (t / c.page_tokens)
              w.pages there.page_eq)) in
      elim (Bool-cases (ltb t cache.used)) [
        | inl old ↦ rw old (
            read _
            ∙ tokens-keep c width cache.page_table t x once there cache.used source tokens storage
                (ground arith)
            ∙ sym (read storage))
        | inr new ↦ rw new (
            let k = t - cache.used in
            let (v, e) =
              source_row-get c source tokens width batch head k dim fit at.batch_lt at.head_lt
                (ground arith) at.dim_lt in
            read _
            ∙ tokens-store c width cache.page_table t x once there cache.used k source tokens
                storage (ground arith) (ground arith) inside e
            ∙ sym e)
      ]
