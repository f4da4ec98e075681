-- ===== src/Serving/PagedKv/Stores.antt =====
-- What the loops of `append_paged_kv` leave in one of the two storages, cell by cell.
use sched_forge.Base.{
  ℕ, ◌+◌, ◌/◌, ◌%◌, ◌<◌, ◌≡◌, ◌≢◌, sym, ap, ◌∙◌, subst, Option, none, some, Option-cases, List,
  length, get_elem?, get_elem?-set_self, get_elem?-set_ne, inl, inr,
}
use sched_forge.Base.Loops.{for_range, for_range-keep, for_range-leaves}
use sched_forge.Serving.KvCache.{copy_elem}
use sched_forge.Serving.PagedKv.{PagedKvConfig, page_offset, store_row, source_row}
use sched_forge.Serving.PagedKv.Offsets.{Cell, IsCell, offset_of, page_offset_injective}
use sched_forge.Serving.PagedKv.Calls.{length-copy_elem, length-store_row}

module _ {F : Type 0} where
  get-copy_ne :
      (target : List F) {i off : ℕ} (source : List F) (j : ℕ) {r : Option F}
      → i ≢ off
      → get_elem? target off ≡ r
      → get_elem? (copy_elem target i source j) off ≡ r
  unfolding copy_elem
  get-copy_ne target {i} {off} source j h q = elim (Option-cases (get_elem? source j)) [
    | inl e ↦ rw (e, copy_elem) q
    | inr (x, e) ↦ rw (e, copy_elem) (get_elem?-set_ne target {i = i} {j = off} x h ∙ q)
  ]

  get-copy_self :
      (target : List F) (i : ℕ) (source : List F) (j : ℕ) {x : F}
      → i < length target
      → get_elem? source j ≡ some x
      → get_elem? (copy_elem target i source j) i ≡ some x
  unfolding copy_elem
  get-copy_self target i source j {x} h e = rw (e, copy_elem) (get_elem?-set_self target i x h)

  -- The loops over the batches and heads of one token, on one storage.
  abbrev pub plane_token : PagedKvConfig → ℕ → List F → ℕ → ℕ → ℕ → ℕ → List F → List F
  plane_token c width source tokens token page page_token target =
      for_range c.batch
        (λ batch. for_range c.kv_heads (λ head now.
          store_row c page batch head page_token width source
            (source_row c tokens token batch head width) now))
        target

  -- And the loop over the tokens.
  abbrev pub plane_tokens : PagedKvConfig → ℕ → List ℕ → ℕ → List F → ℕ → List F → List F
  plane_tokens c used table width source tokens target =
      for_range tokens
        (λ token now. elim (get_elem? table ((used + token) / c.page_tokens)) [
          | none ↦ now
          | some page ↦
              plane_token c width source tokens token page ((used + token) % c.page_tokens) now
        ])
        target

  module _ (c : PagedKvConfig) (width : ℕ) (x : Cell) (w : IsCell c width x) where
    -- A row of other cells leaves this one alone.
    row-keeps :
        (page batch head token : ℕ) (source : List F) (from : ℕ) {r : Option F}
        → batch < c.batch
        → head < c.kv_heads
        → token < c.page_tokens
        → ((d : ℕ) → record { page = page; batch = batch; head = head; token = token; dim = d } ≢ x)
        → (s : List F) → get_elem? s (offset_of c width x) ≡ r
        → get_elem? (store_row c page batch head token width source from s) (offset_of c width x)
          ≡ r
    unfolding store_row
    row-keeps page batch head token source from {r} lb lh lt other s q =
        for_range-keep (λ (s : List F). get_elem? s (offset_of c width x) ≡ r) width _
          (λ d l s. get-copy_ne s source (from + d) (λ e. other d (
            page_offset_injective c width
              (record { page = page; batch = batch; head = head; token = token; dim = d }) x
              (record { batch_lt = lb; head_lt = lh; token_lt = lt; dim_lt = l }) w e)))
          s q

    -- The row with this cell stores its element.
    row-stores :
        (source : List F) (from : ℕ) {v : F} (s : List F)
        → (offset_of c width x) < length s
        → get_elem? source (from + x.dim) ≡ some v
        → get_elem?
            (store_row c x.page x.batch x.head x.token width source from s)
            (offset_of c width x)
          ≡ some v
    unfolding store_row
    row-stores source from {v} s h e =
        for_range-leaves (λ (s : List F). (offset_of c width x) < length s)
          (λ (s : List F). get_elem? s (offset_of c width x) ≡ some v) width x.dim _ w.dim_lt
          (λ d l s p.
            subst (λ n. (offset_of c width x) < n)
              (sym (
                length-copy_elem s (page_offset c x.page x.batch x.head x.token d width) source
                  (from + d)))
              p)
          (λ s p. get-copy_self s (offset_of c width x) source (from + x.dim) p e)
          (λ d l ne s. get-copy_ne s source (from + d) (λ same. ne (
            ap (λ (y : Cell). y.dim)
              (page_offset_injective c width
                (record { page = x.page; batch = x.batch; head = x.head; token = x.token; dim = d })
                x
                (record {
                  batch_lt = w.batch_lt;
                  head_lt = w.head_lt;
                  token_lt = w.token_lt;
                  dim_lt = l;
                })
                w same))))
          s h

    pub token-keeps :
        (source : List F) (tokens token page page_token : ℕ) {r : Option F}
        → page_token < c.page_tokens
        → ((b h d : ℕ)
            → record { page = page; batch = b; head = h; token = page_token; dim = d } ≢ x)
        → (s : List F) → get_elem? s (offset_of c width x) ≡ r
        → get_elem?
            (plane_token c width source tokens token page page_token s)
            (offset_of c width x)
          ≡ r
    token-keeps source tokens token page page_token {r} lt other =
        for_range-keep (λ (s : List F). get_elem? s (offset_of c width x) ≡ r) c.batch _
          (λ b lb.
            for_range-keep (λ (s : List F). get_elem? s (offset_of c width x) ≡ r) c.kv_heads _
              (λ h lh.
                row-keeps page b h page_token source (source_row c tokens token b h width) lb lh lt
                  (other b h)))

    pub length-plane_token :
        (source : List F) (tokens token page page_token n : ℕ) (s : List F)
        → length s ≡ n
        → length (plane_token c width source tokens token page page_token s) ≡ n
    length-plane_token source tokens token page page_token n =
        for_range-keep (λ (s : List F). length s ≡ n) c.batch _
          (λ b lb.
            for_range-keep (λ (s : List F). length s ≡ n) c.kv_heads _
              (λ h lh s e.
                length-store_row c page b h page_token width source
                  (source_row c tokens token b h width) s
                ∙ e))

    pub token-stores :
        (source : List F) (tokens token : ℕ) {v : F} (s : List F)
        → (offset_of c width x) < length s
        → get_elem? source (source_row c tokens token x.batch x.head width + x.dim) ≡ some v
        → get_elem? (plane_token c width source tokens token x.page x.token s) (offset_of c width x)
          ≡ some v
    token-stores source tokens token {v} s h e =
        for_range-leaves (λ (s : List F). (offset_of c width x) < length s)
          (λ (s : List F). get_elem? s (offset_of c width x) ≡ some v) c.batch x.batch _ w.batch_lt
          (λ b lb s p. heads-keep b s p)
          (λ s p.
            for_range-leaves (λ (s : List F). (offset_of c width x) < length s)
              (λ (s : List F). get_elem? s (offset_of c width x) ≡ some v) c.kv_heads x.head _
              w.head_lt (λ h lh s p. row-length x.batch h s p)
              (λ s p. row-stores source (source_row c tokens token x.batch x.head width) s p e)
              (λ h lh ne s q.
                row-keeps x.page x.batch h x.token source
                  (source_row c tokens token x.batch h width) w.batch_lt lh w.token_lt
                  (λ d same. ne (ap (λ (y : Cell). y.head) same)) s q)
              s p)
          (λ b lb ne s.
            for_range-keep (λ (s : List F). get_elem? s (offset_of c width x) ≡ some v) c.kv_heads _
              (λ h lh.
                row-keeps x.page b h x.token source (source_row c tokens token b h width) lb lh
                  w.token_lt (λ d same. ne (ap (λ (y : Cell). y.batch) same)))
              s)
          s h
      where
        row-length :
            (b h : ℕ) (s : List F)
            → (offset_of c width x) < length s
            → (offset_of c width x)
              < length (
                  store_row c x.page b h x.token width source
                    (source_row c tokens token b h width)
                    s)
        row-length b h s p =
            subst (λ n. (offset_of c width x) < n)
              (sym (
                length-store_row c x.page b h x.token width source
                  (source_row c tokens token b h width) s))
              p

        heads-keep :
            (b : ℕ) (s : List F)
            → (offset_of c width x) < length s
            → (offset_of c width x)
              < length (
                  for_range c.kv_heads
                    (λ head now.
                      store_row c x.page b head x.token width source
                        (source_row c tokens token b head width)
                        now)
                    s)
        heads-keep b s p =
            for_range-keep (λ (s : List F). (offset_of c width x) < length s) c.kv_heads _
              (λ h lh s q. row-length b h s q) s p
