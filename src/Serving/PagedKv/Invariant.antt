-- ===== src/Serving/PagedKv/Invariant.antt =====
-- What holds of a paged cache between two calls, and the loop that gives pages back.
use native.Mathlib.Nat.{mul-pos, mul-div_cancel}
use sched_forge.Base.{
  ℕ, zero, suc, ◌+◌, ◌*◌, ◌/◌, ◌≤◌, ◌<◌, ◌≡◌, refl, ap, ◌∙◌, false, ltb, Bool-cases, Option-cases,
  length, get_elem?, inl, inr, arith,
}
use sched_forge.Base.Loops.{back, length-pop_back, back-none, get_elem?-pop_back}
use sched_forge.Serving.KvCache.{zeros}
use sched_forge.Serving.PagedKv.{
  PagedKvConfig, PagedKvCache, pages_of, page_size, is_invalid, stored_pages, give_page,
  shrink_table, paged_of,
}
use sched_forge.Serving.PagedKv.Pages.{IsPartition, give-IsPartition, iota-IsPartition}

pub record IsPositive (c : PagedKvConfig) : Type 0 where
  pub batch_pos : 0 < c.batch
  pub heads_pos : 0 < c.kv_heads
  pub dim_pos : 0 < c.head_dim
  pub value_pos : 0 < c.head_dim_value
  pub tokens_pos : 0 < c.page_tokens
  pub capacity_pos : 0 < c.capacity

pub valid-IsPositive : (c : PagedKvConfig) → is_invalid c ≡ false → IsPositive c
unfolding is_invalid
valid-IsPositive c h = record {
  batch_pos = ground arith;
  heads_pos = ground arith;
  dim_pos = ground arith;
  value_pos = ground arith;
  tokens_pos = ground arith;
  capacity_pos = ground arith;
}

module _ {F : Type 0} where
  pub record IsValid (cache : PagedKvCache F) : Type 0 where
    pub config_ok : IsPositive cache.config
    pub pages :
        IsPartition (pages_of cache.config cache.config.capacity) cache.page_table cache.free_pages
    pub bounded : cache.used ≤ cache.config.capacity
    pub covered : cache.used ≤ length cache.page_table * cache.config.page_tokens
    pub keys_size :
        length cache.keys
        ≡ pages_of cache.config cache.config.capacity
          * page_size cache.config
          * cache.config.head_dim
    pub values_size :
        length cache.values
        ≡ pages_of cache.config cache.config.capacity
          * page_size cache.config
          * cache.config.head_dim_value

  pub length-zeros : (x : F) (n : ℕ) → length (zeros x n) ≡ n
  unfolding zeros
  length-zeros x zero = refl
  length-zeros x (suc n) = ap suc (length-zeros x n)

  pub paged_of-IsValid : (x : F) (c : PagedKvConfig) → IsPositive c → IsValid (paged_of x c)
  unfolding paged_of
  paged_of-IsValid x c w = record {
    config_ok = w;
    pages = iota-IsPartition (pages_of c c.capacity);
    bounded = omega arith;
    covered = omega arith;
    keys_size = length-zeros x _;
    values_size = length-zeros x _;
  }

  -- The number of pages that the code reads off the size of the keys is the number of pages made.
  pub stored_pages-eq :
      (cache : PagedKvCache F)
      → IsValid cache
      → stored_pages cache ≡ pages_of cache.config cache.config.capacity
  unfolding stored_pages page_size
  stored_pages-eq cache w =
      let c = cache.config in
      let n = pages_of c c.capacity in
      let size = c.batch * c.kv_heads * c.page_tokens * c.head_dim in
      let ok = w.config_ok in
      let positive : 0 < size =
        mul-pos (mul-pos (mul-pos ok.batch_pos ok.heads_pos) ok.tokens_pos) ok.dim_pos in
      let e : length cache.keys ≡ n * size = omega (arith, w.keys_size) in
      ap (λ k. k / size) e ∙ mul-div_cancel n positive

  -- What `shrink_table` has done.
  pub record IsShrunk (n retained : ℕ) (cache out : PagedKvCache F) : Type 0 where
    pub same : out ≡ record cache { page_table = out.page_table; free_pages = out.free_pages }
    pub pages : IsPartition n out.page_table out.free_pages
    pub short : length out.page_table ≡ retained
    pub prefix : (i : ℕ) → i < retained → get_elem? out.page_table i ≡ get_elem? cache.page_table i

  pub shrink_table-IsShrunk :
      (n fuel retained : ℕ) (cache : PagedKvCache F)
      → IsPartition n cache.page_table cache.free_pages
      → retained ≤ length cache.page_table
      → length cache.page_table ≤ retained + fuel
      → IsShrunk n retained cache (shrink_table fuel retained cache)
  unfolding shrink_table give_page
  shrink_table-IsShrunk n zero retained cache w h k = record {
    same = refl;
    pages = w;
    short = omega arith;
    prefix = λ i l. refl;
  }
  shrink_table-IsShrunk n (suc fuel) retained cache w h k =
      elim (Bool-cases (ltb retained (length cache.page_table))) [
        | inr f ↦
            rw (f, shrink_table)
              (record { same = refl; pages = w; short = ground arith; prefix = λ i l. refl })
        | inl t ↦ elim (Option-cases (back cache.page_table)) [
          | inl e ↦ absurd (ground (arith, ap length (back-none cache.page_table e)))
          | inr (page, e) ↦
              rw (t, e, shrink_table)
                (let rest =
                    shrink_table-IsShrunk n fuel retained (give_page cache page)
                      (give-IsPartition n cache.page_table cache.free_pages e w)
                      (ground (arith, length-pop_back cache.page_table e))
                      (ground (arith, length-pop_back cache.page_table e)) in
                  record {
                    same = rest.same;
                    pages = rest.pages;
                    short = rest.short;
                    prefix = λ i l.
                        rest.prefix i l
                        ∙ get_elem?-pop_back cache.page_table i
                            (ground (arith, length-pop_back cache.page_table e));
                  })
        ]
      ]
