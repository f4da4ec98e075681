-- ===== src/Examples/Serving.antt =====
-- A paged cache with two pages of two tokens, three tokens of capacity, and floats as numbers.
use sched_forge.Base.{ℕ, ◌%◌, ◌≡◌, ◌↔◌, ◌⊎◌, refl, none, List, [], ◌∷◌, arith}
use sched_forge.Base.Result.{ok}
use sched_forge.Serving.KvCache.{KvCache}
use sched_forge.Base.Integers.{pos, negsuc}
use sched_forge.Serving.PagedKv.{
  PagedKvConfig, PagedKvCache, paged_of, make_paged_kv_cache, append_paged_kv, truncate_paged_kv,
  release_paged_kv_pages,
}
use sched_forge.Serving.PagedKv.Invariant.{IsValid}
use sched_forge.Serving.PagedKv.Calls.{Fits}
use sched_forge.Serving.PagedKv.Reachable.{
  IsReachable, made, called, append, truncate, IsReachable-IsValid, append-returns, release-eq,
}
use sched_forge.Serving.PagedKv.Contents.{contents, append_contents, truncate_contents}
use sched_forge.Serving.PagedKv.Refinement.{calls-refine}
use sched_forge.Serving.PagedKv.Gather.{gather_paged_kv, gather-returns}

abbrev config : PagedKvConfig
config = record {
  batch = 1;
  kv_heads = 2;
  head_dim = 1;
  head_dim_value = 1;
  page_tokens = 2;
  capacity = 3;
}

abbrev empty : PagedKvCache ℕ
empty = paged_of 0 config

-- Three tokens of two heads.
abbrev six : List ℕ
six = 1 ∷ 2 ∷ 3 ∷ 4 ∷ 5 ∷ 6 ∷ []

abbrev filled : PagedKvCache ℕ
filled = (append_paged_kv empty six six (pos 3)).cache

abbrev cut : PagedKvCache ℕ
cut = (truncate_paged_kv filled (pos 1)).cache

empty-IsReachable : IsReachable 0 config empty
unfolding make_paged_kv_cache
empty-IsReachable = made refl

filled-IsReachable : IsReachable 0 config filled
filled-IsReachable = called empty-IsReachable (append six six (pos 3))

cut-IsReachable : IsReachable 0 config cut
cut-IsReachable = called filled-IsReachable (truncate (pos 1))

-- Two heads of two tokens on the first free page, the last one.
filled_lem : (filled.page_table ≡ 1 ∷ 0 ∷ []) × (filled.keys ≡ 3 ∷ 0 ∷ 6 ∷ 0 ∷ 1 ∷ 2 ∷ 4 ∷ 5 ∷ [])
unfolding append_paged_kv paged_of
filled_lem = (refl, refl)

IsReachable-IsValid_example : IsValid cut
IsReachable-IsValid_example = IsReachable-IsValid cut-IsReachable

append-returns_example :
    (((append_paged_kv cut (7 ∷ 8 ∷ []) (7 ∷ 8 ∷ []) (pos 1)).error ≡ none)
      ↔ Fits cut (7 ∷ 8 ∷ []) (7 ∷ 8 ∷ []) 1)
    × (((append_paged_kv cut (7 ∷ 8 ∷ []) (7 ∷ 8 ∷ []) (pos 1)).error ≡ none)
        ⊎ ((append_paged_kv cut (7 ∷ 8 ∷ []) (7 ∷ 8 ∷ []) (pos 1)).cache ≡ cut))
append-returns_example = append-returns cut (7 ∷ 8 ∷ []) (7 ∷ 8 ∷ []) 1 cut-IsReachable

release-eq_example : (release_paged_kv_pages cut (pos 0 ∷ pos 1 ∷ negsuc 0 ∷ [])).cache ≡ cut
release-eq_example =
    release-eq cut (pos 0 ∷ pos 1 ∷ negsuc 0 ∷ []) (IsReachable-IsValid cut-IsReachable)

calls-refine_example :
    ((append_paged_kv cut (7 ∷ 8 ∷ []) (7 ∷ 8 ∷ []) (pos 1)).error ≡ none
      → contents (append_paged_kv cut (7 ∷ 8 ∷ []) (7 ∷ 8 ∷ []) (pos 1)).cache
        ≡ append_contents cut.config (contents cut) (7 ∷ 8 ∷ []) (7 ∷ 8 ∷ []) 1)
    × ((truncate_paged_kv cut (pos 1)).error ≡ none
        → contents (truncate_paged_kv cut (pos 1)).cache ≡ truncate_contents (contents cut) 1)
calls-refine_example = calls-refine cut cut-IsReachable (7 ∷ 8 ∷ []) (7 ∷ 8 ∷ []) 1

gather-returns_example :
    ((flat : KvCache ℕ) × (gather_paged_kv 0 filled ≡ ok flat)) ↔ (8 % filled.config.kv_heads ≡ 0)
unfolding append_paged_kv paged_of
gather-returns_example = gather-returns filled filled-IsReachable (omega arith)
