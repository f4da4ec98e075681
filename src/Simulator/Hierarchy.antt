-- ===== src/Simulator/Hierarchy.antt =====
-- The class `Hierarchy` of src/simulator.cpp: three caches, a TLB of 64 pages and the lines that were
-- prefetched. The maps `tlb_` and `prefetched_` are lists of their entries; a key stands once in each.
pub mod Tlb
pub mod Counters
use Prim.Native.String.{String}
use sched_forge.Base.{
  ℕ, suc, ◌+◌, ◌/◌, Bool, true, false, not, ◌&&◌, List, [], ◌∷◌, length, any, foldl, leb, ltb, ◌==◌,
  if◌then◌else◌,
}
use sched_forge.Base.Result.{Result, ok, ◌>>=◌}
use sched_forge.Schedule.{TargetInfo}
use sched_forge.Simulator.Cache.{Cache, make_cache, access}

pub record CacheLevelStats : Type 0 where
  pub hits : ℕ
  pub misses : ℕ

abbrev pub no_stats : CacheLevelStats
no_stats = record { hits = 0; misses = 0 }

-- The counters of `SimulationResult` that `Hierarchy::access` keeps.
pub record SimulationResult : Type 0 where
  pub l1 : CacheLevelStats
  pub l2 : CacheLevelStats
  pub l3 : CacheLevelStats
  pub memory_accesses : ℕ
  pub dram_accesses : ℕ
  pub dtlb_hits : ℕ
  pub dtlb_misses : ℕ
  pub prefetched_lines : ℕ
  pub useful_prefetches : ℕ

abbrev pub no_result : SimulationResult
no_result = record {
  l1 = no_stats;
  l2 = no_stats;
  l3 = no_stats;
  memory_accesses = 0;
  dram_accesses = 0;
  dtlb_hits = 0;
  dtlb_misses = 0;
  prefetched_lines = 0;
  useful_prefetches = 0;
}

pub record TlbEntry : Type 0 where
  pub page : ℕ
  pub last_used : ℕ

pub record Hierarchy : Type 0 where
  pub page_bytes : ℕ
  pub l1_cache : Cache
  pub l2_cache : Cache
  pub l3_cache : Cache
  pub tlb : List TlbEntry
  pub prefetched : List ℕ
  pub clock : ℕ
  pub result : SimulationResult

abbrev pub hierarchy_of : ℕ → Cache → Cache → Cache → Hierarchy
hierarchy_of page_bytes l1 l2 l3 = record {
  page_bytes = page_bytes;
  l1_cache = l1;
  l2_cache = l2;
  l3_cache = l3;
  tlb = [];
  prefetched = [];
  clock = 0;
  result = no_result;
}

-- The constructor, which makes the three caches in turn.
unfoldable pub make_hierarchy : TargetInfo → Result Hierarchy
make_hierarchy target = do
  l1 ← make_cache target.l1_bytes target.cache_line_bytes 8
  l2 ← make_cache target.l2_bytes target.cache_line_bytes 8
  l3 ← make_cache target.l3_bytes target.cache_line_bytes 16
  ok (hierarchy_of target.page_bytes l1 l2 l3)

abbrev pub is_page : ℕ → TlbEntry → Bool
is_page page entry = entry.page == page

-- `std::min_element` by `last_used`, the first of the smallest: the page of the victim.
unfoldable pub min_element : TlbEntry → List TlbEntry → TlbEntry
min_element best [] = best
min_element best (entry ∷ entries) =
    min_element (if ltb entry.last_used best.last_used then entry else best) entries

-- `erase` of a key.
unfoldable pub erase_page : ℕ → List TlbEntry → List TlbEntry
erase_page page [] = []
erase_page page (entry ∷ entries) =
    let rest = erase_page page entries in if is_page page entry then entries else entry ∷ rest

unfoldable pub evict : List TlbEntry → List TlbEntry
evict [] = []
evict (entry ∷ entries) = erase_page (min_element entry entries).page (entry ∷ entries)

unfoldable pub touch : ℕ → ℕ → List TlbEntry → List TlbEntry
touch page clock [] = []
touch page clock (entry ∷ entries) =
    let rest = touch page clock entries in
    if is_page page entry then record entry { last_used = clock } ∷ entries else entry ∷ rest

unfoldable pub erase : ℕ → List ℕ → List ℕ
erase key [] = []
erase key (x ∷ xs) = let rest = erase key xs in if x == key then xs else x ∷ rest

-- The first part of `access`: the page.
unfoldable pub access_page : Hierarchy → ℕ → Hierarchy
access_page h address =
    let page = address / h.page_bytes in
    let clock = suc h.clock in
    let r = h.result in
    if any (is_page page) h.tlb
    then record h {
      tlb = touch page clock h.tlb;
      clock = clock;
      result = record r { dtlb_hits = suc r.dtlb_hits };
    }
    else record h {
      tlb =
          record { page = page; last_used = clock }
          ∷ (if leb 64 (length h.tlb) then evict h.tlb else h.tlb);
      clock = clock;
      result = record r { dtlb_misses = suc r.dtlb_misses };
    }

abbrev pub contains : ℕ → List ℕ → Bool
contains key keys = any (λ x. x == key) keys

-- `if (!prefetch && prefetched_.erase(address / 64) > 0) ++result.useful_prefetches;`
unfoldable pub take_prefetch : Bool → ℕ → Hierarchy → Hierarchy
take_prefetch prefetch line h =
    let r = h.result in
    if not prefetch && contains line h.prefetched
    then record h {
      prefetched = erase line h.prefetched;
      result = record r { useful_prefetches = suc r.useful_prefetches };
    }
    else h

-- `if (prefetch) { ++result.prefetched_lines; prefetched_[address / 64] = true; }`
unfoldable pub note_prefetch : Bool → ℕ → Hierarchy → Hierarchy
note_prefetch prefetch line h =
    let r = h.result in
    if prefetch
    then record h {
      prefetched = if contains line h.prefetched then h.prefetched else line ∷ h.prefetched;
      result = record r { prefetched_lines = suc r.prefetched_lines };
    }
    else h

abbrev pub tally : Bool → CacheLevelStats → CacheLevelStats
tally true s = record s { hits = suc s.hits }
tally false s = record s { misses = suc s.misses }

-- The last part: each level is asked only when the one above misses.
unfoldable pub access_l3 : Hierarchy → ℕ → Hierarchy
access_l3 h address =
    let (l3, is_hit) = access h.l3_cache address in
    let r = h.result in
    let counted = record r { l3 = tally is_hit r.l3 } in
    if is_hit
    then record h { l3_cache = l3; result = counted }
    else record h { l3_cache = l3; result = record counted { dram_accesses = suc r.dram_accesses } }

unfoldable pub access_l2 : Hierarchy → ℕ → Hierarchy
access_l2 h address =
    let (l2, is_hit) = access h.l2_cache address in
    let r = h.result in
    let h' = record h { l2_cache = l2; result = record r { l2 = tally is_hit r.l2 } } in
    let deeper = access_l3 h' address in if is_hit then h' else deeper

unfoldable pub access_l1 : Hierarchy → ℕ → Hierarchy
access_l1 h address =
    let (l1, is_hit) = access h.l1_cache address in
    let r = h.result in
    let h' = record h { l1_cache = l1; result = record r { l1 = tally is_hit r.l1 } } in
    let deeper = access_l2 h' address in if is_hit then h' else deeper

abbrev pub count_access : Hierarchy → Hierarchy
count_access h = record h {
  result = record h.result { memory_accesses = suc h.result.memory_accesses };
}

-- `Hierarchy::access`.
unfoldable pub access_memory : Hierarchy → ℕ → Bool → Hierarchy
access_memory h address prefetch =
    access_l1
      (note_prefetch prefetch (address / 64)
        (take_prefetch prefetch (address / 64) (access_page (count_access h) address)))
      address

-- A sequence of accesses, each with its flag.
unfoldable pub run : Hierarchy → List (ℕ × Bool) → Hierarchy
run h accesses = foldl (λ h (a : ℕ × Bool). access_memory h a.0 a.1) h accesses
