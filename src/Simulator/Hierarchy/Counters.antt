-- ===== src/Simulator/Hierarchy/Counters.antt =====
-- The counters of the class `Hierarchy` of src/simulator.cpp.
use sched_forge.Base.{
  ℕ, suc, ◌+◌, ◌/◌, ◌≤◌, ◌≡◌, inl, inr, refl, subst, Bool, true, false, Bool-cases, List, [], ◌∷◌,
  length, any, leb, arith,
}
use sched_forge.Base.Result.{Result, ok, ◌>>=◌, >>=-eq-ok, ok-injective}
use sched_forge.Schedule.{TargetInfo}
use sched_forge.Simulator.Cache.{Cache, access, make_cache}
use sched_forge.Simulator.Hierarchy.{
  Hierarchy, hierarchy_of, make_hierarchy, is_page, access_page, contains, take_prefetch,
  note_prefetch, access_l3, access_l2, access_l1, count_access, access_memory, run,
}
use sched_forge.Simulator.Hierarchy.Tlb.{erase-length, touch-length, evict-bound}

-- The counters, while a first, a second or a third level is still to be asked.
pub record IsOwed (a b c : ℕ) (h : Hierarchy) : Type 0 where
  pub tlb_bound : length h.tlb ≤ 64
  pub pages : h.result.dtlb_hits + h.result.dtlb_misses ≡ h.result.memory_accesses
  pub prefetches : h.result.useful_prefetches + length h.prefetched ≤ h.result.prefetched_lines
  pub level1 : h.result.l1.hits + h.result.l1.misses + a ≡ h.result.memory_accesses
  pub level2 : h.result.l2.hits + h.result.l2.misses + b ≡ h.result.l1.misses
  pub level3 : h.result.l3.hits + h.result.l3.misses + c ≡ h.result.l2.misses
  pub dram : h.result.dram_accesses ≡ h.result.l3.misses

access_page-IsOwed :
    (h : Hierarchy) (address : ℕ)
    → IsOwed 0 0 0 h
    → IsOwed 1 0 0 (access_page (count_access h) address)
unfolding access_page
access_page-IsOwed h address i = elim (Bool-cases (any (is_page (address / h.page_bytes)) h.tlb)) [
  | inl e ↦
      rw (e, access_page)
        (record {
          tlb_bound = omega (arith, touch-length (address / h.page_bytes) (suc h.clock) h.tlb);
          pages = omega arith;
          prefetches = i.prefetches;
          level1 = omega arith;
          level2 = i.level2;
          level3 = i.level3;
          dram = i.dram;
        })
  | inr e ↦
      rw (e, access_page)
        (record {
          tlb_bound = elim (Bool-cases (leb 64 (length h.tlb))) [
            | inl f ↦ rw f (evict-bound h.tlb i.tlb_bound f)
            | inr f ↦ rw f (ground arith)
          ];
          pages = omega arith;
          prefetches = i.prefetches;
          level1 = omega arith;
          level2 = i.level2;
          level3 = i.level3;
          dram = i.dram;
        })
]

take_prefetch-IsOwed :
    (prefetch : Bool) (line a b c : ℕ) (h : Hierarchy)
    → IsOwed a b c h
    → IsOwed a b c (take_prefetch prefetch line h)
unfolding take_prefetch
take_prefetch-IsOwed true line a b c h i = i
take_prefetch-IsOwed false line a b c h i = elim (Bool-cases (contains line h.prefetched)) [
  | inl e ↦
      rw (e, take_prefetch)
        (record {
          tlb_bound = i.tlb_bound;
          pages = i.pages;
          prefetches = omega (arith, erase-length line h.prefetched e);
          level1 = i.level1;
          level2 = i.level2;
          level3 = i.level3;
          dram = i.dram;
        })
  | inr e ↦ rw (e, take_prefetch) i
]

note_prefetch-IsOwed :
    (prefetch : Bool) (line a b c : ℕ) (h : Hierarchy)
    → IsOwed a b c h
    → IsOwed a b c (note_prefetch prefetch line h)
unfolding note_prefetch
note_prefetch-IsOwed true line a b c h i = record {
  tlb_bound = i.tlb_bound;
  pages = i.pages;
  prefetches = elim (Bool-cases (contains line h.prefetched)) [
    | inl e ↦ rw e (omega arith)
    | inr e ↦ rw e (omega arith)
  ];
  level1 = i.level1;
  level2 = i.level2;
  level3 = i.level3;
  dram = i.dram;
}
note_prefetch-IsOwed false line a b c h i = i

access_l3-IsOwed :
    (h : Hierarchy) (address : ℕ) → IsOwed 0 0 1 h → IsOwed 0 0 0 (access_l3 h address)
unfolding access_l3
access_l3-IsOwed h address i = elim (Bool-cases (access h.l3_cache address).1) [
  | inl e ↦
      rw (e, access_l3)
        (record {
          tlb_bound = i.tlb_bound;
          pages = i.pages;
          prefetches = i.prefetches;
          level1 = omega arith;
          level2 = omega arith;
          level3 = omega arith;
          dram = omega arith;
        })
  | inr e ↦
      rw (e, access_l3)
        (record {
          tlb_bound = i.tlb_bound;
          pages = i.pages;
          prefetches = i.prefetches;
          level1 = omega arith;
          level2 = omega arith;
          level3 = omega arith;
          dram = omega arith;
        })
]

access_l2-IsOwed :
    (h : Hierarchy) (address : ℕ) → IsOwed 0 1 0 h → IsOwed 0 0 0 (access_l2 h address)
unfolding access_l2
access_l2-IsOwed h address i = elim (Bool-cases (access h.l2_cache address).1) [
  | inl e ↦
      rw (e, access_l2)
        (record {
          tlb_bound = i.tlb_bound;
          pages = i.pages;
          prefetches = i.prefetches;
          level1 = omega arith;
          level2 = omega arith;
          level3 = omega arith;
          dram = omega arith;
        })
  | inr e ↦
      rw (e, access_l2)
        (access_l3-IsOwed _ address (record {
          tlb_bound = i.tlb_bound;
          pages = i.pages;
          prefetches = i.prefetches;
          level1 = omega arith;
          level2 = omega arith;
          level3 = omega arith;
          dram = omega arith;
        }))
]

access_l1-IsOwed :
    (h : Hierarchy) (address : ℕ) → IsOwed 1 0 0 h → IsOwed 0 0 0 (access_l1 h address)
unfolding access_l1
access_l1-IsOwed h address i = elim (Bool-cases (access h.l1_cache address).1) [
  | inl e ↦
      rw (e, access_l1)
        (record {
          tlb_bound = i.tlb_bound;
          pages = i.pages;
          prefetches = i.prefetches;
          level1 = omega arith;
          level2 = omega arith;
          level3 = omega arith;
          dram = omega arith;
        })
  | inr e ↦
      rw (e, access_l1)
        (access_l2-IsOwed _ address (record {
          tlb_bound = i.tlb_bound;
          pages = i.pages;
          prefetches = i.prefetches;
          level1 = omega arith;
          level2 = omega arith;
          level3 = omega arith;
          dram = omega arith;
        }))
]

access_memory-IsOwed :
    (h : Hierarchy) (address : ℕ) (prefetch : Bool)
    → IsOwed 0 0 0 h
    → IsOwed 0 0 0 (access_memory h address prefetch)
unfolding access_memory
access_memory-IsOwed h address prefetch i = access_l1-IsOwed _ address (
    note_prefetch-IsOwed prefetch _ 1 0 0 _
      (take_prefetch-IsOwed prefetch _ 1 0 0 _ (access_page-IsOwed h address i)))

run-IsOwed :
    (accesses : List (ℕ × Bool)) (h : Hierarchy) → IsOwed 0 0 0 h → IsOwed 0 0 0 (run h accesses)
unfolding run
run-IsOwed [] h i = i
run-IsOwed (a ∷ accesses) h i =
    run-IsOwed accesses (access_memory h a.0 a.1) (access_memory-IsOwed h a.0 a.1 i)

fresh-IsOwed : (page_bytes : ℕ) (l1 l2 l3 : Cache) → IsOwed 0 0 0 (hierarchy_of page_bytes l1 l2 l3)
fresh-IsOwed page_bytes l1 l2 l3 = record {
  tlb_bound = omega arith;
  pages = refl;
  prefetches = omega arith;
  level1 = refl;
  level2 = refl;
  level3 = refl;
  dram = refl;
}

make_hierarchy-IsOwed :
    (target : TargetInfo) (h : Hierarchy) → make_hierarchy target ≡ ok h → IsOwed 0 0 0 h
unfolding make_hierarchy
make_hierarchy-IsOwed target h e =
    let size = target.cache_line_bytes in
    let third : Cache → Cache → Cache → Result Hierarchy =
      λ l1 l2 l3. ok (hierarchy_of target.page_bytes l1 l2 l3) in
    let second : Cache → Cache → Result Hierarchy =
      λ l1 l2. make_cache target.l3_bytes size 16 >>= third l1 l2 in
    let first : Cache → Result Hierarchy = λ l1. make_cache target.l2_bytes size 8 >>= second l1 in
    let (l1, _, e1) = >>=-eq-ok (make_cache target.l1_bytes size 8) first e in
    let (l2, _, e2) = >>=-eq-ok (make_cache target.l2_bytes size 8) (second l1) e1 in
    let (l3, _, e3) = >>=-eq-ok (make_cache target.l3_bytes size 16) (third l1 l2) e2 in
    subst (IsOwed 0 0 0) (ok-injective e3) (fresh-IsOwed target.page_bytes l1 l2 l3)

-- After any sequence of accesses, with and without prefetching, to a hierarchy that was constructed: the
-- hits and misses of the TLB, and those of the first level, add up to the accesses; those of each further
-- level add up to the misses of the one above; DRAM was accessed as often as the third level missed; no
-- more prefetches were useful than were made; and the TLB holds at most 64 pages.
pub run-counters :
    (target : TargetInfo) (h : Hierarchy) (accesses : List (ℕ × Bool))
    → make_hierarchy target ≡ ok h
    → let after = run h accesses in
      let r = after.result in
      (r.dtlb_hits + r.dtlb_misses ≡ r.memory_accesses)
      × (r.l1.hits + r.l1.misses ≡ r.memory_accesses)
      × (r.l2.hits + r.l2.misses ≡ r.l1.misses)
      × (r.l3.hits + r.l3.misses ≡ r.l2.misses)
      × (r.dram_accesses ≡ r.l3.misses)
      × (r.useful_prefetches ≤ r.prefetched_lines)
      × (length after.tlb ≤ 64)
run-counters target h accesses e =
    let i = run-IsOwed accesses h (make_hierarchy-IsOwed target h e) in
    (i.pages, omega arith, omega arith, omega arith, i.dram, omega arith, i.tlb_bound)
