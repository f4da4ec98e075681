-- ===== src/Memory/Planner/Safety.antt =====
-- The bytes and the lifetimes of the buffers in a plan of `MemoryPlanner` (src/compiler.cpp).
use sched_forge.Base.{
  All, Pairwise, All-snoc, All-and, find_if-All, ℕ, ◌+◌, ◌*◌, ◌%◌, ◌≤◌, ◌≡◌, max, Bool, true, false,
  not, ◌&&◌, List, [], ◌∷◌, foldl, arith, refl, ltb, find_if, Option-cases, Bool-cases, inl, inr,
  leb,
}
use sched_forge.Schedule.{Problem, Schedule}
use sched_forge.Memory.Ranges.{align_to, align_to-64, Extent, Apart}
use sched_forge.Memory.Planner.{BufferPlan, Arena, needed, when, place, place_all, plan, peak_bytes}

abbrev pub extent : BufferPlan → Extent
extent b = record { offset = b.offset; bytes = b.bytes; first = b.first_use; last = b.last_use }

abbrev pub BuffersApart : BufferPlan → BufferPlan → Type 0
BuffersApart a b = Apart (extent a) (extent b)

place_all-Pairwise :
    (pa pb bias relu : Bool) (a b c : ℕ)
    → Pairwise BuffersApart (place_all (needed pa pb bias relu a b c)).placed
unfolding place_all align_to
place_all-Pairwise true true true true a b c = elim (Bool-cases (leb c a)) [
  | inl e ↦ rw (e, Pairwise) (ground arith)
  | inr e ↦ rw (e, Pairwise) (ground arith)
]
place_all-Pairwise true true true false a b c = ground arith
place_all-Pairwise true true false true a b c = elim (Bool-cases (leb c a)) [
  | inl e ↦ rw (e, Pairwise) (ground arith)
  | inr e ↦ rw (e, Pairwise) (ground arith)
]
place_all-Pairwise true true false false a b c = ground arith
place_all-Pairwise true false true true a b c = elim (Bool-cases (leb c a)) [
  | inl e ↦ rw (e, Pairwise) (ground arith)
  | inr e ↦ rw (e, Pairwise) (ground arith)
]
place_all-Pairwise true false true false a b c = ground arith
place_all-Pairwise true false false true a b c = elim (Bool-cases (leb c a)) [
  | inl e ↦ rw (e, Pairwise) (ground arith)
  | inr e ↦ rw (e, Pairwise) (ground arith)
]
place_all-Pairwise true false false false a b c = ground arith
place_all-Pairwise false true true true a b c = ground arith
place_all-Pairwise false true true false a b c = ground arith
place_all-Pairwise false true false true a b c = ground arith
place_all-Pairwise false true false false a b c = ground arith
place_all-Pairwise false false true true a b c = ground arith
place_all-Pairwise false false true false a b c = ground arith
place_all-Pairwise false false false true a b c = ground arith
place_all-Pairwise false false false false a b c = tt

-- In every plan of the kernel planner, two buffers that are live at the same time share no byte.
pub plan-Pairwise : (p : Problem) (s : Schedule) → Pairwise BuffersApart (plan p s)
unfolding plan
plan-Pairwise p s =
    place_all-Pairwise s.pack_a s.pack_b (not s.fused && p.bias) (not s.fused && p.relu)
      (4 * s.mc * s.kc) (4 * s.kc * s.nc) (4 * p.m * p.n)

-- The peak.
peak_from : ℕ → List BufferPlan → ℕ
peak_from n bs = foldl (λ peak b. max peak (b.offset + b.bytes)) n bs

peak_from-ge : (n : ℕ) (bs : List BufferPlan) → n ≤ peak_from n bs
unfolding peak_from
peak_from-ge n [] = omega arith
peak_from-ge n (b ∷ bs) = omega (arith, peak_from-ge (max n (b.offset + b.bytes)) bs)

peak_from-bound : (n : ℕ) (bs : List BufferPlan) → All (λ b. b.offset + b.bytes ≤ peak_from n bs) bs
unfolding peak_from
peak_from-bound n [] = tt
peak_from-bound n (b ∷ bs) = (
  omega (arith, peak_from-ge (max n (b.offset + b.bytes)) bs),
  peak_from-bound (max n (b.offset + b.bytes)) bs,
)

abbrev IsAligned : BufferPlan → Type 0
IsAligned b = b.offset % 64 ≡ 0

place-IsAligned :
    (arena : Arena) (b : BufferPlan)
    → b.alignment ≡ 64
    → All IsAligned arena.placed
    → All IsAligned (place arena b).placed
unfolding place
place-IsAligned arena b e h =
    elim (Option-cases
      (find_if (λ q. ltb q.last_use b.first_use && leb b.bytes q.bytes) arena.placed)) [
        | inl f ↦
            rw (f, e, place) (All-snoc IsAligned arena.placed _ h ((align_to-64 arena.arena_end).1))
        | inr (q, f) ↦
            rw (f, place)
              (All-snoc IsAligned arena.placed _ h (find_if-All IsAligned _ arena.placed f h))
      ]

foldl-IsAligned :
    (bs : List BufferPlan) (arena : Arena)
    → All (λ b. b.alignment ≡ 64) bs
    → All IsAligned arena.placed
    → All IsAligned (foldl place arena bs).placed
foldl-IsAligned [] arena e h = h
foldl-IsAligned (b ∷ bs) arena e h =
    foldl-IsAligned bs (place arena b) e.1 (place-IsAligned arena b e.0 h)

when-64 :
    (c : Bool) (b : BufferPlan) (bs : List BufferPlan)
    → b.alignment ≡ 64
    → All (λ q. q.alignment ≡ 64) bs
    → All (λ q. q.alignment ≡ 64) (when c b bs)
when-64 true b bs e h = (e, h)
when-64 false b bs e h = h

place_all-IsAligned :
    (pa pb bias relu : Bool) (a b c : ℕ)
    → All IsAligned (place_all (needed pa pb bias relu a b c)).placed
unfolding place_all
place_all-IsAligned pa pb bias relu a b c =
    foldl-IsAligned (needed pa pb bias relu a b c) _
      (when-64 pa _ _ refl (when-64 pb _ _ refl (when-64 bias _ _ refl (when-64 relu _ _ refl tt))))
      tt

peak_bytes-bound : (bs : List BufferPlan) → All (λ b. b.offset + b.bytes ≤ peak_bytes bs) bs
unfolding peak_bytes peak_from
peak_bytes-bound bs = peak_from-bound 0 bs

-- Every buffer starts at a multiple of 64 and ends within `peakBytes` of its plan.
pub plan-IsAligned :
    (p : Problem) (s : Schedule)
    → All (λ b. (b.offset % 64 ≡ 0) × (b.offset + b.bytes ≤ peak_bytes (plan p s))) (plan p s)
plan-IsAligned p s =
    All-and IsAligned (λ b. b.offset + b.bytes ≤ peak_bytes (plan p s)) (plan p s)
      (unfold plan in
        place_all-IsAligned s.pack_a s.pack_b (not s.fused && p.bias) (not s.fused && p.relu)
          (4 * s.mc * s.kc) (4 * s.kc * s.nc) (4 * p.m * p.n))
      (peak_bytes-bound (plan p s))
