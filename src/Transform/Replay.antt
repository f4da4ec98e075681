-- ===== src/Transform/Replay.antt =====
-- What a replay brings back of the schedule that a program was made from.
use sched_forge.Base.{
  String, ℕ, ◌≡◌, refl, sym, ◌∙◌, Bool, true, false, ◌||◌, List, [], ◌∷◌, foldl-append, ltb,
  if◌then◌else◌, arith, join, find_char,
}
use sched_forge.Schedule.{ikj, Problem, Schedule, default_schedule}
use sched_forge.LoopIr.Analyze.{verify_loop_ir}
use sched_forge.LoopIr.Build.Verified.{apply_schedule-eq-ok, verify_ops-scheduled_operations}
use sched_forge.LoopIr.Build.{
  is_ikj, apply_schedule, scheduled_operations, element_loops, scalar_loops, element_body,
  reduction_body, epilogue, separate_epilogue,
}
use sched_forge.Transform.{
  interchange, prefetch, pack, TransformOperation, TransformProgram, add, when, replay, replay_kind,
  apply, from_schedule,
}

replay-add :
    (program : TransformProgram) (o : TransformOperation) (seed : Schedule)
    → replay (add program o) seed ≡ replay_kind o.kind o.integers o.text (replay program seed)
unfolding replay
replay-add program o seed = rw (foldl-append _ seed program (o ∷ []))

replay-when :
    (b : Bool) (program : TransformProgram) (o : TransformOperation) (seed : Schedule)
    → replay (when b o program) seed ≡ (
        if b
        then replay_kind o.kind o.integers o.text (replay program seed)
        else replay program seed)
replay-when true program o seed = replay-add program o seed
replay-when false program o seed = refl

replay-nil : (seed : Schedule) → replay [] seed ≡ seed
unfolding replay
replay-nil seed = refl

-- The schedule that a replay onto `seed` rebuilds.
abbrev pub rebuilt : Schedule → Schedule → Schedule
rebuilt s seed = record seed {
  order = if is_ikj s.order then ikj else seed.order;
  bm = s.bm;
  bn = s.bn;
  bk = s.bk;
  mr = s.mr;
  nr = s.nr;
  vector_width = s.vector_width;
  threads = s.threads;
  unroll_k = s.unroll_k;
  prefetch_distance =
      if ltb 0 s.prefetch_distance then s.prefetch_distance else seed.prefetch_distance;
  tiled = true;
  fused = true;
  pack_a = if s.pack_a || s.pack_b then s.pack_a else seed.pack_a;
  pack_b = if s.pack_a || s.pack_b then s.pack_b else seed.pack_b;
  pin_threads = ltb 1 s.threads;
}

-- The three operations that a program may lack, as changes of single fields.
interchanges :
    (b : Bool) (ns : List ℕ) (t : String) (x : Schedule)
    → (if b then replay_kind interchange ns t x else x)
      ≡ record x { order = if b then ikj else x.order }
unfolding replay_kind
interchanges true ns t x = refl
interchanges false ns t x = refl

prefetches :
    (b : Bool) (d : ℕ) (t : String) (x : Schedule)
    → (if b then replay_kind prefetch (d ∷ []) t x else x)
      ≡ record x { prefetch_distance = if b then d else x.prefetch_distance }
unfolding replay_kind
prefetches true d t x = refl
prefetches false d t x = refl

packs :
    (a b : Bool) (ns : List ℕ) (x : Schedule)
    → (if a || b
        then replay_kind pack ns (join ((if a then "a" else "") ∷ (if b then "b" else "") ∷ [])) x
        else x)
      ≡ record x {
        pack_a = if a || b then a else x.pack_a;
        pack_b = if a || b then b else x.pack_b;
      }
unfolding replay_kind join find_char
packs true true ns x = refl
packs true false ns x = refl
packs false true ns x = refl
packs false false ns x = refl

-- Replaying the program of a schedule restores its tiles, widths, unrolling and threads; the order
-- only if it is IKJ, the packing and the prefetch distance only if there are any. The rest is the
-- seed's, but tiled and fused are set and the pinning follows from the threads.
pub replay-from_schedule : (s seed : Schedule) → replay (from_schedule s) seed ≡ rebuilt s seed
unfolding from_schedule
replay-from_schedule s seed =
    simp (replay-add, replay-when, replay-nil, interchanges, prefetches, packs)
      (unfold replay_kind in refl)

-- The schedules that a program can carry: IKJ, tiled and fused, pinned exactly when parallel.
pub record IsCarried (s : Schedule) : Type 0 where
  pub ordered : s.order ≡ ikj
  pub is_tiled : s.tiled ≡ true
  pub is_fused : s.fused ≡ true
  pub pinned : s.pin_threads ≡ ltb 1 s.threads

replay_carried :
    (s : Schedule)
    → IsCarried s
    → replay (from_schedule s) default_schedule
      ≡ record s { mc = default_schedule.mc; nc = default_schedule.nc; kc = default_schedule.kc }
replay_carried s c = replay-from_schedule s default_schedule ∙ λ i. record s {
  order = order_lem i;
  tiled = sym c.is_tiled i;
  fused = sym c.is_fused i;
  prefetch_distance = prefetch_lem i;
  pack_a = a_lem s.pack_a s.pack_b i;
  pack_b = b_lem s.pack_a s.pack_b i;
  pin_threads = sym c.pinned i;
  mc = default_schedule.mc;
  nc = default_schedule.nc;
  kc = default_schedule.kc;
}
  where
    order_lem : (if is_ikj s.order then ikj else ikj) ≡ s.order
    order_lem = rw c.ordered

    prefetch_lem :
        (if ltb 0 s.prefetch_distance then s.prefetch_distance else 0) ≡ s.prefetch_distance
    prefetch_lem = ground arith

    a_lem : (a b : Bool) → (if a || b then a else false) ≡ a
    a_lem a b = ground arith

    b_lem : (a b : Bool) → (if a || b then b else false) ≡ b
    b_lem a b = ground arith

outer_tiles_unread :
    (p : Problem) (s : Schedule) (mc nc kc : ℕ)
    → scheduled_operations p (record s { mc = mc; nc = nc; kc = kc }) ≡ scheduled_operations p s
unfolding scheduled_operations element_loops scalar_loops element_body reduction_body epilogue
    separate_epilogue
outer_tiles_unread p s mc nc kc = refl

-- The program of a carried schedule lowers to the very loop program of the schedule itself, for
-- every problem: the cache tiles that the replay forgets are not read by the lowering.
pub apply-from_schedule :
    (s : Schedule) (p : Problem)
    → IsCarried s
    → apply (from_schedule s) p default_schedule ≡ apply_schedule p s
unfolding apply verify_loop_ir
apply-from_schedule s p c = rw (
  replay_carried s c,
  apply_schedule-eq-ok p
      (record s { mc = default_schedule.mc; nc = default_schedule.nc; kc = default_schedule.kc }),
  verify_ops-scheduled_operations p
      (record s { mc = default_schedule.mc; nc = default_schedule.nc; kc = default_schedule.kc }),
  apply_schedule-eq-ok p s,
  outer_tiles_unread p s default_schedule.mc default_schedule.nc default_schedule.kc,
)
