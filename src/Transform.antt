-- ===== src/Transform.antt =====
-- The transform program of include/schedforge/graph_compiler.h and src/graph_compiler.cpp: a schedule
-- as a sequence of transform operations, and the replay of such a sequence onto a schedule.
pub mod Replay
use Prim.Native.String.{String}
use sched_forge.Base.{
  ℕ, Bool, true, false, ◌||◌, List, [], ◌∷◌, ◌++◌, foldl, ltb, if◌then◌else◌, to_string, join,
  find_char,
}
use sched_forge.Base.Result.{Result, ok, ◌>>=◌, ◌>>◌}
use sched_forge.Schedule.{LoopOrder, ijk, ikj, Problem, Schedule}
use sched_forge.LoopIr.Ops.{LoopIr}
use sched_forge.LoopIr.Analyze.{verify_loop_ir}
use sched_forge.LoopIr.Build.{apply_schedule, is_ikj}

pub data TransformKind : Type 0 where
  match tile interchange register_tile vectorize unroll pack prefetch parallelize : TransformKind
  tensorize : TransformKind

pub record TransformOperation : Type 0 where
  pub kind : TransformKind
  pub integers : List ℕ
  pub text : String

abbrev pub TransformProgram : Type 0
TransformProgram = List TransformOperation

abbrev pub add : TransformProgram → TransformOperation → TransformProgram
add program o = program ++ o ∷ []

abbrev pub op : TransformKind → List ℕ → String → TransformOperation
op kind integers text = record { kind = kind; integers = integers; text = text }

-- The cases of the `switch` that read integers, for as many as the case asks for.
abbrev set_tile : List ℕ → Schedule → Schedule
set_tile (bm ∷ bn ∷ bk ∷ _) s = record s { bm = bm; bn = bn; bk = bk; tiled = true }
set_tile _ s = s

abbrev set_register_tile : List ℕ → Schedule → Schedule
set_register_tile (mr ∷ nr ∷ _) s = record s { mr = mr; nr = nr }
set_register_tile _ s = s

abbrev set_vector_width : List ℕ → Schedule → Schedule
set_vector_width (w ∷ _) s = record s { vector_width = w }
set_vector_width [] s = s

abbrev set_unroll : List ℕ → Schedule → Schedule
set_unroll (u ∷ _) s = record s { unroll_k = u }
set_unroll [] s = s

abbrev set_prefetch : List ℕ → Schedule → Schedule
set_prefetch (d ∷ _) s = record s { prefetch_distance = d }
set_prefetch [] s = s

abbrev set_threads : List ℕ → Schedule → Schedule
set_threads (t ∷ _) s = record s { threads = t }
set_threads [] s = s

-- The body of the loop of `TransformProgram::replay`.
replay_kind : TransformKind → List ℕ → String → Schedule → Schedule
replay_kind match integers text s = s
replay_kind tile integers text s = set_tile integers s
replay_kind interchange integers text s = record s { order = ikj }
replay_kind register_tile integers text s = set_register_tile integers s
replay_kind vectorize integers text s = set_vector_width integers s
replay_kind unroll integers text s = set_unroll integers s
replay_kind pack integers text s = record s {
  pack_a = find_char b'a' text;
  pack_b = find_char b'b' text;
}
replay_kind prefetch integers text s = set_prefetch integers s
replay_kind parallelize integers text s =
    let s' = set_threads integers s in record s' { pin_threads = ltb 1 s'.threads }
replay_kind tensorize integers text s = record s { fused = true }

abbrev replay_step : Schedule → TransformOperation → Schedule
replay_step s o = replay_kind o.kind o.integers o.text s

unfoldable pub replay : TransformProgram → Schedule → Schedule
unfolding replay_kind
replay program seed = foldl replay_step seed program

unfoldable pub apply : TransformProgram → Problem → Schedule → Result LoopIr
apply program problem seed = do
  loop ← apply_schedule problem (replay program seed)
  verify_loop_ir loop
  ok loop

abbrev when : Bool → TransformOperation → TransformProgram → TransformProgram
when enabled o program = if enabled then add program o else program

unfoldable pub from_schedule : Schedule → TransformProgram
from_schedule s =
    let matched = add [] (op match [] "tensor.matmul") in
    let tiled = add matched (op tile (s.bm ∷ s.bn ∷ s.bk ∷ []) "") in
    let ordered = when (is_ikj s.order) (op interchange (0 ∷ 2 ∷ 1 ∷ []) "") tiled in
    let registered = add ordered (op register_tile (s.mr ∷ s.nr ∷ []) "") in
    let vectorized = add registered (op vectorize (s.vector_width ∷ []) "") in
    let unrolled = add vectorized (op unroll (s.unroll_k ∷ []) "") in
    let packed =
      when (s.pack_a || s.pack_b)
        (op pack [] (join ((if s.pack_a then "a" else "") ∷ (if s.pack_b then "b" else "") ∷ [])))
        unrolled in
    let prefetched =
      when (ltb 0 s.prefetch_distance) (op prefetch (s.prefetch_distance ∷ []) "") packed in
    let parallel = add prefetched (op parallelize (s.threads ∷ []) "") in
    add parallel
      (op tensorize [] (join ("avx2_f32_m" ∷ to_string s.mr ∷ "n" ∷ to_string s.nr ∷ [])))
