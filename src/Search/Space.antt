-- ===== src/Search/Space.antt =====
-- `search_space`, `valid` and `execution_key` of src/autoscheduler.cpp, with `ScheduleDSL::print` of
-- src/compiler.cpp. The target that `TargetInfo::detect` finds is an argument. Divisors are positive.
pub mod Candidates
use Prim.Native.String.{String}
use sched_forge.Base.{
  ℕ, ◌+◌, ◌*◌, ◌%◌, max, min, Bool, true, false, not, ◌&&◌, ◌||◌, ltb, leb, ◌==◌, if◌then◌else◌,
  List, [], ◌∷◌, ◌++◌, to_string, join, map,
}
use sched_forge.Schedule.{
  LoopOrder, ijk, ikj, TargetInfo, Schedule, default_schedule, RegisterPressure, schedule_pressure,
}

abbrev order_str : LoopOrder → String
order_str ikj = "ikj"
order_str ijk = "ijk"

abbrev bool_str : Bool → String
bool_str true = "true"
bool_str false = "false"

-- `std::to_string` of a `bool`.
abbrev digit_str : Bool → String
digit_str true = "1"
digit_str false = "0"

abbrev when_str : Bool → String → String
when_str true text = text
when_str false text = ""

-- `ScheduleDSL::print`.
unfoldable pub print : Schedule → String
unfolding to_string join
print s = join (
    "order="
    ∷ order_str s.order
    ∷ ";outer="
    ∷ to_string s.mc
    ∷ ","
    ∷ to_string s.nc
    ∷ ","
    ∷ to_string s.kc
    ∷ ";tile="
    ∷ to_string s.bm
    ∷ ","
    ∷ to_string s.bn
    ∷ ","
    ∷ to_string s.bk
    ∷ ";micro="
    ∷ to_string s.mr
    ∷ ","
    ∷ to_string s.nr
    ∷ ";vector="
    ∷ to_string s.vector_width
    ∷ ";unroll="
    ∷ to_string s.unroll_k
    ∷ ";threads="
    ∷ to_string s.threads
    ∷ ";pack="
    ∷ when_str s.pack_a "a"
    ∷ when_str s.pack_b "b"
    ∷ ";prefetch="
    ∷ to_string s.prefetch_distance
    ∷ ";fuse="
    ∷ bool_str s.fused
    ∷ ";pin="
    ∷ bool_str s.pin_threads
    ∷ [])

abbrev is_ikj : LoopOrder → Bool
is_ikj ikj = true
is_ikj ijk = false

unfoldable pub execution_key : Schedule → String
unfolding to_string join print
execution_key s =
    if is_ikj s.order && not s.pack_a && not s.pack_b && leb 8 s.vector_width
    then join (
        "register;bm="
        ∷ to_string s.bm
        ∷ ";bn="
        ∷ to_string s.bn
        ∷ ";mr="
        ∷ to_string (min s.mr 8)
        ∷ ";threads="
        ∷ to_string s.threads
        ∷ ";fused="
        ∷ digit_str s.fused
        ∷ ";pin="
        ∷ digit_str s.pin_threads
        ∷ [])
    else print s

-- `for (x : xs) ...` around statements that push to one vector.
unfoldable pub for_each {ℓ} : {A : Type ℓ} → List ℕ → (ℕ → List A) → List A
for_each [] body = []
for_each (x ∷ xs) body = body x ++ for_each xs body

-- The values of a fixed list that are at most `max_threads`.
unfoldable pub at_most : ℕ → List ℕ → List ℕ
at_most max_threads [] = []
at_most max_threads (value ∷ values) =
    let rest = at_most max_threads values in if leb value max_threads then value ∷ rest else rest

unfoldable pub thread_counts : ℕ → List ℕ
unfolding at_most
thread_counts max_threads = 1 ∷ at_most max_threads (2 ∷ 4 ∷ 6 ∷ 8 ∷ 10 ∷ 12 ∷ 16 ∷ [])

-- The body of the loops.
abbrev pub candidate : ℕ → ℕ → ℕ → ℕ → ℕ → ℕ → ℕ → ℕ → ℕ → Schedule
candidate bm bn bk mr vector_width thread_count packing_mode prefetch_distance unroll_k =
    record default_schedule {
      order = ikj;
      bm = bm;
      bn = bn;
      bk = bk;
      mc = max 64 (bm * 2);
      nc = max 64 (bn * 2);
      kc = max 32 bk;
      mr = mr;
      nr = if leb 8 vector_width && packing_mode == 0 && leb mr 6 then 16 else vector_width;
      vector_width = vector_width;
      threads = thread_count;
      unroll_k = unroll_k;
      pack_a = packing_mode == 2;
      pack_b = leb 1 packing_mode;
      prefetch_distance = prefetch_distance;
      pin_threads = ltb 1 thread_count;
      tiled = true;
      fused = true;
    }

abbrev pub tiles : List ℕ
tiles = 16 ∷ 32 ∷ 64 ∷ []

-- The bodies of the nested loops, from the innermost out; each is named for its variable.
unfoldable pub at_unroll : ℕ → ℕ → ℕ → ℕ → ℕ → ℕ → ℕ → ℕ → ℕ → ℕ → List Schedule
at_unroll max_threads bm bn bk mr vector_width thread_count packing_mode prefetch_distance
      unroll_k =
    candidate bm bn bk mr vector_width thread_count packing_mode prefetch_distance unroll_k ∷ []

unfoldable pub at_prefetch : ℕ → ℕ → ℕ → ℕ → ℕ → ℕ → ℕ → ℕ → ℕ → List Schedule
unfolding for_each at_unroll
at_prefetch max_threads bm bn bk mr vector_width thread_count packing_mode prefetch_distance =
    for_each (1 ∷ 4 ∷ [])
      (at_unroll max_threads bm bn bk mr vector_width thread_count packing_mode prefetch_distance)

unfoldable pub at_packing : ℕ → ℕ → ℕ → ℕ → ℕ → ℕ → ℕ → ℕ → List Schedule
unfolding for_each at_prefetch
at_packing max_threads bm bn bk mr vector_width thread_count packing_mode =
    for_each (0 ∷ 4 ∷ [])
      (at_prefetch max_threads bm bn bk mr vector_width thread_count packing_mode)

unfoldable pub at_thread_count : ℕ → ℕ → ℕ → ℕ → ℕ → ℕ → ℕ → List Schedule
unfolding for_each at_packing
at_thread_count max_threads bm bn bk mr vector_width thread_count =
    for_each (0 ∷ 1 ∷ 2 ∷ []) (at_packing max_threads bm bn bk mr vector_width thread_count)

unfoldable pub at_vector : ℕ → ℕ → ℕ → ℕ → ℕ → ℕ → List Schedule
unfolding for_each thread_counts at_thread_count
at_vector max_threads bm bn bk mr vector_width =
    for_each (thread_counts max_threads) (at_thread_count max_threads bm bn bk mr vector_width)

unfoldable pub at_micro_rows : ℕ → ℕ → ℕ → ℕ → ℕ → List Schedule
unfolding for_each at_vector
at_micro_rows max_threads bm bn bk mr = for_each (1 ∷ 8 ∷ []) (at_vector max_threads bm bn bk mr)

unfoldable pub at_depth_tile : ℕ → ℕ → ℕ → ℕ → List Schedule
unfolding for_each at_micro_rows
at_depth_tile max_threads bm bn bk =
    for_each (1 ∷ 4 ∷ 6 ∷ 8 ∷ 16 ∷ []) (at_micro_rows max_threads bm bn bk)

unfoldable pub at_column_tile : ℕ → ℕ → ℕ → List Schedule
unfolding for_each at_depth_tile
at_column_tile max_threads bm bn = for_each tiles (at_depth_tile max_threads bm bn)

unfoldable pub at_row_tile : ℕ → ℕ → List Schedule
unfolding for_each at_column_tile
at_row_tile max_threads bm = for_each tiles (at_column_tile max_threads bm)

unfoldable pub search_space : ℕ → List Schedule
unfolding for_each at_row_tile
search_space max_threads = for_each tiles (at_row_tile max_threads)

unfoldable pub is_register_kernel : Schedule → Bool
is_register_kernel s =
    is_ikj s.order && not s.pack_a && not s.pack_b && leb 8 s.vector_width && leb s.mr 8

unfoldable pub working_set : Schedule → ℕ
working_set s = 4 * (s.bm * s.bk + s.bk * s.bn + s.bm * s.bn)

unfoldable pub valid : TargetInfo → Schedule → Bool
unfolding is_register_kernel schedule_pressure working_set
valid target s =
    if not (s.bn % s.vector_width == 0)
    then false
    else if not (is_register_kernel s) && not (s.bm % s.mr == 0)
    then false
    else if (schedule_pressure s target).spills
    then false
    else if s.pack_b && s.vector_width == 1
    then false
    else if s.pack_a && not s.pack_b
    then false
    else if ltb 0 s.prefetch_distance && not s.pack_b
    then false
    else if ltb 1 s.unroll_k && s.vector_width == 1
    then false
    else leb (working_set s) (128 * 1024)
