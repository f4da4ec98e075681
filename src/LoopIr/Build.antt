-- ===== src/LoopIr/Build.antt =====
-- `apply_schedule` of src/ir.cpp: a schedule rewritten into an explicit loop nest.
pub mod Scans
pub mod Finds
pub mod Plan
pub mod Verified
use Prim.Native.String.{String}
use sched_forge.Base.{
  ℕ, max, Bool, not, ◌&&◌, ◌||◌, none, [], ◌∷◌, ltb, ◌==◌, if◌then◌else◌, to_string, join,
}
use sched_forge.Base.Integers.{pos}
use sched_forge.Base.Result.{Result, ok, ◌>>◌}
use sched_forge.Schedule.{LoopOrder, ijk, ikj, Problem, Schedule}
use sched_forge.LoopIr.Ops.{
  for_loop, parallel_for, buffer_alloc, pack, prefetch, scalar_load, vector_load, broadcast,
  accumulator_init, fma, add_bias, relu, scalar_store, vector_store, default_fields, LoopBody, nil,
  cons, leaf, append, optional, operation, LoopOperation, LoopIr, make_loop,
}
use sched_forge.LoopIr.Analyze.{verify_loop_ir, analyze_loop_ir}

-- `append_buffer_ops`.
unfoldable pub buffer_ops : Bool → String → String → String → LoopBody
buffer_ops enabled source destination result =
    if enabled
    then cons
        (leaf buffer_alloc (record default_fields { result = result; destination = destination }))
        (cons (leaf pack (record default_fields { source = source; destination = destination }))
          nil)
    else nil

abbrev pub is_ikj : LoopOrder → Bool
is_ikj ikj = Bool.true
is_ikj ijk = Bool.false

module _ (p : Problem) (s : Schedule) where
  abbrev pub tile_m : ℕ
  tile_m = if s.tiled then max 1 s.bm else p.m

  abbrev pub tile_n : ℕ
  tile_n = if s.tiled then max 1 s.bn else p.n

  abbrev pub tile_k : ℕ
  tile_k = if s.tiled then max 1 s.bk else p.k

  abbrev pub width : ℕ
  width = max 1 s.vector_width

  -- The branch that the source takes for a scalar, unpacked `IKJ` schedule.
  abbrev pub scalar_nest : Bool
  scalar_nest = is_ikj s.order && (width == 1) && not s.pack_a && not s.pack_b

  -- `make_reduction_body`.
  unfoldable pub reduction_body : LoopBody
  reduction_body =
      append
        (optional (ltb 0 s.prefetch_distance) (
          leaf prefetch (record default_fields {
            source = if s.pack_b then "%packedB" else "%B";
            indices = "k" ∷ "j" ∷ [];
            distance = s.prefetch_distance;
          })))
        (cons
          (leaf scalar_load (record default_fields {
            result = "a";
            source = if s.pack_a then "%packedA" else "%A";
            indices = "i" ∷ "k" ∷ [];
          }))
          (cons
            (leaf (if ltb 1 width then vector_load else scalar_load) (record default_fields {
              result = "b";
              source = if s.pack_b then "%packedB" else "%B";
              indices = "k" ∷ "j" ∷ [];
              width = width;
            }))
            (append
              (optional (ltb 1 width) (
                leaf broadcast
                  (record default_fields { result = "a_vec"; source = "%a"; width = width })))
              (cons
                (leaf fma (record default_fields {
                  result = "acc";
                  source = if ltb 1 width then "%a_vec,%b,%acc" else "%a,%b,%acc";
                  width = width;
                }))
                nil))))

  -- `append_epilogue`.
  unfoldable pub epilogue : LoopBody
  epilogue =
      append
        (optional p.bias (
          leaf add_bias (record default_fields {
            result = "acc";
            source = "%bias";
            indices = "j" ∷ [];
            width = width;
          })))
        (optional p.relu
          (leaf relu (record default_fields { result = "acc"; source = "%acc"; width = width })))

  -- The outermost loop, whose `threads` and `pinned` are set after `make_loop`.
  abbrev pub outer_loop : LoopBody → LoopOperation
  outer_loop body =
      operation (if ltb 1 s.threads then parallel_for else for_loop)
        (record default_fields {
          induction = "ii";
          lower = "0";
          upper = "M";
          step = pos (max 1 tile_m);
          threads = max 1 s.threads;
          pinned = s.pin_threads;
        })
        body

  abbrev pub bound : String → ℕ → String → String
  bound base tile extent = join (base ∷ to_string tile ∷ extent ∷ [])

  unfoldable pub scalar_loops : LoopOperation
  scalar_loops =
      let update_body = append reduction_body (
        cons
          (leaf scalar_store (record default_fields {
            source = "%acc";
            destination = "%C";
            indices = "i" ∷ "j" ∷ [];
          }))
          nil) in
      let j = make_loop for_loop "j" (bound "min(jj+" tile_n ",N)") 1 update_body in
      let k =
        make_loop for_loop "k" (bound "min(kk+" tile_k ",K)") (max 1 s.unroll_k) (cons j nil) in
      let i = make_loop for_loop "i" (bound "min(ii+" tile_m ",M)") 1 (cons k nil) in
      let jj = make_loop for_loop "jj" "N" tile_n (cons i nil) in
      let kk = make_loop for_loop "kk" "K" tile_k (cons jj nil) in outer_loop (cons kk nil)

  unfoldable pub element_body : LoopBody
  element_body =
      let k =
        make_loop for_loop "k" (bound "min(kk+" tile_k ",K)") (max 1 s.unroll_k) reduction_body in
      cons (leaf accumulator_init (record default_fields { result = "acc"; width = width })) (
        cons (make_loop for_loop "kk" "K" tile_k (cons k nil)) (
          append (if s.fused then epilogue else nil) (
            cons
              (leaf (if ltb 1 width then vector_store else scalar_store) (record default_fields {
                source = "%acc";
                destination = "%C";
                indices = "i" ∷ "j" ∷ [];
                width = width;
              }))
              nil)))

  unfoldable pub element_loops : LoopOperation
  element_loops =
      let j =
        make_loop for_loop "j" (bound "min(jj+" tile_n ",N)")
          (if ltb 1 width then max width s.nr else 1) element_body in
      let i =
        make_loop for_loop "i" (bound "min(ii+" tile_m ",M)")
          (if ltb 1 width then max 1 s.mr else 1) (cons j nil) in
      let jj = make_loop for_loop "jj" "N" tile_n (cons i nil) in outer_loop (cons jj nil)

  -- The bias and the ReLU as operations on the whole of C, after the loop nest.
  unfoldable pub separate_epilogue : LoopBody
  separate_epilogue =
      if not s.fused || is_ikj s.order && (width == 1)
      then append
          (optional p.bias
            (leaf add_bias (record default_fields { source = "%bias"; destination = "%C" })))
          (optional p.relu
            (leaf relu (record default_fields { source = "%C"; destination = "%C" })))
      else nil

  unfoldable pub scheduled_operations : LoopBody
  scheduled_operations = append (buffer_ops s.pack_a "%A" "%packedA" "packed_a") (
      append (buffer_ops s.pack_b "%B" "%packedB" "packed_b")
        (cons (if scalar_nest then scalar_loops else element_loops) separate_epilogue))

  unfoldable pub apply_schedule : Result LoopIr
  apply_schedule =
      let loop : LoopIr = record {
        problem = p;
        operations = scheduled_operations;
        execution_plan = none;
      } in
      do verify_loop_ir loop; ok (analyze_loop_ir loop).1
