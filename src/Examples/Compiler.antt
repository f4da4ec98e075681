-- ===== src/Examples/Compiler.antt =====
-- The loop programs, the transform programs and the tensor graph at concrete inputs.
use sched_forge.Base.{
  ℕ, ◌+◌, ◌++◌, length, List, ◌<◌, ◌⊎◌, none, ◌≡◌, refl, ◌↔◌, true, false, ◌||◌, max, ltb, some, [],
  ◌∷◌,
}
use sched_forge.Base.Integers.{pos, negsuc}
use sched_forge.Base.Result.{ok, throw}
use sched_forge.Schedule.{ikj, Problem, Schedule, default_schedule}
use sched_forge.LoopIr.Ops.{
  for_loop, relu, fma, scalar_store, operation, LoopOperation, leaf, default_fields, LoopIr,
  LoopBody, cons, nil,
}
use sched_forge.LoopIr.Analyze.{compute_plan, analyze_loop_ir, verify_ops}
use sched_forge.LoopIr.Verify.{occurs, is_stuck_loop, is_fma_op, is_store_op, verify_ops_iff}
use sched_forge.LoopIr.Build.{scheduled_operations, apply_schedule}
use sched_forge.LoopIr.Build.Plan.{effective_plan, compute_plan-scheduled_operations}
use sched_forge.LoopIr.Build.Verified.{apply_schedule-eq-ok}
use sched_forge.LoopIr.Passes.{loop_interchange, loop_tiling, vectorize, fusion}
use sched_forge.LoopIr.Passes.Effects.{
  plan_after, fused_plan, vectorized_plan, interchanged_plan, loop_tiling-plan, fusion-plan,
  vectorize-plan, loop_interchange-plan,
}
use sched_forge.LoopIr.Epilogue.{insert_epilogue_before_stores, specialize}
use sched_forge.LoopIr.Epilogue.Levels.{levels}
use sched_forge.LoopIr.Epilogue.Insertion.{
  store_count, expand, insert_epilogue_before_stores-expand,
}
use sched_forge.LoopIr.Epilogue.Coherence.{built, specialized, analyze_loop_ir-Reached}
use sched_forge.Graph.Fusion.{dispatch_operations, grow, legal, legal_outputs}
use sched_forge.Graph.Fusion.Uses.{IsFused, dispatch_operations-IsFused}
use sched_forge.Transform.{replay, apply, from_schedule}
use sched_forge.Transform.Replay.{rebuilt, apply-from_schedule, replay-from_schedule}
use sched_forge.Graph.Types.{
  fixed, f32, GraphTensorType, tensor, TensorGraph, empty_graph, gelu, mat_mul,
}
use sched_forge.Graph.Build.{
  out_of_range, new_value, new_operation, add_input, add_operation, use_value, use_values,
  input_kind,
}
use sched_forge.Graph.Build.Returns.{InRange, add_operation-returns}
use sched_forge.Graph.Build.Chains.{
  IsChained, Built, start, with_input, with_operation, Built-IsChained,
}

abbrev matmul : Problem
matmul = record { m = 64; n = 48; k = 32; bias = true; relu = true }

abbrev wide_matmul : Problem
wide_matmul = record { m = 128; n = 96; k = 32; bias = true; relu = true }

abbrev tuned : Schedule
tuned = record default_schedule {
  order = ikj;
  tiled = true;
  bm = 16;
  bn = 16;
  bk = 8;
  mr = 4;
  nr = 16;
  vector_width = 8;
  threads = 4;
  pack_b = true;
  fused = true;
  pin_threads = true;
}

abbrev lowered : LoopIr
lowered = record {
  problem = matmul;
  operations = scheduled_operations matmul tuned;
  execution_plan = some (effective_plan matmul tuned);
}

compute_plan-scheduled_operations_example :
    compute_plan matmul (scheduled_operations matmul tuned) ≡ effective_plan matmul tuned
compute_plan-scheduled_operations_example = compute_plan-scheduled_operations matmul tuned

apply_schedule-eq-ok_example : apply_schedule matmul tuned ≡ ok lowered
apply_schedule-eq-ok_example = apply_schedule-eq-ok matmul tuned

analyze_loop_ir-Reached_example :
    (analyze_loop_ir (specialize lowered wide_matmul)).0
    ≡ compute_plan
        (specialize lowered wide_matmul).problem
        (specialize lowered wide_matmul).operations
analyze_loop_ir-Reached_example = analyze_loop_ir-Reached (specialize lowered wide_matmul) (
    specialized lowered wide_matmul
      (built matmul tuned lowered (apply_schedule-eq-ok matmul tuned)))

loop_tiling-plan_example :
    plan_after (loop_tiling 8 0 4) matmul tuned
    ≡ ok (record (effective_plan matmul tuned) {
      bm = pos (max 1 8);
      bn = pos (max 1 0);
      bk = pos (max 1 4);
      mc = pos (max 1 8);
      nc = pos (max 1 0);
      kc = pos (max 1 4);
      tiled = ltb (max 1 8) matmul.m || ltb (max 1 0) matmul.n || ltb (max 1 4) matmul.k;
    })
loop_tiling-plan_example = loop_tiling-plan matmul tuned 8 0 4

fusion-plan_example : plan_after fusion matmul tuned ≡ ok (fused_plan matmul tuned)
fusion-plan_example = fusion-plan matmul tuned

vectorize-plan_example : plan_after (vectorize 4) matmul tuned ≡ ok (vectorized_plan matmul tuned 4)
vectorize-plan_example = vectorize-plan matmul tuned 4

loop_interchange-plan_example :
    plan_after loop_interchange matmul tuned ≡ ok (interchanged_plan matmul tuned)
loop_interchange-plan_example = loop_interchange-plan matmul tuned

-- A loop with step -1.
abbrev tiny_body : LoopBody
tiny_body =
    cons
      (operation for_loop (record default_fields { step = negsuc 0 })
        (cons (leaf fma default_fields) nil))
      (cons (leaf scalar_store default_fields) nil)

verify_ops_iff_example :
    (verify_ops tiny_body ≡ ok tt)
    ↔ (occurs is_stuck_loop tiny_body ≡ false)
      × (occurs is_fma_op tiny_body ≡ true)
      × (occurs is_store_op tiny_body ≡ true)
verify_ops_iff_example = verify_ops_iff tiny_body

-- An epilogue with a body of its own.
abbrev looped_epilogue : LoopOperation
looped_epilogue = operation for_loop default_fields (cons (leaf relu default_fields) nil)

insert_epilogue_before_stores-expand_example :
    ((store_count (levels 0 lowered.operations) ≡ 0)
      × (insert_epilogue_before_stores lowered looped_epilogue
          ≡ throw "LoopIR epilogue requires a store"))
    ⊎ ((0 < store_count (levels 0 lowered.operations))
        × ((ops : LoopBody) × (insert_epilogue_before_stores lowered looped_epilogue
              ≡ ok (record lowered { operations = ops; execution_plan = none }))
            × ((other : LoopBody)
                → (other ≡ ops)
                  ↔ (levels 0 other ≡ expand looped_epilogue (levels 0 lowered.operations)))))
insert_epilogue_before_stores-expand_example =
    insert_epilogue_before_stores-expand looped_epilogue lowered

replay-from_schedule_example :
    replay (from_schedule tuned) default_schedule ≡ rebuilt tuned default_schedule
replay-from_schedule_example = replay-from_schedule tuned default_schedule

apply-from_schedule_example :
    apply (from_schedule tuned) matmul default_schedule ≡ apply_schedule matmul tuned
apply-from_schedule_example =
    apply-from_schedule tuned matmul
      (record { ordered = refl; is_tiled = refl; is_fused = refl; pinned = refl })

abbrev row : GraphTensorType
row = tensor (fixed 8 ∷ []) f32

-- One input and the GELU of it, added to itself by no one.
abbrev gelu_graph : TensorGraph
gelu_graph = record {
  values =
      record (new_value "x" row 0 false) { users = 1 ∷ [] } ∷ new_value "y.result" row 1 false ∷ [];
  operations =
      new_operation (input_kind false) "x" [] (0 ∷ [])
      ∷ new_operation gelu "y" (0 ∷ []) (1 ∷ [])
      ∷ [];
  return_value = none;
}

gelu_graph-Built : Built gelu_graph
unfolding add_input add_operation use_values use_value
gelu_graph-Built =
    with_operation (add_input empty_graph "x" row false).0 gelu "y" (0 ∷ []) row gelu_graph 1 refl
      (with_input empty_graph "x" row false start)

Built-IsChained_example : IsChained gelu_graph
Built-IsChained_example = Built-IsChained gelu_graph-Built

-- A matrix product with itself and the GELU of it.
abbrev fused_graph : TensorGraph
fused_graph = record {
  values =
      record (new_value "x" row 0 false) { users = 1 ∷ 1 ∷ [] }
      ∷ record (new_value "m.result" row 1 false) { users = 2 ∷ [] }
      ∷ new_value "y.result" row 2 false
      ∷ [];
  operations =
      new_operation (input_kind false) "x" [] (0 ∷ [])
      ∷ new_operation mat_mul "m" (0 ∷ 0 ∷ []) (1 ∷ [])
      ∷ new_operation gelu "y" (1 ∷ []) (2 ∷ [])
      ∷ [];
  return_value = none;
}

abbrev product_graph : TensorGraph
product_graph = record {
  values =
      record (new_value "x" row 0 false) { users = 1 ∷ 1 ∷ [] }
      ∷ new_value "m.result" row 1 false
      ∷ [];
  operations =
      new_operation (input_kind false) "x" [] (0 ∷ [])
      ∷ new_operation mat_mul "m" (0 ∷ 0 ∷ []) (1 ∷ [])
      ∷ [];
  return_value = none;
}

fused_graph-Built : Built fused_graph
unfolding add_input add_operation use_values use_value
fused_graph-Built = with_operation product_graph gelu "y" (1 ∷ []) row fused_graph 2 refl (
    with_operation (add_input empty_graph "x" row false).0 mat_mul "m" (0 ∷ 0 ∷ []) row
      product_graph 1 refl (with_input empty_graph "x" row false start))

fused_graph-dispatched : dispatch_operations fused_graph 1 ≡ ok (1 ∷ 2 ∷ [])
unfolding dispatch_operations grow legal legal_outputs
fused_graph-dispatched = refl

dispatch_operations-IsFused_example :
    (rest : List ℕ) × (1 ∷ 2 ∷ [] ≡ 1 ∷ rest) × IsFused fused_graph 1 rest
dispatch_operations-IsFused_example =
    dispatch_operations-IsFused fused_graph 1 (1 ∷ 2 ∷ []) fused_graph-Built fused_graph-dispatched

-- The second input is out of range.
add_operation-returns_example :
    (length (add_operation gelu_graph mat_mul "z" (2 ∷ 5 ∷ []) row).graph.values
      ≡ length gelu_graph.values + 1)
    × ((InRange (length gelu_graph.values + 1) (2 ∷ 5 ∷ [])
          × ((add_operation gelu_graph mat_mul "z" (2 ∷ 5 ∷ []) row).result
              ≡ ok (length gelu_graph.values))
          × ((add_operation gelu_graph mat_mul "z" (2 ∷ 5 ∷ []) row).graph.operations
              ≡ gelu_graph.operations
                ++ new_operation mat_mul "z" (2 ∷ 5 ∷ []) (length gelu_graph.values ∷ []) ∷ []))
        ⊎ ((¬ InRange (length gelu_graph.values + 1) (2 ∷ 5 ∷ []))
            × ((add_operation gelu_graph mat_mul "z" (2 ∷ 5 ∷ []) row).result ≡ throw out_of_range)
            × ((add_operation gelu_graph mat_mul "z" (2 ∷ 5 ∷ []) row).graph.operations
                ≡ gelu_graph.operations)))
add_operation-returns_example = add_operation-returns gelu_graph mat_mul "z" (2 ∷ 5 ∷ []) row
