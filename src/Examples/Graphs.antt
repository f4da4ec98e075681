-- ===== src/Examples/Graphs.antt =====
-- The graph passes on a matrix product with a bias.
use sched_forge.Base.{ℕ, ◌≡◌, ◌≤◌, count, true, refl, List, [], ◌∷◌, false, some, arith}
use sched_forge.Base.Result.{ok}
use sched_forge.Graph.Types.{mat_mul, add, input, fixed, f32, GraphTensorType, tensor, TensorGraph}
use sched_forge.Graph.Build.{new_value, new_operation}
use sched_forge.Graph.Shapes.{ShapeConstraint, equal_constraint, run}
use sched_forge.Graph.Shapes.Stable.{run-stable}
use sched_forge.Graph.Planner.{PlannedDispatch, run as plan}
use sched_forge.Graph.Planner.Cover.{is_product}
use sched_forge.Graph.Planner.Partition.{all_operations, run-covers}
use sched_forge.Graph.Fusion.{dispatch_operations, grow, legal, legal_outputs}

abbrev unknown : GraphTensorType
unknown = tensor [] f32

abbrev linear : GraphTensorType → GraphTensorType → TensorGraph
linear product sum = record {
  values =
      new_value "x" (tensor (fixed 4 ∷ fixed 8 ∷ []) f32) 0 false
      ∷ new_value "w" (tensor (fixed 8 ∷ fixed 2 ∷ []) f32) 1 false
      ∷ new_value "b" (tensor (fixed 2 ∷ []) f32) 2 false
      ∷ new_value "m.result" product 3 false
      ∷ new_value "s.result" sum 4 false
      ∷ [];
  operations =
      new_operation input "x" [] (0 ∷ [])
      ∷ new_operation input "w" [] (1 ∷ [])
      ∷ new_operation input "b" [] (2 ∷ [])
      ∷ new_operation mat_mul "m" (0 ∷ 1 ∷ []) (3 ∷ [])
      ∷ new_operation add "s" (3 ∷ 2 ∷ []) (4 ∷ [])
      ∷ [];
  return_value = some 4;
}

abbrev result : GraphTensorType
result = tensor (fixed 4 ∷ fixed 2 ∷ []) f32

run-stable_example :
    (ds : List ShapeConstraint) × (run (linear result result) ≡ ok (linear result result, ds))
unfolding run
run-stable_example =
    run-stable (linear unknown unknown) (linear result result)
      (equal_constraint (fixed 8) (fixed 8) ∷ []) (omega arith) refl

-- The same graph with its use lists, as the planner needs them.
abbrev used : TensorGraph
used = record {
  values =
      record (new_value "x" (tensor (fixed 4 ∷ fixed 8 ∷ []) f32) 0 false) { users = 3 ∷ [] }
      ∷ record (new_value "w" (tensor (fixed 8 ∷ fixed 2 ∷ []) f32) 1 false) { users = 3 ∷ [] }
      ∷ record (new_value "b" (tensor (fixed 2 ∷ []) f32) 2 false) { users = 4 ∷ [] }
      ∷ record (new_value "m.result" result 3 false) { users = 4 ∷ [] }
      ∷ new_value "s.result" result 4 false
      ∷ [];
  operations = (linear result result).operations;
  return_value = some 4;
}

abbrev fused : PlannedDispatch
fused = record {
  name = "dispatch_0";
  operations = 3 ∷ 4 ∷ [];
  inputs = 0 ∷ 1 ∷ 2 ∷ [];
  outputs = 4 ∷ [];
  epilogue = "bias";
}

run-covers_example :
    ((i : ℕ) → count i (all_operations (fused ∷ [])) ≤ 1)
    × ((i : ℕ) → is_product used i ≡ true → count i (all_operations (fused ∷ [])) ≡ 1)
unfolding plan dispatch_operations grow legal legal_outputs
run-covers_example = run-covers used (fused ∷ []) refl
