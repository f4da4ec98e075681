-- ===== src/Examples/Buffers.antt =====
-- The bufferizer on two matrix products in a row.
use sched_forge.Base.{false, some, List, [], ◌∷◌}
use sched_forge.Graph.Types.{
  mat_mul, input, fixed, f32, default_layout, GraphTensorType, tensor, TensorGraph,
}
use sched_forge.Graph.Build.{new_value, new_operation}
use sched_forge.Memory.Slots.{GraphBufferPlan, Workspace}
use sched_forge.Memory.Lifetimes.{Dispatch}

abbrev row : GraphTensorType
row = tensor (fixed 8 ∷ []) f32

abbrev products : TensorGraph
products = record {
  values =
      new_value "x" row 0 false
      ∷ new_value "m.result" row 1 false
      ∷ new_value "n.result" row 2 false
      ∷ [];
  operations =
      new_operation input "x" [] (0 ∷ [])
      ∷ new_operation mat_mul "m" (0 ∷ 0 ∷ []) (1 ∷ [])
      ∷ new_operation mat_mul "n" (1 ∷ 1 ∷ []) (2 ∷ [])
      ∷ [];
  return_value = some 2;
}

abbrev dispatches : List Dispatch
dispatches =
    record { inputs = 0 ∷ []; outputs = 1 ∷ [] } ∷ record { inputs = 1 ∷ []; outputs = 2 ∷ [] } ∷ []

abbrev middle : GraphBufferPlan
middle = record {
  name = "m.result";
  bytes = 32;
  offset = 0;
  alignment = 64;
  first_dispatch = 0;
  last_dispatch = 1;
  value = 1;
  external = false;
  layout = default_layout;
}

abbrev laid_out : Workspace
laid_out = record {
  slots = record { offset = 0; bytes = 32; last = 1 } ∷ [];
  workspace_bytes = 32;
  temporaries = middle ∷ [];
}
