-- ===== src/Graph/Fusion.antt =====
-- `FusionPlanner` (src/graph_compiler.cpp): which operations may join the dispatch of a matrix product,
-- and the loop of `run` that collects them.
pub mod Uses
use sched_forge.Base.{
  ℕ, zero, suc, Bool, true, false, ◌&&◌, Option, none, some, List, [], ◌∷◌, length, get_elem?, ltb,
  ◌==◌, if◌then◌else◌,
}
use sched_forge.Base.Result.{Result, ok, throw, ◌>>=◌}
use sched_forge.Graph.Types.{
  GraphOpKind, add, gelu, maximum, GraphValue, GraphOperation, TensorGraph,
}
use sched_forge.Graph.Build.{out_of_range}

-- `vector::at`.
abbrev pub at {ℓ} : {A : Type ℓ} → List A → ℕ → Result A
at xs i = elim (get_elem? xs i) [ none ↦ throw out_of_range | some x ↦ ok x ]

abbrev pub is_fusable : GraphOpKind → Bool
is_fusable add = true
is_fusable gelu = true
is_fusable maximum = true
is_fusable _ = false

-- `users.size() == 1 && users.front() == consumer`.
abbrev pub is_only_user : ℕ → List ℕ → Bool
is_only_user consumer (u ∷ []) = u == consumer
is_only_user consumer _ = false

-- The part of `legal` after the two operations are read.
unfoldable pub legal_outputs : TensorGraph → List ℕ → GraphOpKind → ℕ → Result Bool
legal_outputs g [] kind consumer = ok false
legal_outputs g (output ∷ _) kind consumer = do
  value ← at g.values output
  ok (is_only_user consumer value.users && is_fusable kind)

-- `FusionPlanner::legal`.
unfoldable pub legal : TensorGraph → ℕ → ℕ → Result Bool
legal g producer consumer = do
  producer_op ← at g.operations producer
  consumer_op ← at g.operations consumer
  legal_outputs g producer_op.outputs consumer_op.kind consumer

-- What a round adds in front of the rounds after it.
abbrev pub joined : ℕ → Result (List ℕ) → Bool → Result (List ℕ)
joined operation rest true = rest >>= λ operations. ok (operation ∷ operations)
joined operation rest false = ok []

-- The `while` loop of `run`: the operations that follow `current` into its dispatch. A round moves
-- on by one operation, so that as many rounds as there are operations are enough.
unfoldable pub grow : TensorGraph → ℕ → ℕ → Result (List ℕ)
grow g zero current = ok []
grow g (suc fuel) current =
    let rest = grow g fuel (suc current) in
    if ltb (suc current) (length g.operations)
    then (legal g current (suc current) >>= joined (suc current) rest)
    else ok []

-- `dispatch.operations` for the matrix product at `index`.
unfoldable pub dispatch_operations : TensorGraph → ℕ → Result (List ℕ)
dispatch_operations g index =
    grow g (length g.operations) index >>= λ operations. ok (index ∷ operations)
