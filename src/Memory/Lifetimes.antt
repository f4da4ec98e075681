-- ===== src/Memory/Lifetimes.antt =====
-- The first part of `GraphBufferizer::run` (src/graph_compiler.cpp): which values need a buffer, and the
-- dispatches between which a buffer is live; and `run` as a whole.
pub mod Apart
use sched_forge.Base.{
  ℕ, suc, ◌+◌, min, max, Bool, true, false, not, ◌&&◌, ◌||◌, Option, none, some, List, [], ◌∷◌,
  ◌++◌, length, get_elem?, any, ◌==◌, if◌then◌else◌,
}
use sched_forge.Base.Result.{Result, ok, throw, ◌>>=◌}
use sched_forge.Graph.Types.{GraphOpKind, input, constant, GraphValue, TensorGraph, static_bytes}
use sched_forge.Graph.Build.{out_of_range}
use sched_forge.Memory.Slots.{GraphBufferPlan, Workspace, assign_all}

-- The fields of `Dispatch` that the bufferizer reads.
pub record Dispatch : Type 0 where
  pub inputs : List ℕ
  pub outputs : List ℕ

-- `BufferizationResult`, with the temporaries beside it.
pub record Lifetimes : Type 0 where
  pub buffers : List GraphBufferPlan
  pub temporaries : List GraphBufferPlan
  pub naive_bytes : ℕ

abbrev pub contains : ℕ → List ℕ → Bool
contains v values = any (λ x. x == v) values

abbrev pub touches : ℕ → Dispatch → Bool
touches v d = contains v d.inputs || contains v d.outputs

-- Whether the value is the returned one.
abbrev pub is_returned : TensorGraph → ℕ → Bool
is_returned g v = elim g.return_value [ none ↦ false | some r ↦ v == r ]

-- `materialized[v]`, as the loop over the dispatches and the return value leave it.
abbrev pub is_materialized : TensorGraph → List Dispatch → ℕ → Bool
is_materialized g dispatches v = any (touches v) dispatches || is_returned g v

-- The loop that computes `first` and `last`. `last` starts at -1 in the source; as only `max(0, last)`
-- is read, it starts at 0 here.
unfoldable pub uses : List Dispatch → ℕ → ℕ → ℕ → ℕ → ℕ × ℕ
uses [] v index first last = (first, last)
uses (d ∷ dispatches) v index first last =
    uses dispatches v (suc index) (if touches v d then min first index else first)
      (if touches v d then max last index else last)

-- The kind of the operation that makes the value, `none` without one.
unfoldable pub producer_kind : TensorGraph → GraphValue → Result (Option GraphOpKind)
producer_kind g value = elim value.producer [
  | none ↦ ok none
  | some o ↦ elim (get_elem? g.operations o) [
    | none ↦ throw out_of_range
    | some operation ↦ ok (some operation.kind)
  ]
]

-- `produced_tensor`.
abbrev pub is_produced : Option GraphOpKind → Bool
is_produced none = false
is_produced (some input) = false
is_produced (some constant) = false
is_produced (some _) = true

-- `value.producer < 0`, or the producer is an input.
abbrev pub is_outside : Option GraphOpKind → Bool
is_outside none = true
is_outside (some input) = true
is_outside (some _) = false

abbrev pub plan_of : List Dispatch → ℕ → GraphValue → ℕ → Bool → GraphBufferPlan
plan_of dispatches v value bytes external =
    let (first, last) = uses dispatches v 0 (length dispatches) 0 in
    record {
      name = value.name;
      bytes = bytes;
      offset = 0;
      alignment = 64;
      first_dispatch = first;
      last_dispatch = last;
      value = v;
      external = external;
      layout = value.type.layout;
    }

-- `result.buffers.push_back(plan); if (!external) temporaries.push_back(plan);`
unfoldable pub push_plan : GraphBufferPlan → Lifetimes → Lifetimes
push_plan plan r = record r {
  buffers = r.buffers ++ plan ∷ [];
  temporaries = if plan.external then r.temporaries else r.temporaries ++ plan ∷ [];
}

abbrev pub count_naive : Bool → ℕ → Lifetimes → Lifetimes
count_naive counted bytes r = record r {
  naive_bytes = if counted then r.naive_bytes + bytes else r.naive_bytes;
}

-- The body of the loop over the values, once the value has bytes and its producer is read.
unfoldable pub record_value :
    TensorGraph → List Dispatch → ℕ → GraphValue → ℕ → Option GraphOpKind → Lifetimes → Lifetimes
record_value g dispatches v value bytes kind r =
    let r' = count_naive (is_produced kind && not (is_returned g v)) bytes r in
    let external = value.constant || is_outside kind || is_returned g v in
    if not (is_materialized g dispatches v) && is_produced kind
    then r'
    else push_plan (plan_of dispatches v value bytes external) r'

-- `staticBytes().value_or(0)`.
abbrev pub value_bytes : GraphValue → ℕ
value_bytes value = elim (static_bytes value.type) [ none ↦ 0 | some bytes ↦ bytes ]

unfoldable pub lifetimes :
    TensorGraph → List Dispatch → ℕ → List GraphValue → Lifetimes → Result Lifetimes
lifetimes g dispatches v [] r = ok r
lifetimes g dispatches v (value ∷ values) r =
    let bytes = value_bytes value in
    if bytes == 0
    then lifetimes g dispatches (suc v) values r
    else (producer_kind g value >>= λ kind.
        lifetimes g dispatches (suc v) values (record_value g dispatches v value bytes kind r))

abbrev pub no_lifetimes : Lifetimes
no_lifetimes = record { buffers = []; temporaries = []; naive_bytes = 0 }

-- The workspace that `GraphBufferizer::run` lays out. The offsets stand in its temporaries; that `run`
-- also copies each into the entry of `buffers` with the same value is left out.
unfoldable pub bufferize : TensorGraph → List Dispatch → Result Workspace
bufferize g dispatches =
    lifetimes g dispatches 0 g.values no_lifetimes >>= λ r. ok (assign_all r.temporaries)
