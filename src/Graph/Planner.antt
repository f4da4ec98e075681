-- ===== src/Graph/Planner.antt =====
-- `FusionPlanner::run` of src/graph_compiler.cpp: its dispatches but for their estimated cost, which is
-- floating-point.
pub mod Cover
pub mod Partition
use Prim.Native.String.{String, ◌++◌ as str_append}
use text.Mathlib.Text.{◌==◌ as str_eq}
use sched_forge.Base.{
  ℕ, zero, suc, ◌+◌, Bool, true, false, not, ◌&&◌, ◌||◌, ◌==◌, if◌then◌else◌, Option, none, some,
  List, [], ◌∷◌, ◌++◌, length, get_elem?, set, any, to_string,
}
use sched_forge.Base.Result.{Result, ok, throw, ◌>>=◌}
use sched_forge.Graph.Types.{
  GraphOpKind, mat_mul, add, gelu, Dimension, GraphValue, GraphOperation, TensorGraph,
}
use sched_forge.Graph.Fusion.{at, dispatch_operations}

pub record PlannedDispatch : Type 0 where
  pub name : String
  pub operations : List ℕ
  pub inputs : List ℕ
  pub outputs : List ℕ
  pub epilogue : String

abbrev is_vector : List Dimension → Bool
is_vector (d ∷ []) = true
is_vector _ = false

-- Whether one of the operands has rank 1, up to the first that has.
unfoldable pub has_vector : List GraphValue → List ℕ → Result Bool
has_vector values [] = ok false
has_vector values (v ∷ vs) =
    let rest = has_vector values vs in
    at values v >>= (λ (x : GraphValue). if is_vector x.type.shape then ok true else rest)

-- `epilogue += epilogue.empty() ? kind : "+" + kind`.
abbrev join_epilogue : String → String → String
join_epilogue epilogue kind =
    if str_eq epilogue "" then kind else str_append epilogue (str_append "+" kind)

unfoldable pub add_epilogue : TensorGraph → GraphOperation → GraphOpKind → String → Result String
unfolding has_vector
add_epilogue g o add epilogue =
    has_vector g.values o.inputs
    >>= (λ (bias : Bool). ok (join_epilogue epilogue (if bias then "bias" else "residual")))
add_epilogue g o gelu epilogue = ok (join_epilogue epilogue "gelu")
add_epilogue g o _ epilogue = ok epilogue

abbrev pub contains : ℕ → List ℕ → Bool
contains x = any (λ y. y == x)

-- A producer of -1 is in no dispatch.
abbrev pub made_in : List ℕ → Option ℕ → Bool
made_in operations none = false
made_in operations (some p) = contains p operations

-- The operands that come from outside, each once.
unfoldable pub add_inputs : TensorGraph → List ℕ → List ℕ → List ℕ → Result (List ℕ)
add_inputs g operations [] inputs = ok inputs
add_inputs g operations (v ∷ vs) inputs = at g.values v >>= (λ (x : GraphValue).
    add_inputs g operations vs (
      if not (made_in operations x.producer) && not (contains v inputs)
      then inputs ++ v ∷ []
      else inputs))

-- The loop over the operations of the dispatch.
unfoldable pub describe : TensorGraph → List ℕ → PlannedDispatch → Result PlannedDispatch
unfolding add_epilogue add_inputs
describe g [] d = ok d
describe g (index ∷ rest) d = at g.operations index >>= (λ (o : GraphOperation).
    add_epilogue g o o.kind d.epilogue >>= (λ (epilogue : String).
      add_inputs g d.operations o.inputs d.inputs >>= (λ (inputs : List ℕ).
        describe g rest (record d { epilogue = epilogue; inputs = inputs }))))

abbrev pub is_mat_mul : GraphOpKind → Bool
is_mat_mul mat_mul = true
is_mat_mul _ = false

unfoldable pub last_of : ℕ → List ℕ → ℕ
last_of x [] = x
last_of x (y ∷ ys) = last_of y ys

-- `consumed[...] = true` for the operations of a dispatch.
unfoldable pub mark : List ℕ → List Bool → List Bool
mark [] consumed = consumed
mark (o ∷ os) consumed = mark os (set consumed o true)

abbrev pub is_marked : List Bool → ℕ → Bool
is_marked consumed index = elim (get_elem? consumed index) [ none ↦ false | some b ↦ b ]

pub record Planned : Type 0 where
  pub dispatches : List PlannedDispatch
  pub consumed : List Bool

-- The dispatch that starts at `index`, with the outputs of its last operation.
unfoldable pub make_dispatch : TensorGraph → ℕ → String → List ℕ → Result PlannedDispatch
unfolding describe last_of
make_dispatch g index name operations =
    describe g operations
      (record { name = name; operations = operations; inputs = []; outputs = []; epilogue = "" })
    >>= (λ (d : PlannedDispatch).
        at g.operations (last_of index operations)
        >>= (λ (o : GraphOperation). ok (record d { outputs = o.outputs })))

-- One round of the outer loop.
unfoldable pub visit : TensorGraph → ℕ → GraphOpKind → Planned → Result Planned
unfolding make_dispatch mark to_string
visit g index kind p =
    if is_marked p.consumed index || not (is_mat_mul kind)
    then ok p
    else (dispatch_operations g index >>= (λ (operations : List ℕ).
        make_dispatch g index (str_append "dispatch_" (to_string (length p.dispatches))) operations
        >>= (λ (d : PlannedDispatch). ok (record {
          dispatches = p.dispatches ++ d ∷ [];
          consumed = mark operations p.consumed;
        }))))

unfoldable pub visit_all : TensorGraph → ℕ → List GraphOperation → Planned → Result Planned
unfolding visit
visit_all g index [] p = ok p
visit_all g index (o ∷ os) p =
    visit g index o.kind p >>= (λ (next : Planned). visit_all g (suc index) os next)

unfoldable pub unmarked : List GraphOperation → List Bool
unmarked [] = []
unmarked (o ∷ os) = false ∷ unmarked os

unfoldable pub run : TensorGraph → Result (List PlannedDispatch)
unfolding visit_all unmarked
run g =
    visit_all g 0 g.operations (record { dispatches = []; consumed = unmarked g.operations })
    >>= (λ (p : Planned). ok p.dispatches)
