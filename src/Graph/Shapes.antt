-- ===== src/Graph/Shapes.antt =====
-- `ShapeInferencePass::run` of src/graph_compiler.cpp. The code indexes `inputs` and the values an
-- operation reads; an index out of range is the exception of `std::vector::at`, also for `inputs[0]`,
-- where the code has no check. An extent that another is divided by is positive.
pub mod Agreement
pub mod Stable
use Prim.Native.String.{String}
use sched_forge.Base.{
  ℕ, zero, suc, ◌%◌, Bool, true, false, not, ◌&&◌, ◌||◌, ◌==◌, List, [], ◌∷◌, ◌++◌, join, update,
  if◌then◌else◌,
}
use sched_forge.Base.Result.{Result, ok, throw, throw_if, ◌>>=◌, ◌>>◌}
use sched_forge.Graph.Types.{
  GraphOpKind, mat_mul, add, multiply, maximum, rms_norm, rope, silu, fused_qkv_projection,
  fused_gate_up_projection, concat, split, attention_sdpa, gelu, exp, rsqrt, convert, broadcast,
  softmax, mask, swi_glu, moe_combine, Dimension, fixed, dimension_str, same_dimension, DataType,
  GraphTensorType, tensor, GraphValue, GraphOperation, TensorGraph,
}
use sched_forge.Graph.Fusion.{at}

pub record ShapeConstraint : Type 0 where
  pub expression : String
  pub runtime_guard : Bool

abbrev pub is_static : Dimension → Bool
is_static (fixed n) = true
is_static _ = false

-- `lhs == rhs`, checked at run time unless both are static.
abbrev pub equal_constraint : Dimension → Dimension → ShapeConstraint
equal_constraint lhs rhs = record {
  expression = join (dimension_str lhs ∷ " == " ∷ dimension_str rhs ∷ []);
  runtime_guard = not (is_static lhs) || not (is_static rhs);
}

abbrev pub divides_constraint : Dimension → Dimension → ShapeConstraint
divides_constraint lhs rhs = record {
  expression = join (dimension_str lhs ∷ " % " ∷ dimension_str rhs ∷ " == 0" ∷ []);
  runtime_guard = not (is_static lhs) || not (is_static rhs);
}

-- The first loop: every dimension that is not static is positive.
unfoldable pub positive_dims : List Dimension → List ShapeConstraint
unfolding dimension_str join
positive_dims [] = []
positive_dims (d ∷ shape) =
    let rest = positive_dims shape in
    if is_static d
    then rest
    else record { expression = join (dimension_str d ∷ " > 0" ∷ []); runtime_guard = true } ∷ rest

unfoldable pub positive_values : List GraphValue → List ShapeConstraint
unfolding positive_dims
positive_values [] = []
positive_values (v ∷ values) = positive_dims v.type.shape ++ positive_values values

-- The type of an output with the constraints on its inputs.
pub record Inferred : Type 0 where
  pub type : GraphTensorType
  pub constraints : List ShapeConstraint

-- `lhs.shape[1].value % rhs.shape[1].value != 0`, for static heads only.
abbrev pub heads_mismatch : Dimension → Dimension → Bool
heads_mismatch (fixed lhs) (fixed rhs) = not (lhs % rhs == 0)
heads_mismatch _ _ = false

unfoldable pub infer_matmul : List Dimension → List Dimension → DataType → Result Inferred
unfolding same_dimension dimension_str join
infer_matmul (m ∷ k ∷ []) (k' ∷ n ∷ []) dtype =
    throw_if (not (same_dimension k k')) "matmul reduction dimensions do not match"
    >> ok (record { type = tensor (m ∷ n ∷ []) dtype; constraints = equal_constraint k k' ∷ [] })
infer_matmul (b ∷ h ∷ m ∷ k ∷ []) (b' ∷ h' ∷ k' ∷ n ∷ []) dtype =
    throw_if (not (same_dimension b b') || not (same_dimension k k'))
      "batched matmul dimensions do not match"
    >> throw_if (heads_mismatch h h') "batched matmul head dimensions do not broadcast"
    >> ok (record {
      type = tensor (b ∷ h ∷ m ∷ n ∷ []) dtype;
      constraints = equal_constraint k k' ∷ divides_constraint h h' ∷ [];
    })
infer_matmul _ _ dtype = throw "matmul requires matching rank-2 or rank-4 tensors"

unfoldable pub infer_projection : List Dimension → List Dimension → DataType → Result Inferred
unfolding same_dimension
infer_projection (m ∷ k ∷ []) (k' ∷ n ∷ []) dtype =
    throw_if (not (same_dimension k k')) "fused projection requires compatible rank-2 tensors"
    >> ok (record { type = tensor (m ∷ n ∷ []) dtype; constraints = [] })
infer_projection _ _ dtype = throw "fused projection requires compatible rank-2 tensors"

unfoldable pub infer_sdpa :
    List Dimension → List Dimension → List Dimension → DataType → Result Inferred
unfolding same_dimension dimension_str join
infer_sdpa (qb ∷ qh ∷ qs ∷ qd ∷ []) (kb ∷ kh ∷ ks ∷ kd ∷ []) (vb ∷ vh ∷ vs ∷ vd ∷ []) dtype =
    throw_if
      (not (same_dimension qb kb)
        || not (same_dimension kb vb)
        || not (same_dimension qd kd)
        || not (same_dimension ks vs))
      "attention.sdpa Q/K/V dimensions do not match"
    >> ok (record {
      type = tensor (qb ∷ qh ∷ qs ∷ vd ∷ []) dtype;
      constraints = divides_constraint qh kh ∷ [];
    })
infer_sdpa _ _ _ dtype = throw "attention.sdpa requires rank-4 Q/K/V tensors"

-- The branches of the loop over the operations.
pub data Rule : Type 0 where
  product widest same projection first_if_empty joined_if_empty attention untouched : Rule

abbrev pub rule_of : GraphOpKind → Rule
rule_of mat_mul = product
rule_of add = widest
rule_of multiply = widest
rule_of maximum = widest
rule_of rms_norm = same
rule_of rope = same
rule_of silu = same
rule_of fused_qkv_projection = projection
rule_of fused_gate_up_projection = projection
rule_of concat = joined_if_empty
rule_of split = joined_if_empty
rule_of attention_sdpa = attention
rule_of gelu = first_if_empty
rule_of exp = first_if_empty
rule_of rsqrt = first_if_empty
rule_of convert = first_if_empty
rule_of broadcast = first_if_empty
rule_of softmax = first_if_empty
rule_of mask = first_if_empty
rule_of swi_glu = first_if_empty
rule_of moe_combine = first_if_empty
rule_of _ = untouched

-- `graph.values().at(operation.inputs[position]).type`.
unfoldable pub input_type : List GraphValue → List ℕ → ℕ → Result GraphTensorType
input_type values inputs position =
    at inputs position >>= (λ (v : ℕ). at values v) >>= (λ (value : GraphValue). ok value.type)

-- `lhs.shape.size() >= rhs.shape.size()`.
abbrev pub at_least_as_long : List Dimension → List Dimension → Bool
at_least_as_long _ [] = true
at_least_as_long [] (_ ∷ _) = false
at_least_as_long (_ ∷ xs) (_ ∷ ys) = at_least_as_long xs ys

-- `if (output.shape.empty()) output = input`.
unfoldable pub infer_if_empty :
    List GraphValue → List ℕ → GraphTensorType → List Dimension → Result Inferred
unfolding input_type
infer_if_empty values inputs output [] =
    input_type values inputs 0
    >>= (λ (t : GraphTensorType). ok (record { type = t; constraints = [] }))
infer_if_empty values inputs output (_ ∷ _) = ok (record { type = output; constraints = [] })

abbrev pub is_empty : List ℕ → Bool
is_empty [] = true
is_empty (_ ∷ _) = false

-- The new type of an operation's output, which has the type `output` so far.
unfoldable pub infer : Rule → List GraphValue → List ℕ → GraphTensorType → Result Inferred
unfolding input_type infer_matmul infer_projection infer_sdpa infer_if_empty
infer product values inputs output = input_type values inputs 0 >>= (λ (lhs : GraphTensorType).
    input_type values inputs 1
    >>= (λ (rhs : GraphTensorType). infer_matmul lhs.shape rhs.shape lhs.dtype))
infer widest values inputs output = input_type values inputs 0 >>= (λ (lhs : GraphTensorType).
    input_type values inputs 1 >>= (λ (rhs : GraphTensorType). ok (record {
      type = if at_least_as_long lhs.shape rhs.shape then lhs else rhs;
      constraints = [];
    })))
infer same values inputs output =
    input_type values inputs 0
    >>= (λ (t : GraphTensorType). ok (record { type = t; constraints = [] }))
infer projection values inputs output = input_type values inputs 0 >>= (λ (lhs : GraphTensorType).
    input_type values inputs 1
    >>= (λ (rhs : GraphTensorType). infer_projection lhs.shape rhs.shape lhs.dtype))
infer joined_if_empty values inputs output =
    throw_if (is_empty inputs) "concat/split requires input"
    >> infer_if_empty values inputs output output.shape
infer attention values inputs output = input_type values inputs 0 >>= (λ (query : GraphTensorType).
    input_type values inputs 1 >>= (λ (key : GraphTensorType).
      input_type values inputs 2
      >>= (λ (value : GraphTensorType). infer_sdpa query.shape key.shape value.shape query.dtype)))
infer first_if_empty values inputs output = infer_if_empty values inputs output output.shape
infer untouched values inputs output = ok (record { type = output; constraints = [] })

abbrev pub set_type : GraphTensorType → GraphValue → GraphValue
set_type t v = record v { type = t }

-- The state of the second loop.
pub record Progress : Type 0 where
  pub values : List GraphValue
  pub constraints : List ShapeConstraint

-- One operation of the second loop; one without an output is passed over.
unfoldable pub infer_step : Progress → GraphOpKind → List ℕ → List ℕ → Result Progress
unfolding infer
infer_step p kind inputs [] = ok p
infer_step p kind inputs (output ∷ _) = at p.values output >>= (λ (value : GraphValue).
    infer (rule_of kind) p.values inputs value.type >>= (λ (found : Inferred). ok (record {
      values = update p.values output (set_type found.type);
      constraints = p.constraints ++ found.constraints;
    })))

unfoldable pub infer_steps : Progress → List GraphOperation → Result Progress
unfolding infer_step
infer_steps p [] = ok p
infer_steps p (o ∷ os) =
    infer_step p o.kind o.inputs o.outputs >>= (λ (next : Progress). infer_steps next os)

-- The graph with the types found, and the constraints.
unfoldable pub run : TensorGraph → Result (TensorGraph × List ShapeConstraint)
unfolding infer_steps positive_values
run g =
    infer_steps (record { values = g.values; constraints = positive_values g.values }) g.operations
    >>= (λ (p : Progress). ok (record g { values = p.values }, p.constraints))
