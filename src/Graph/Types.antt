-- ===== src/Graph/Types.antt =====
-- Values and operations of the tensor graph. An index is a natural number; the -1 of `producer` and of
-- `return_value_` is `none`. A static extent is not negative. A float that is only copied, the
-- quantization scale, is its bit pattern.
use Prim.Native.String.{String}
use text.Mathlib.Text.{◌==◌ as str_eq}
use sched_forge.Base.{
  ℕ, ◌*◌, Bool, true, Option, none, some, List, [], ◌∷◌, ◌==◌, to_string, if◌then◌else◌,
}

pub data GraphOpKind : Type 0 where
  input constant mat_mul add multiply maximum gelu broadcast reshape transpose reduce : GraphOpKind
  exp rsqrt convert rms_norm rope silu concat split fused_qkv_projection : GraphOpKind
  fused_gate_up_projection softmax mask attention_sdpa top_k moe_histogram : GraphOpKind
  moe_prefix_sum moe_dispatch moe_grouped_mat_mul swi_glu moe_combine return : GraphOpKind

pub data Dimension : Type 0 where
  fixed : ℕ → Dimension
  dynamic : String → Dimension
  symbolic : String → Dimension

pub data DataType : Type 0 where
  f32 bf16 i8 i32 : DataType

pub data TensorLayoutKind : Type 0 where
  row_major column_major blocked packed_a packed_b : TensorLayoutKind

pub record TensorLayout : Type 0 where
  pub kind : TensorLayoutKind
  pub block_m : ℕ
  pub block_n : ℕ

abbrev pub default_layout : TensorLayout
default_layout = record { kind = row_major; block_m = 1; block_n = 1 }

pub record GraphTensorType : Type 0 where
  pub shape : List Dimension
  pub dtype : DataType
  pub layout : TensorLayout
  pub quant_scale : Option ℕ
  pub quant_zero_point : ℕ
  pub quant_axis : Option ℕ

-- `{shape, dtype, {}, std::nullopt, 0, -1}`.
abbrev pub tensor : List Dimension → DataType → GraphTensorType
tensor shape dtype = record {
  shape = shape;
  dtype = dtype;
  layout = default_layout;
  quant_scale = none;
  quant_zero_point = 0;
  quant_axis = none;
}

pub record GraphValue : Type 0 where
  pub name : String
  pub type : GraphTensorType
  pub producer : Option ℕ
  pub users : List ℕ
  pub constant : Bool

pub record GraphOperation : Type 0 where
  pub kind : GraphOpKind
  pub name : String
  pub inputs : List ℕ
  pub outputs : List ℕ
  pub attributes : List (String × String)

pub record TensorGraph : Type 0 where
  pub values : List GraphValue
  pub operations : List GraphOperation
  pub return_value : Option ℕ

abbrev pub empty_graph : TensorGraph
empty_graph = record { values = []; operations = []; return_value = none }

unfoldable pub dimension_str : Dimension → String
dimension_str (fixed value) = to_string value
dimension_str (dynamic symbol) = if str_eq symbol "" then "?" else symbol
dimension_str (symbolic symbol) = if str_eq symbol "" then "?" else symbol

unfoldable pub same_dimension : Dimension → Dimension → Bool
unfolding dimension_str
same_dimension (fixed a) (fixed b) = a == b
same_dimension (dynamic a) rhs = true
same_dimension (fixed a) (dynamic b) = true
same_dimension (symbolic a) (dynamic b) = true
same_dimension lhs rhs = str_eq (dimension_str lhs) (dimension_str rhs)

abbrev pub element_bytes : DataType → ℕ
element_bytes i8 = 1
element_bytes bf16 = 2
element_bytes f32 = 4
element_bytes i32 = 4

-- The loop of `GraphTensorType::staticBytes`, over the dimensions left.
unfoldable pub static_elements : List Dimension → ℕ → Option ℕ
static_elements [] elements = some elements
static_elements (fixed n ∷ shape) elements = static_elements shape (elements * n)
static_elements (_ ∷ shape) elements = none

unfoldable pub static_bytes : GraphTensorType → Option ℕ
unfolding static_elements
static_bytes t = elim (static_elements t.shape 1) [
  | none ↦ none
  | some elements ↦ some (elements * element_bytes t.dtype)
]
