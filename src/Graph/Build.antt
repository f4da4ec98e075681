-- ===== src/Graph/Build.antt =====
-- `TensorGraph::addInput`, `addConstant`, `addOperation` and `setReturn`. An out-of-range index is the
-- exception of `std::vector::at`, after which the graph keeps what the call has done to it so far.
pub mod Chains
pub mod Returns
use Prim.Native.String.{String, ◌++◌ as str_append}
use sched_forge.Base.{
  ℕ, Bool, true, false, Option, none, some, List, [], ◌∷◌, ◌++◌, length, get_elem?, update,
}
use sched_forge.Base.Result.{Result, ok, throw}
use sched_forge.Graph.Types.{
  GraphOpKind, input, constant, return, GraphTensorType, GraphValue, GraphOperation, TensorGraph,
}

abbrev pub out_of_range : String
out_of_range = "vector::at"

-- The brace initialisers of `GraphValue` and `GraphOperation`.
abbrev pub new_value : String → GraphTensorType → ℕ → Bool → GraphValue
new_value name type producer is_constant = record {
  name = name;
  type = type;
  producer = some producer;
  users = [];
  constant = is_constant;
}

abbrev pub new_operation : GraphOpKind → String → List ℕ → List ℕ → GraphOperation
new_operation kind name inputs outputs = record {
  kind = kind;
  name = name;
  inputs = inputs;
  outputs = outputs;
  attributes = [];
}

abbrev pub input_kind : Bool → GraphOpKind
input_kind true = constant
input_kind false = input

unfoldable pub add_input : TensorGraph → String → GraphTensorType → Bool → TensorGraph × ℕ
add_input g name type is_constant =
    let value_index = length g.values in
    let operation_index = length g.operations in
    (
      record g {
        values = g.values ++ new_value name type operation_index is_constant ∷ [];
        operations =
            g.operations ++ new_operation (input_kind is_constant) name [] (value_index ∷ []) ∷ [];
      },
      value_index,
    )

-- `operations_.back().attributes[key] = text`.
abbrev pub set_last_attribute : String → String → List GraphOperation → List GraphOperation
set_last_attribute key text [] = []
set_last_attribute key text (o ∷ []) = record o { attributes = (key, text) ∷ o.attributes } ∷ []
set_last_attribute key text (o ∷ p ∷ os) = o ∷ set_last_attribute key text (p ∷ os)

unfoldable pub add_constant : TensorGraph → String → GraphTensorType → String → TensorGraph × ℕ
unfolding add_input
add_constant g name type literal =
    let (g', value) = add_input g name type true in
    (record g' { operations = set_last_attribute "value" literal g'.operations }, value)

abbrev pub add_user : ℕ → GraphValue → GraphValue
add_user o v = record v { users = v.users ++ o ∷ [] }

-- `values_.at(input).users.push_back(operation_index)` for one value, and for each input: the values as the
-- loop leaves them, and the exception that ended it.
unfoldable pub use_value : ℕ → List GraphValue → ℕ → List GraphValue × Option String
use_value o values v = elim (get_elem? values v) [
  | none ↦ (values, some out_of_range)
  | some _ ↦ (update values v (add_user o), none)
]

unfoldable pub use_values : ℕ → List GraphValue → List ℕ → List GraphValue × Option String
unfolding use_value
use_values o values [] = (values, none)
use_values o values (v ∷ vs) =
    let (values', error) = use_value o values v in
    elim error [ none ↦ use_values o values' vs | some e ↦ (values', some e) ]

-- A call that returns or throws leaves the graph behind either way.
pub record Outcome (A : Type 0) : Type 0 where
  pub graph : TensorGraph
  pub result : Result A

abbrev pub returns : {A : Type 0} → TensorGraph → A → Outcome A
returns g a = record { graph = g; result = ok a }

-- The operation is pushed after its operands have taken it among their users, or not at all.
abbrev pub push_used :
    {A : Type 0} → TensorGraph → GraphOperation → A → List GraphValue × Option String → Outcome A
push_used g o a (values, none) =
    returns (record g { values = values; operations = g.operations ++ o ∷ [] }) a
push_used g o a (values, some e) = record { graph = record g { values = values }; result = throw e }

unfoldable pub add_operation :
    TensorGraph → GraphOpKind → String → List ℕ → GraphTensorType → Outcome ℕ
add_operation g kind name inputs output_type =
    let operation_index = length g.operations in
    let value_index = length g.values in
    let result = new_value (str_append name ".result") output_type operation_index false in
    push_used g (new_operation kind name inputs (value_index ∷ [])) value_index
      (use_values operation_index (g.values ++ result ∷ []) inputs)

-- The return value is set before its users are, whether that throws or not.
unfoldable pub set_return : TensorGraph → ℕ → Outcome (Unit {0})
set_return g value =
    push_used (record g { return_value = some value })
      (new_operation return "return" (value ∷ []) []) tt
      (use_value (length g.operations) g.values value)
