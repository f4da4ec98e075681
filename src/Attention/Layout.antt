-- ===== src/Attention/Layout.antt =====
-- `validate_config`, `validate_data`, the index functions and the causal mask of
-- src/attention_compiler.cpp. The integers are not negative, so that `<= 0` is `== 0`.
pub mod Indexes
use Prim.Native.String.{String}
use sched_forge.Base.{
  ℕ, ◌+◌, ◌-◌, ◌*◌, ◌%◌, Bool, true, false, not, ◌&&◌, ◌||◌, ltb, leb, ◌==◌, if◌then◌else◌,
}
use sched_forge.Base.Result.{Result, throw_if}

-- `AttentionConfig` but its scale, a float.
pub record AttentionConfig : Type 0 where
  pub batch : ℕ
  pub query_heads : ℕ
  pub kv_heads : ℕ
  pub sequence_query : ℕ
  pub sequence_kv : ℕ
  pub head_dim : ℕ
  pub head_dim_value : ℕ
  pub causal : Bool

unfoldable pub is_invalid : AttentionConfig → Bool
is_invalid c =
    (c.batch == 0)
    || (c.query_heads == 0)
    || (c.kv_heads == 0)
    || (c.sequence_query == 0)
    || (c.sequence_kv == 0)
    || (c.head_dim == 0)
    || (c.head_dim_value == 0)
    || not (c.query_heads % c.kv_heads == 0)
    || (c.causal && ltb c.sequence_kv c.sequence_query)

unfoldable pub validate_config : AttentionConfig → Result (Unit {0})
validate_config c = throw_if (is_invalid c) "invalid attention configuration"

-- The sizes that `validate_data` demands of the query, the keys and the values.
unfoldable pub query_values : AttentionConfig → ℕ
query_values c = c.batch * c.query_heads * c.sequence_query * c.head_dim

unfoldable pub key_values : AttentionConfig → ℕ
key_values c = c.batch * c.kv_heads * c.sequence_kv * c.head_dim

unfoldable pub value_values : AttentionConfig → ℕ
value_values c = c.batch * c.kv_heads * c.sequence_kv * c.head_dim_value

-- The sizes of the three vectors of the data.
unfoldable pub validate_data : AttentionConfig → ℕ → ℕ → ℕ → Result (Unit {0})
validate_data c query key value =
    throw_if
      (not (query == query_values c) || not (key == key_values c) || not (value == value_values c))
      "attention data shape mismatch"

unfoldable pub q_index : AttentionConfig → ℕ → ℕ → ℕ → ℕ → ℕ
q_index c batch head token dim =
    ((batch * c.query_heads + head) * c.sequence_query + token) * c.head_dim + dim

unfoldable pub k_index : AttentionConfig → ℕ → ℕ → ℕ → ℕ → ℕ
k_index c batch head token dim =
    ((batch * c.kv_heads + head) * c.sequence_kv + token) * c.head_dim + dim

unfoldable pub v_index : AttentionConfig → ℕ → ℕ → ℕ → ℕ → ℕ
v_index c batch head token dim =
    ((batch * c.kv_heads + head) * c.sequence_kv + token) * c.head_dim_value + dim

unfoldable pub o_index : AttentionConfig → ℕ → ℕ → ℕ → ℕ → ℕ
o_index c batch head token dim =
    ((batch * c.query_heads + head) * c.sequence_query + token) * c.head_dim_value + dim

-- The sum is taken before the difference: with `sequence_query <= sequence_kv`, which a causal
-- configuration has, it is the same number.
unfoldable pub allowed : AttentionConfig → ℕ → ℕ → Bool
allowed c query_token key_token =
    if not c.causal then true else leb key_token (c.sequence_kv + query_token - c.sequence_query)
