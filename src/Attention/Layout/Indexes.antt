-- ===== src/Attention/Layout/Indexes.antt =====
-- The four index functions of src/attention_compiler.cpp on the positions within the shape.
use sched_forge.Base.{ℕ, ◌+◌, ◌*◌, ◌<◌, ◌≡◌}
use sched_forge.Base.Rows.{row-lt, row_injective}
use sched_forge.Attention.Layout.{AttentionConfig, q_index, k_index, v_index, o_index}

-- A position: batch, head, token and dimension.
pub record Position : Type 0 where
  pub batch : ℕ
  pub head : ℕ
  pub token : ℕ
  pub dim : ℕ

pub record IsWithin (batches heads tokens dims : ℕ) (p : Position) : Type 0 where
  pub batch_lt : p.batch < batches
  pub head_lt : p.head < heads
  pub token_lt : p.token < tokens
  pub dim_lt : p.dim < dims

-- An index function is a bijection onto its range as far as it goes: in range and injective.
abbrev pub IsLayout : (batches heads tokens dims : ℕ) → (ℕ → ℕ → ℕ → ℕ → ℕ) → Type 0
IsLayout batches heads tokens dims index =
    (p q : Position)
    → IsWithin batches heads tokens dims p
    → IsWithin batches heads tokens dims q
    → (index p.batch p.head p.token p.dim < batches * heads * tokens * dims)
      × (index p.batch p.head p.token p.dim ≡ index q.batch q.head q.token q.dim → p ≡ q)

abbrev row_major : ℕ → ℕ → ℕ → ℕ → ℕ → ℕ → ℕ → ℕ
row_major heads tokens dims b h t d = ((b * heads + h) * tokens + t) * dims + d

row_major_injective :
    (batches heads tokens dims : ℕ) (p q : Position)
    → IsWithin batches heads tokens dims p
    → IsWithin batches heads tokens dims q
    → row_major heads tokens dims p.batch p.head p.token p.dim
      ≡ row_major heads tokens dims q.batch q.head q.token q.dim
    → p ≡ q
row_major_injective batches heads tokens dims p q wp wq e =
    let (e3, d) = row_injective dims _ _ _ _ wp.dim_lt wq.dim_lt e in
    let (e2, t) = row_injective tokens _ _ _ _ wp.token_lt wq.token_lt e3 in
    let (b, h) = row_injective heads _ _ _ _ wp.head_lt wq.head_lt e2 in
    λ i. record { batch = b i; head = h i; token = t i; dim = d i }

row_major-IsLayout :
    (batches heads tokens dims : ℕ)
    → IsLayout batches heads tokens dims (row_major heads tokens dims)
row_major-IsLayout batches heads tokens dims p q wp wq = (
  row-lt (batches * heads * tokens) dims _ p.dim
      (row-lt (batches * heads) tokens _ p.token
        (row-lt batches heads p.batch p.head wp.batch_lt wp.head_lt) wp.token_lt)
      wp.dim_lt,
  row_major_injective batches heads tokens dims p q wp wq,
)

-- For the query, the keys, the values and the output: the index of a position within the shape is below
-- the size that the configuration gives the tensor, and different positions have different indexes.
pub indexes-IsLayout :
    (c : AttentionConfig)
    → IsLayout c.batch c.query_heads c.sequence_query c.head_dim (q_index c)
      × IsLayout c.batch c.kv_heads c.sequence_kv c.head_dim (k_index c)
      × IsLayout c.batch c.kv_heads c.sequence_kv c.head_dim_value (v_index c)
      × IsLayout c.batch c.query_heads c.sequence_query c.head_dim_value (o_index c)
unfolding q_index k_index v_index o_index
indexes-IsLayout c = (
  row_major-IsLayout c.batch c.query_heads c.sequence_query c.head_dim,
  row_major-IsLayout c.batch c.kv_heads c.sequence_kv c.head_dim,
  row_major-IsLayout c.batch c.kv_heads c.sequence_kv c.head_dim_value,
  row_major-IsLayout c.batch c.query_heads c.sequence_query c.head_dim_value,
)
