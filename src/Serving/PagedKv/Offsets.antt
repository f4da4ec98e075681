-- ===== src/Serving/PagedKv/Offsets.antt =====
-- `page_offset` as a numbering of the cells of the paged storage, and the row of a token in the vectors
-- passed to append.
use sched_forge.Base.{ℕ, ◌+◌, ◌*◌, ◌<◌, ◌≡◌, List, length, some, get_elem?, get_elem?-lt, arith}
use sched_forge.Base.Rows.{row-lt, row_injective}
use sched_forge.Serving.PagedKv.{PagedKvConfig, page_offset, page_size, source_row}

-- A cell of the storage: a physical page and a position in it.
pub record Cell : Type 0 where
  pub page : ℕ
  pub batch : ℕ
  pub head : ℕ
  pub token : ℕ
  pub dim : ℕ

pub record IsCell (c : PagedKvConfig) (width : ℕ) (x : Cell) : Type 0 where
  pub batch_lt : x.batch < c.batch
  pub head_lt : x.head < c.kv_heads
  pub token_lt : x.token < c.page_tokens
  pub dim_lt : x.dim < width

abbrev pub offset_of : PagedKvConfig → ℕ → Cell → ℕ
offset_of c width x = page_offset c x.page x.batch x.head x.token x.dim width

-- Different cells have different offsets, also of pages out of range.
pub page_offset_injective :
    (c : PagedKvConfig) (width : ℕ) (x y : Cell)
    → IsCell c width x
    → IsCell c width y
    → offset_of c width x ≡ offset_of c width y
    → x ≡ y
unfolding page_offset
page_offset_injective c width x y u v e =
    let (e3, d) = row_injective width _ _ _ _ u.dim_lt v.dim_lt e in
    let (e2, t) = row_injective c.page_tokens _ _ _ _ u.token_lt v.token_lt e3 in
    let (e1, h) = row_injective c.kv_heads _ _ _ _ u.head_lt v.head_lt e2 in
    let (p, b) = row_injective c.batch _ _ _ _ u.batch_lt v.batch_lt e1 in
    λ i. record { page = p i; batch = b i; head = h i; token = t i; dim = d i }

-- The cells of the first `n` pages lie within the storage of `n` pages.
pub page_offset-lt :
    (c : PagedKvConfig) (width n : ℕ) (x : Cell)
    → IsCell c width x
    → x.page < n
    → offset_of c width x < n * page_size c * width
unfolding page_offset page_size
page_offset-lt c width n x u h =
    let l1 = row-lt n c.batch x.page x.batch h u.batch_lt in
    let l2 = row-lt (n * c.batch) c.kv_heads (x.page * c.batch + x.batch) x.head l1 u.head_lt in
    let l3 =
      row-lt (n * c.batch * c.kv_heads) c.page_tokens
        ((x.page * c.batch + x.batch) * c.kv_heads + x.head) x.token l2 u.token_lt in
    let l4 =
      row-lt (n * c.batch * c.kv_heads * c.page_tokens) width
        (((x.page * c.batch + x.batch) * c.kv_heads + x.head) * c.page_tokens + x.token) x.dim l3
        u.dim_lt in
    omega (arith, l4)

-- An appended vector of the right size has an element at every position.
pub source_row-get {ℓ} :
    {A : Type ℓ} (c : PagedKvConfig) (source : List A) (tokens width b h k d : ℕ)
    → length source ≡ c.batch * c.kv_heads * tokens * width
    → b < c.batch
    → h < c.kv_heads
    → k < tokens
    → d < width
    → (x : A) × (get_elem? source (source_row c tokens k b h width + d) ≡ some x)
unfolding source_row
source_row-get c source tokens width b h k d e lb lh lk ld =
    let l1 = row-lt c.batch c.kv_heads b h lb lh in
    let l2 = row-lt (c.batch * c.kv_heads) tokens (b * c.kv_heads + h) k l1 lk in
    let l3 =
      row-lt (c.batch * c.kv_heads * tokens) width ((b * c.kv_heads + h) * tokens + k) d l2 ld in
    get_elem?-lt source _ (omega (arith, l3, e))
