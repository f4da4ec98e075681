-- ===== src/GenericIr/Builder.antt =====
-- `IRBuilder` of src/generic_ir.cpp: every operation that it can add to a block. A value that an
-- operation reads is a value of the store.
use Prim.Native.String.{String}
use sched_forge.Base.{ℕ, none, some, List, [], ◌∷◌, ◌++◌, length, get_elem?, to_string}
use sched_forge.GenericIr.{
  IrType, index, f32, vector, ForFields, Block, Store, make_operation, set_attribute, append,
}

-- `value->type()`.
unfoldable pub type_of : Store → ℕ → IrType
type_of s v = elim (get_elem? s.values v) [ none ↦ index | some x ↦ x.type ]

-- `block_.append(std::make_unique<Operation>(...))`, with an attribute or none in between.
unfoldable pub emit : Store → ℕ → String → List ℕ → List IrType → Store × ℕ
unfolding make_operation append
emit s block name operands result_types =
    let made = make_operation s name operands result_types none in
    (append made.0 block made.1, made.1)

unfoldable pub emit_with : Store → ℕ → String → List ℕ → List IrType → String → String → Store × ℕ
unfolding make_operation set_attribute append
emit_with s block name operands result_types key value =
    let made = make_operation s name operands result_types none in
    (append (set_attribute made.0 made.1 key value) block made.1, made.1)

unfoldable pub create_input : Store → ℕ → String → IrType → Store × ℕ
unfolding emit_with
create_input s block name type = emit_with s block "tensor.input" [] (type ∷ []) "name" name

unfoldable pub create_mat_mul : Store → ℕ → ℕ → ℕ → IrType → Store × ℕ
unfolding emit
create_mat_mul s block lhs rhs type = emit s block "tensor.matmul" (lhs ∷ rhs ∷ []) (type ∷ [])

-- `ForOperation::ForOperation` has an empty body, a new block.
unfoldable pub create_for : Store → ℕ → String → ℕ → ℕ → ℕ → Store × ℕ
unfolding make_operation set_attribute append
create_for s block induction_name lower upper step =
    let body = length s.blocks in
    let fields : ForFields = record { lower = lower; upper = upper; step = step; body = body } in
    let empty : Block = record { arguments = []; operations = [] } in
    let made =
      make_operation (record s { blocks = s.blocks ++ empty ∷ [] }) "loop.for" [] (index ∷ [])
        (some fields) in
    (append (set_attribute made.0 made.1 "iv" induction_name) block made.1, made.1)

unfoldable pub create_load : Store → ℕ → ℕ → List ℕ → Store × ℕ
unfolding emit
create_load s block buffer indices = emit s block "memref.load" (buffer ∷ indices) (f32 ∷ [])

unfoldable pub create_store : Store → ℕ → ℕ → ℕ → List ℕ → Store × ℕ
unfolding emit
create_store s block value buffer indices =
    emit s block "memref.store" (value ∷ buffer ∷ indices) []

unfoldable pub create_binary : Store → ℕ → String → ℕ → ℕ → Store × ℕ
unfolding emit type_of
create_binary s block name lhs rhs = emit s block name (lhs ∷ rhs ∷ []) (type_of s lhs ∷ [])

unfoldable pub create_fma : Store → ℕ → ℕ → ℕ → ℕ → Store × ℕ
unfolding emit type_of
create_fma s block lhs rhs accumulator =
    emit s block "arith.fma" (lhs ∷ rhs ∷ accumulator ∷ []) (type_of s accumulator ∷ [])

unfoldable pub create_vector_load : Store → ℕ → ℕ → List ℕ → ℕ → Store × ℕ
unfolding emit
create_vector_load s block buffer indices width =
    emit s block "vector.load" (buffer ∷ indices) (vector (width ∷ []) f32 ∷ [])

unfoldable pub create_vector_store : Store → ℕ → ℕ → ℕ → List ℕ → Store × ℕ
unfolding emit
create_vector_store s block value buffer indices =
    emit s block "vector.store" (value ∷ buffer ∷ indices) []

unfoldable pub create_broadcast : Store → ℕ → ℕ → ℕ → Store × ℕ
unfolding emit
create_broadcast s block value width =
    emit s block "vector.broadcast" (value ∷ []) (vector (width ∷ []) f32 ∷ [])

unfoldable pub create_vector_fma : Store → ℕ → ℕ → ℕ → ℕ → Store × ℕ
unfolding emit type_of
create_vector_fma s block lhs rhs accumulator =
    emit s block "vector.fma" (lhs ∷ rhs ∷ accumulator ∷ []) (type_of s accumulator ∷ [])

unfoldable pub create_pack : Store → ℕ → ℕ → IrType → String → Store × ℕ
unfolding emit_with
create_pack s block source packed_type layout =
    emit_with s block "tensor.pack" (source ∷ []) (packed_type ∷ []) "layout" layout

unfoldable pub create_prefetch : Store → ℕ → ℕ → List ℕ → ℕ → Store × ℕ
unfolding emit_with
create_prefetch s block buffer indices distance =
    emit_with s block "memref.prefetch" (buffer ∷ indices) [] "distance" (to_string distance)

unfoldable pub create_return : Store → ℕ → ℕ → Store × ℕ
unfolding emit
create_return s block value = emit s block "func.return" (value ∷ []) []
