-- ===== src/GenericIr/Programs.antt =====
-- The programs that `IRBuilder` of src/generic_ir.cpp and `replaceAllUsesWith` make.
use Prim.Native.String.{String}
use sched_forge.Base.{
  ℕ, ◌<◌, ◌≡◌, ◌≢◌, some, List, [], ◌∷◌, ◌++◌, length, count, list_at-nil, to_string,
}
use sched_forge.GenericIr.{
  IrType, index, f32, vector, ForFields, Block, Store, make_operation, add_argument, append,
  replace_all_uses_with,
}
use sched_forge.GenericIr.Builder.{
  type_of, create_input, create_mat_mul, create_for, create_load, create_store, create_binary,
  create_fma, create_vector_load, create_vector_store, create_broadcast, create_vector_fma,
  create_pack, create_prefetch, create_return,
}
use sched_forge.GenericIr.Uses.{
  users_of, operands_of, IsMirrored, AreValues, make_operation-IsMirrored, set_attribute-IsMirrored,
  emit-IsMirrored, emit_with-IsMirrored, add_argument-IsMirrored,
}
use sched_forge.GenericIr.Replacing.{replace_all_uses_with-moves}

-- An empty module: one block, its body.
abbrev pub empty_module : Store
empty_module = record {
  values = [];
  operations = [];
  blocks = record { arguments = []; operations = [] } ∷ [];
  next_value_id = 0;
}

-- One call on a builder, which may stand at any block; its operands are values of the store.
pub data Call (s : Store) : Store → Type 0 where
  argument : (b : ℕ) (t : IrType) (n : String) → Call s (add_argument s b t n).0
  input : (b : ℕ) (n : String) (t : IrType) → Call s (create_input s b n t).0
  mat_mul :
      (b x y : ℕ) (t : IrType) → AreValues s (x ∷ y ∷ []) → Call s (create_mat_mul s b x y t).0
  loop : (b : ℕ) (n : String) (lower upper step : ℕ) → Call s (create_for s b n lower upper step).0
  load : (b x : ℕ) (is : List ℕ) → AreValues s (x ∷ is) → Call s (create_load s b x is).0
  store : (b x y : ℕ) (is : List ℕ) → AreValues s (x ∷ y ∷ is) → Call s (create_store s b x y is).0
  binary :
      (b : ℕ) (n : String) (x y : ℕ) → AreValues s (x ∷ y ∷ []) → Call s (create_binary s b n x y).0
  fma : (b x y z : ℕ) → AreValues s (x ∷ y ∷ z ∷ []) → Call s (create_fma s b x y z).0
  vector_load :
      (b x : ℕ) (is : List ℕ) (w : ℕ)
      → AreValues s (x ∷ is)
      → Call s (create_vector_load s b x is w).0
  vector_store :
      (b x y : ℕ) (is : List ℕ)
      → AreValues s (x ∷ y ∷ is)
      → Call s (create_vector_store s b x y is).0
  broadcast : (b x w : ℕ) → AreValues s (x ∷ []) → Call s (create_broadcast s b x w).0
  vector_fma : (b x y z : ℕ) → AreValues s (x ∷ y ∷ z ∷ []) → Call s (create_vector_fma s b x y z).0
  pack :
      (b x : ℕ) (t : IrType) (l : String) → AreValues s (x ∷ []) → Call s (create_pack s b x t l).0
  prefetch :
      (b x : ℕ) (is : List ℕ) (d : ℕ) → AreValues s (x ∷ is) → Call s (create_prefetch s b x is d).0
  returns : (b x : ℕ) → AreValues s (x ∷ []) → Call s (create_return s b x).0
  replace :
      (old new : ℕ) → old ≢ new → new < length s.values → Call s (replace_all_uses_with s old new)

pub data IsBuilt : Store → Type 0 where
  empty : IsBuilt empty_module
  call : {s t : Store} → IsBuilt s → Call s t → IsBuilt t

Call-IsMirrored : {s t : Store} → Call s t → IsMirrored s → IsMirrored t
unfolding create_input create_mat_mul create_for create_load create_store create_binary create_fma
    create_vector_load create_vector_store create_broadcast create_vector_fma create_pack
    create_prefetch create_return append
Call-IsMirrored {s} (argument b t n) w = add_argument-IsMirrored s b t n w
Call-IsMirrored {s} (input b n t) w =
    emit_with-IsMirrored s b "tensor.input" [] (t ∷ []) "name" n w tt
Call-IsMirrored {s} (mat_mul b x y t h) w =
    emit-IsMirrored s b "tensor.matmul" (x ∷ y ∷ []) (t ∷ []) w h
Call-IsMirrored {s} (loop b n lower upper step) w =
    let empty : Block = record { arguments = []; operations = [] } in
    let wider : Store = record s { blocks = s.blocks ++ empty ∷ [] } in
    let fields : ForFields = record {
      lower = lower;
      upper = upper;
      step = step;
      body = length s.blocks;
    } in
    let made = make_operation wider "loop.for" [] (index ∷ []) (some fields) in
    set_attribute-IsMirrored made.0 made.1 "iv" n
      (make_operation-IsMirrored wider "loop.for" [] (index ∷ []) (some fields) w tt)
Call-IsMirrored {s} (load b x is h) w = emit-IsMirrored s b "memref.load" (x ∷ is) (f32 ∷ []) w h
Call-IsMirrored {s} (store b x y is h) w = emit-IsMirrored s b "memref.store" (x ∷ y ∷ is) [] w h
Call-IsMirrored {s} (binary b n x y h) w = emit-IsMirrored s b n (x ∷ y ∷ []) (type_of s x ∷ []) w h
Call-IsMirrored {s} (fma b x y z h) w =
    emit-IsMirrored s b "arith.fma" (x ∷ y ∷ z ∷ []) (type_of s z ∷ []) w h
Call-IsMirrored {s} (vector_load b x is d h) w =
    emit-IsMirrored s b "vector.load" (x ∷ is) (vector (d ∷ []) f32 ∷ []) w h
Call-IsMirrored {s} (vector_store b x y is h) w =
    emit-IsMirrored s b "vector.store" (x ∷ y ∷ is) [] w h
Call-IsMirrored {s} (broadcast b x d h) w =
    emit-IsMirrored s b "vector.broadcast" (x ∷ []) (vector (d ∷ []) f32 ∷ []) w h
Call-IsMirrored {s} (vector_fma b x y z h) w =
    emit-IsMirrored s b "vector.fma" (x ∷ y ∷ z ∷ []) (type_of s z ∷ []) w h
Call-IsMirrored {s} (pack b x t l h) w =
    emit_with-IsMirrored s b "tensor.pack" (x ∷ []) (t ∷ []) "layout" l w h
Call-IsMirrored {s} (prefetch b x is d h) w =
    emit_with-IsMirrored s b "memref.prefetch" (x ∷ is) [] "distance" (to_string d) w h
Call-IsMirrored {s} (returns b x h) w = emit-IsMirrored s b "func.return" (x ∷ []) [] w h
Call-IsMirrored {s} (replace old new differ h) w =
    (replace_all_uses_with-moves s old new w differ h).0

-- In every program that calls on a builder and replacements of a value by another make, an operation
-- stands in the use list of a value once for each of its operands that is this value.
pub IsBuilt-IsMirrored :
    {s : Store} → IsBuilt s → (o v : ℕ) → count o (users_of s v) ≡ count v (operands_of s o)
IsBuilt-IsMirrored empty o v = simp list_at-nil
IsBuilt-IsMirrored (call b c) o v = Call-IsMirrored c (λ p u. IsBuilt-IsMirrored b p u) o v
