-- ===== src/Examples/Programs.antt =====
-- A product of a value with itself, whose operands are replaced.
use sched_forge.Base.{ℕ, ◌+◌, ◌≡◌, ◌≢◌, refl, [], ◌∷◌, count, list_at, arith}
use sched_forge.GenericIr.{f32, tensor, Store, replace_all_uses_with}
use sched_forge.GenericIr.Builder.{create_input, create_mat_mul}
use sched_forge.GenericIr.Uses.{users_of, operands_of, IsMirrored}
use sched_forge.GenericIr.Replacing.{replace_all_uses_with-moves}
use sched_forge.GenericIr.Programs.{
  empty_module, IsBuilt, empty, call, input, mat_mul, IsBuilt-IsMirrored,
}

abbrev two_inputs : Store
two_inputs = (create_input (create_input empty_module 0 "x" f32).0 0 "y" f32).0

abbrev square : Store
square = (create_mat_mul two_inputs 0 0 0 (tensor (4 ∷ 4 ∷ []) f32)).0

square-IsBuilt : IsBuilt square
unfolding create_input
square-IsBuilt =
    call (call (call empty (input 0 "x" f32)) (input 0 "y" f32))
      (mat_mul 0 0 0 (tensor (4 ∷ 4 ∷ []) f32) (omega arith, (omega arith, tt)))

IsBuilt-IsMirrored_example : count 2 (users_of square 0) ≡ count 0 (operands_of square 2)
IsBuilt-IsMirrored_example = IsBuilt-IsMirrored square-IsBuilt 2 0

replaced_lem :
    (operands_of (replace_all_uses_with square 0 1) 2 ≡ 1 ∷ 1 ∷ [])
    × (users_of (replace_all_uses_with square 0 1) 1 ≡ 2 ∷ 2 ∷ [])
unfolding replace_all_uses_with create_input create_mat_mul list_at
replaced_lem = (refl, refl)

replace_all_uses_with-moves_example :
    IsMirrored (replace_all_uses_with square 0 1)
    × ((o : ℕ) → count 0 (operands_of (replace_all_uses_with square 0 1) o) ≡ 0)
    × ((o : ℕ)
        → count 1 (operands_of (replace_all_uses_with square 0 1) o)
          ≡ count 1 (operands_of square o) + count 0 (operands_of square o))
    × ((o v : ℕ)
        → v ≢ 0
        → v ≢ 1
        → count v (operands_of (replace_all_uses_with square 0 1) o)
          ≡ count v (operands_of square o))
unfolding create_input create_mat_mul
replace_all_uses_with-moves_example =
    replace_all_uses_with-moves square 0 1 (IsBuilt-IsMirrored square-IsBuilt) (omega arith)
      (omega arith)
