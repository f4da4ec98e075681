-- ===== src/Numeric/Bf16.antt =====
-- `convert_to_bf16` and `convert_from_bf16` of src/compiler.cpp on the bit patterns of the floats, which
-- `memcpy` reads and writes: numbers below 2 ^ 32. The sum of 32-bit numbers wraps around.
use sched_forge.Base.{
  ℕ, ◌+◌, ◌*◌, ◌/◌, ◌%◌, ◌≤◌, ◌<◌, ◌≡◌, List, [], ◌∷◌, map, All, refl, ap, ◌∙◌, arith,
}

unfoldable pub to_bf16 : ℕ → ℕ
to_bf16 bits =
    let rounding = 0x7fff + (bits / 65536) % 2 in ((bits + rounding) % 4294967296) / 65536 % 65536

unfoldable pub from_bf16 : ℕ → ℕ
from_bf16 value = (value * 65536) % 4294967296

unfoldable pub convert_to_bf16 : List ℕ → List ℕ
unfolding to_bf16
convert_to_bf16 values = map to_bf16 values

unfoldable pub convert_from_bf16 : List ℕ → List ℕ
unfolding from_bf16
convert_from_bf16 values = map from_bf16 values

to_bf16-from_bf16 : (h : ℕ) → h < 65536 → to_bf16 (from_bf16 h) ≡ h
unfolding to_bf16 from_bf16
to_bf16-from_bf16 h l = omega arith

map-eq :
    (f : ℕ → ℕ) (values : List ℕ)
    → ((h : ℕ) → h < 65536 → f h ≡ h)
    → All (λ h. h < 65536) values
    → map f values ≡ values
map-eq f [] same below = refl
map-eq f (h ∷ values) same below = λ i. same h below.0 i ∷ map-eq f values same below.1 i

-- Converting 16-bit patterns to floats and back gives the same patterns, those of the NaNs included.
pub convert_to_bf16-from_bf16 :
    (values : List ℕ)
    → All (λ h. h < 65536) values
    → convert_to_bf16 (convert_from_bf16 values) ≡ values
unfolding convert_to_bf16 convert_from_bf16
convert_to_bf16-from_bf16 values below =
    map-map to_bf16 from_bf16 values
    ∙ map-eq (λ h. to_bf16 (from_bf16 h)) values to_bf16-from_bf16 below
  where
    map-map : (f g : ℕ → ℕ) (xs : List ℕ) → map f (map g xs) ≡ map (λ x. f (g x)) xs
    map-map f g [] = refl
    map-map f g (x ∷ xs) = ap (λ ys. f (g x) ∷ ys) (map-map f g xs)

-- A pattern that is more than half a step, 32768, below 2 ^ 32 is converted to a nearest 16-bit pattern: the
-- two differ by at most half a step, and of two nearest ones the even one is taken.
pub to_bf16-nearest :
    (bits : ℕ)
    → bits + 32768 < 4294967296
    → (from_bf16 (to_bf16 bits) ≤ bits + 32768)
      × (bits ≤ from_bf16 (to_bf16 bits) + 32768)
      × (bits % 65536 ≡ 32768 → to_bf16 bits % 2 ≡ 0)
unfolding to_bf16 from_bf16
to_bf16-nearest bits h = (omega arith, omega arith, (λ tie. omega arith))

-- The largest NaNs of either sign lose their exponent.
nan_lem : (to_bf16 0x7fffffff ≡ 0x8000) × (to_bf16 0xffffffff ≡ 0)
unfolding to_bf16
nan_lem = (refl, refl)
