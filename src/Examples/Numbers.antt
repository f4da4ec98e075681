-- ===== src/Examples/Numbers.antt =====
-- Number formats, the search space and the buckets of dynamic extents.
use sched_forge.Base.{ℕ, ◌+◌, ◌%◌, ◌≤◌, ◌<◌, ◌≡◌, ◌⊎◌, refl, count, List, [], ◌∷◌, All, arith}
use sched_forge.Numeric.Bf16.{
  to_bf16, from_bf16, convert_to_bf16, convert_from_bf16, convert_to_bf16-from_bf16,
  to_bf16-nearest,
}
use sched_forge.Dynamic.{bucket}
use sched_forge.Dynamic.Buckets.{bucket-least}

-- One, minus two, infinity and a NaN.
abbrev patterns : List ℕ
patterns = 0x3f80 ∷ 0xc000 ∷ 0x7f80 ∷ 0x7fc1 ∷ []

convert_to_bf16-from_bf16_example : convert_to_bf16 (convert_from_bf16 patterns) ≡ patterns
convert_to_bf16-from_bf16_example = convert_to_bf16-from_bf16 patterns (omega arith)

-- Halfway between two patterns.
to_bf16-nearest_example :
    (from_bf16 (to_bf16 0x3f808000) ≤ 0x3f808000 + 32768)
    × (0x3f808000 ≤ from_bf16 (to_bf16 0x3f808000) + 32768)
    × (0x3f808000 % 65536 ≡ 32768 → to_bf16 0x3f808000 % 2 ≡ 0)
to_bf16-nearest_example = to_bf16-nearest 0x3f808000 (omega arith)

abbrev sizes : List ℕ
sizes = 128 ∷ 32 ∷ 64 ∷ []

bucket-least_example :
    (All (λ b. b < 40) sizes × (bucket sizes 40 ≡ 40))
    ⊎ ((0 < count (bucket sizes 40) sizes)
        × (40 ≤ bucket sizes 40)
        × All (λ b. 40 ≤ b → bucket sizes 40 ≤ b) sizes)
bucket-least_example = bucket-least sizes 40

bucket_lem : bucket sizes 40 ≡ 64
unfolding bucket
bucket_lem = refl
