-- ===== src/Memory/Ranges.antt =====
-- Lifetimes and byte ranges.
use sched_forge.Base.{ℕ, ◌+◌, ◌-◌, ◌*◌, ◌/◌, ◌%◌, ◌≤◌, ◌<◌, ◌≡◌, ◌⊎◌, arith}

-- `align_to`, which MemoryPlanner::plan writes out.
unfoldable pub align_to : ℕ → ℕ → ℕ
align_to value alignment = (value + alignment - 1) / alignment * alignment

pub align_to-64 :
    (x : ℕ) → (x ≤ align_to x 64) × (align_to x 64 % 64 ≡ 0) × (align_to x 64 < x + 64)
unfolding align_to
align_to-64 x = omega arith

pub record Extent : Type 0 where
  pub offset : ℕ
  pub bytes : ℕ
  pub first : ℕ
  pub last : ℕ

-- Two buffers are never live at once, or share no byte.
abbrev pub Apart : Extent → Extent → Type 0
Apart a b =
    (a.last < b.first)
    ⊎ (b.last < a.first)
    ⊎ (a.offset + a.bytes ≤ b.offset)
    ⊎ (b.offset + b.bytes ≤ a.offset)
