-- ===== src/Search/Space/Candidates.antt =====
-- The candidates of `search_space` (src/autoscheduler.cpp): what its nested loops put into each.
use sched_forge.Base.{ℕ, ◌*◌, ◌%◌, ◌≤◌, ◌<◌, max, ◌≡◌, ◌↔◌, ◌⊎◌, true}
use sched_forge.Schedule.{Schedule}

-- What a candidate promises to the code that runs it.
pub record IsCandidate (max_threads : ℕ) (s : Schedule) : Type 0 where
  pub tile_pos : (0 < s.bm) × (0 < s.bn) × (0 < s.bk)
  pub micro_pos : (0 < s.mr) × (0 < s.nr) × (0 < s.vector_width)
  pub outer_tiles : (s.bm * 2 ≤ s.mc) × (s.bn * 2 ≤ s.nc) × (s.bk ≤ s.kc)
  pub vectors_fit : (s.bn % s.vector_width ≡ 0) × (s.nr % s.vector_width ≡ 0)
  pub threads_pos : 0 < s.threads
  pub threads_le : s.threads ≤ max 1 max_threads
  pub packs_b : s.pack_a ≡ true → s.pack_b ≡ true
  pub pins : (s.pin_threads ≡ true) ↔ (1 < s.threads)

abbrev IsTile : ℕ → Type 0
IsTile x = (0 < x) × (x % 16 ≡ 0)

abbrev IsWidth : ℕ → Type 0
IsWidth x = (x ≡ 1) ⊎ (x ≡ 8)

abbrev IsPositive : ℕ → Type 0
IsPositive x = 0 < x

abbrev IsAny : ℕ → Type 0
IsAny x = Unit
