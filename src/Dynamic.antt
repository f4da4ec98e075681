-- ===== src/Dynamic.antt =====
-- Problems with extents known at run time: `DynamicProblem::specialize` and `DynamicDispatcher::bucket` of
-- src/compiler.cpp. An extent below 0, which is not known before, is `none`.
pub mod Buckets
use sched_forge.Base.{ℕ, true, leb, if◌then◌else◌, Option, none, some, List, [], ◌∷◌, find_if}
use sched_forge.Schedule.{Problem}

pub record DynamicProblem : Type 0 where
  pub m : Option ℕ
  pub n : Option ℕ
  pub k : Option ℕ

abbrev pub extent_or : Option ℕ → ℕ → ℕ
extent_or none runtime = runtime
extent_or (some extent) runtime = extent

unfoldable pub specialize : DynamicProblem → ℕ → ℕ → ℕ → Problem
specialize p runtime_m runtime_n runtime_k = record {
  m = extent_or p.m runtime_m;
  n = extent_or p.n runtime_n;
  k = extent_or p.k runtime_k;
  bias = true;
  relu = true;
}

-- `std::sort`.
unfoldable pub insert : ℕ → List ℕ → List ℕ
insert x [] = x ∷ []
insert x (y ∷ ys) = let rest = insert x ys in if leb x y then x ∷ y ∷ ys else y ∷ rest

unfoldable pub sort : List ℕ → List ℕ
unfolding insert
sort [] = []
sort (x ∷ xs) = insert x (sort xs)

-- `std::lower_bound` on a sorted range: the first element that is not less.
unfoldable pub lower_bound : List ℕ → ℕ → Option ℕ
lower_bound buckets extent = find_if (λ b. leb extent b) buckets

-- The constructor sorts the buckets.
unfoldable pub bucket : List ℕ → ℕ → ℕ
unfolding sort lower_bound
bucket buckets extent = elim (lower_bound (sort buckets) extent) [ none ↦ extent | some b ↦ b ]

-- The problem that `DynamicDispatcher::dispatch` compiles and tunes.
unfoldable pub dispatched : List ℕ → DynamicProblem → ℕ → ℕ → ℕ → Problem
unfolding bucket specialize
dispatched buckets p runtime_m runtime_n runtime_k =
    specialize p (bucket buckets runtime_m) (bucket buckets runtime_n) (bucket buckets runtime_k)
