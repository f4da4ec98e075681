-- ===== src/Dynamic/Buckets.antt =====
-- The choice of a bucket for an extent (src/compiler.cpp).
use sched_forge.Base.{
  ℕ, ◌≤◌, ◌<◌, ◌≡◌, ◌⊎◌, inl, inr, refl, leb, Bool-cases, Option-cases, none, some, some_injective,
  List, [], ◌∷◌, All, All-map, count, Pairwise, arith,
}
use sched_forge.Dynamic.{insert, sort, lower_bound, bucket}

some-ne-none : {b : ℕ} → some b ≡ none → ⊥
some-ne-none e = cc

module _ (P : ℕ → Type 0) where
  insert-All : (x : ℕ) (xs : List ℕ) → P x → All P xs → All P (insert x xs)
  unfolding insert
  insert-All x [] p h = (p, tt)
  insert-All x (y ∷ ys) p h = elim (Bool-cases (leb x y)) [
    | inl t ↦ rw (t, insert) (p, h)
    | inr f ↦ rw (f, insert) (h.0, insert-All x ys p h.1)
  ]

  All-insert : (x : ℕ) (xs : List ℕ) → All P (insert x xs) → P x × All P xs
  unfolding insert
  All-insert x [] h = h
  All-insert x (y ∷ ys) h = elim (Bool-cases (leb x y)) [
    | inl t ↦ rw (t, insert) at h
    | inr f ↦
        let both : P y × All P (insert x ys) = rw (f, insert) at h in
        let rest = All-insert x ys both.1 in (rest.0, (both.0, rest.1))
  ]

  All-sort : (xs : List ℕ) → All P (sort xs) → All P xs
  unfolding sort
  All-sort [] h = tt
  All-sort (x ∷ xs) h = let both = All-insert x (sort xs) h in (both.0, All-sort xs both.1)

insert-Pairwise :
    (x : ℕ) (xs : List ℕ) → Pairwise (λ a b. a ≤ b) xs → Pairwise (λ a b. a ≤ b) (insert x xs)
unfolding insert
insert-Pairwise x [] h = (tt, tt)
insert-Pairwise x (y ∷ ys) h = elim (Bool-cases (leb x y)) [
  | inl t ↦
      let le : x ≤ y = ground arith in
      rw (t, insert) ((le, All-map (λ b. y ≤ b) (λ b. x ≤ b) ys (λ b l. omega (arith, le)) h.0), h)
  | inr f ↦
      rw (f, insert) (insert-All (λ b. y ≤ b) x ys (ground arith) h.0, insert-Pairwise x ys h.1)
]

sort-Pairwise : (xs : List ℕ) → Pairwise (λ a b. a ≤ b) (sort xs)
unfolding sort
sort-Pairwise [] = tt
sort-Pairwise (x ∷ xs) = insert-Pairwise x (sort xs) (sort-Pairwise xs)

lower_bound-le :
    (xs : List ℕ) (extent : ℕ) {b : ℕ}
    → Pairwise (λ a c. a ≤ c) xs
    → lower_bound xs extent ≡ some b
    → (extent ≤ b) × All (λ c. extent ≤ c → b ≤ c) xs
unfolding lower_bound
lower_bound-le [] extent h e = cc
lower_bound-le (x ∷ xs) extent {b} h e = elim (Bool-cases (leb extent x)) [
  | inl t ↦
      let same : x ≡ b = some_injective (rw t at e) in
      (
        ground (arith, same),
        (
          (λ l. omega (arith, same)),
          All-map (λ c. x ≤ c) (λ c. extent ≤ c → b ≤ c) xs (λ c l k. omega (arith, same, l)) h.0,
        ),
      )
  | inr f ↦
      let rest = lower_bound-le xs extent h.1 (rw f at e) in
      (rest.0, ((λ l. absurd (ground arith)), rest.1))
]

lower_bound-none :
    (xs : List ℕ) (extent : ℕ) → lower_bound xs extent ≡ none → All (λ c. c < extent) xs
unfolding lower_bound
lower_bound-none [] extent e = tt
lower_bound-none (x ∷ xs) extent e = elim (Bool-cases (leb extent x)) [
  | inl t ↦ absurd (some-ne-none (rw t at e))
  | inr f ↦ (ground arith, lower_bound-none xs extent (rw f at e))
]

lower_bound-count :
    (xs : List ℕ) (extent : ℕ) {b : ℕ} → lower_bound xs extent ≡ some b → 0 < count b xs
unfolding lower_bound
lower_bound-count [] extent e = cc
lower_bound-count (x ∷ xs) extent {b} e = elim (Bool-cases (leb extent x)) [
  | inl t ↦ let same : x ≡ b = some_injective (rw t at e) in ground (arith, same)
  | inr f ↦ ground (arith, lower_bound-count xs extent (rw f at e))
]

count-insert : (a x : ℕ) (xs : List ℕ) → count a (insert x xs) ≡ count a (x ∷ xs)
unfolding insert
count-insert a x [] = refl
count-insert a x (y ∷ ys) = ground (arith, count-insert a x ys)

count-sort : (a : ℕ) (xs : List ℕ) → count a (sort xs) ≡ count a xs
unfolding sort
count-sort a [] = refl
count-sort a (x ∷ xs) = ground (arith, count-sort a xs, count-insert a x (sort xs))

-- Whatever the order in which the buckets are given: if all of them are below the extent, the bucket of
-- the extent is the extent itself; and else it is the least of the buckets that are not below it.
pub bucket-least :
    (buckets : List ℕ) (extent : ℕ)
    → (All (λ b. b < extent) buckets × (bucket buckets extent ≡ extent))
      ⊎ ((0 < count (bucket buckets extent) buckets)
          × (extent ≤ bucket buckets extent)
          × All (λ b. extent ≤ b → bucket buckets extent ≤ b) buckets)
unfolding bucket
bucket-least buckets extent = elim (Option-cases (lower_bound (sort buckets) extent)) [
  | inl e ↦ inl (
    All-sort (λ b. b < extent) buckets (lower_bound-none (sort buckets) extent e),
    rw (e, bucket) refl,
  )
  | inr (b, e) ↦
      let (fits, least) = lower_bound-le (sort buckets) extent (sort-Pairwise buckets) e in
      let found : 0 < count b buckets =
        omega (arith, lower_bound-count (sort buckets) extent e, count-sort b buckets) in
      inr (rw (e, bucket) (found, fits, All-sort (λ c. extent ≤ c → b ≤ c) buckets least))
]
