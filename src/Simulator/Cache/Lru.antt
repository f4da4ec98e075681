-- ===== src/Simulator/Cache/Lru.antt =====
-- Hits, residence and the choice of the victim.
use sched_forge.Base.{
  true-ne-false, ℕ, zero, suc, ◌+◌, ◌≤◌, ◌<◌, ◌≡◌, ◌≢◌, ◌||◌, not, ltb, ◌⊎◌, inl, inr, refl, sym,
  ◌∙◌, Bool, true, false, Bool-cases, some, some_injective, List, [], ◌∷◌, All, length, get_elem?,
  update, any, arith,
}
use sched_forge.Simulator.Cache.{Line, matches, Found, hit, miss, find_way, first_used, access_set}

miss-ne-hit : {v w : ℕ} → miss v ≢ hit w
miss-ne-hit h = cc

miss_injective : {v w : ℕ} → miss v ≡ miss w → v ≡ w
miss_injective h = cc

-- The number of the line that a hit or a miss names is in range.
pub find_way-hit :
    (tag : ℕ) (lines : List Line) (way victim used w : ℕ)
    → find_way tag lines way victim used ≡ hit w
    → (i : ℕ) × (line : Line) × (w ≡ way + i)
      × (get_elem? lines i ≡ some line)
      × (matches tag line ≡ true)
unfolding find_way
find_way-hit tag [] way victim used w h = cc
find_way-hit tag (line ∷ lines) way victim used w h = elim (Bool-cases (matches tag line)) [
  | inl e ↦ (0, line, ground arith, refl, e)
  | inr e ↦
      let (i, l, w_eq, at, m) = find_way-hit tag lines (suc way) _ _ w (rw e at h) in
      (suc i, l, omega arith, at, m)
]

pub find_way-miss :
    (tag : ℕ) (lines : List Line) (way victim used v : ℕ)
    → find_way tag lines way victim used ≡ miss v
    → any (matches tag) lines ≡ false
unfolding find_way
find_way-miss tag [] way victim used v h = refl
find_way-miss tag (line ∷ lines) way victim used v h = elim (Bool-cases (matches tag line)) [
  | inl e ↦ absurd (miss-ne-hit (sym (rw e at h)))
  | inr e ↦ rw e (find_way-miss tag lines (suc way) _ _ v (rw e at h))
]

-- A line that was never filled was never used.
abbrev pub IsUsed : Line → Type 0
IsUsed line = line.valid ≡ false → line.last_used ≡ 0

abbrev pub UsedAfter : ℕ → Line → Type 0
UsedAfter used line = used ≤ line.last_used

-- The victim is older than every line.
abbrev Oldest : List Line → ℕ → ℕ → ℕ → ℕ → Type 0
Oldest lines way victim used v =
    ((v ≡ victim) × All (UsedAfter used) lines)
    ⊎ ((i : ℕ) × (line : Line) × (v ≡ way + i)
        × (get_elem? lines i ≡ some line)
        × (line.last_used ≤ used)
        × All (UsedAfter line.last_used) lines)

Oldest-older :
    (line : Line) (lines : List Line) (way victim used v : ℕ)
    → line.last_used ≤ used
    → Oldest lines (suc way) way line.last_used v
    → Oldest (line ∷ lines) way victim used v
Oldest-older line lines way victim used v l (inl (e, a)) =
    inr (0, line, omega arith, refl, l, (omega arith, a))
Oldest-older line lines way victim used v l (inr (i, x, e, at, le, a)) =
    inr (suc i, x, omega arith, at, omega arith, (le, a))

Oldest-younger :
    (line : Line) (lines : List Line) (way victim used v : ℕ)
    → used ≤ line.last_used
    → Oldest lines (suc way) victim used v
    → Oldest (line ∷ lines) way victim used v
Oldest-younger line lines way victim used v l (inl (e, a)) = inl (e, (l, a))
Oldest-younger line lines way victim used v l (inr (i, x, e, at, le, a)) =
    inr (suc i, x, omega arith, at, le, (omega arith, a))

older_le :
    (line : Line) (used : ℕ)
    → IsUsed line
    → (not line.valid || ltb line.last_used used) ≡ true
    → line.last_used ≤ used
older_le line used u h = elim (Bool-cases line.valid) [
  | inl e ↦ let k : ltb line.last_used used ≡ true = rw e at h in ground arith
  | inr e ↦ omega (arith, u e)
]

younger_le :
    (line : Line) (used : ℕ)
    → (not line.valid || ltb line.last_used used) ≡ false
    → used ≤ line.last_used
younger_le line used h = elim (Bool-cases line.valid) [
  | inl e ↦ let k : ltb line.last_used used ≡ false = rw e at h in ground arith
  | inr e ↦ absurd (true-ne-false (rw e at h))
]

find_way-Oldest :
    (tag : ℕ) (lines : List Line) (way victim used v : ℕ)
    → All IsUsed lines
    → find_way tag lines way victim used ≡ miss v
    → Oldest lines way victim used v
unfolding find_way
find_way-Oldest tag [] way victim used v u h = inl (sym (miss_injective h), tt)
find_way-Oldest tag (line ∷ lines) way victim used v u h = elim (Bool-cases (matches tag line)) [
  | inl e ↦ absurd (miss-ne-hit (sym (rw e at h)))
  | inr e ↦ elim (Bool-cases (not line.valid || ltb line.last_used used)) [
    | inl o ↦
        Oldest-older line lines way victim used v (older_le line used u.0 o)
          (find_way-Oldest tag lines (suc way) way line.last_used v u.1 (rw (e, o) at h))
    | inr o ↦
        Oldest-younger line lines way victim used v (younger_le line used o)
          (find_way-Oldest tag lines (suc way) victim used v u.1 (rw (e, o) at h))
  ]
]

pub Found-cases : (f : Found) → ((w : ℕ) × (f ≡ hit w)) ⊎ ((v : ℕ) × (f ≡ miss v))
Found-cases (hit w) = inl (w, refl)
Found-cases (miss v) = inr (v, refl)

pub any-get :
    (p : Line → Bool) (lines : List Line) (i : ℕ) (line : Line)
    → get_elem? lines i ≡ some line
    → p line ≡ true
    → any p lines ≡ true
any-get p [] i line e h = cc
any-get p (x ∷ lines) zero line e h = rw (some_injective e, h) refl
any-get p (x ∷ lines) (suc i) line e h = elim (Bool-cases (p x)) [
  | inl t ↦ rw t refl
  | inr t ↦ rw t (any-get p lines i line e h)
]

-- An access to a set hits exactly when a valid line of the set has the tag.
pub access_set-hits :
    (clock tag : ℕ) (lines : List Line) → (access_set clock tag lines).1 ≡ any (matches tag) lines
unfolding access_set
access_set-hits clock tag lines = elim (Found-cases (find_way tag lines 0 0 (first_used lines))) [
  | inl (w, e) ↦
      let (i, line, _, at, m) = find_way-hit tag lines 0 0 _ w e in
      rw (e, any-get (matches tag) lines i line at m, access_set) refl
  | inr (v, e) ↦ rw (e, find_way-miss tag lines 0 0 _ v e, access_set) refl
]

-- In a set with at least one line, in which a line that is not valid was never used: the line that an access
-- fills, when no valid line has the tag, is a least recently used one.
pub access_set-victim :
    (clock tag : ℕ) (lines : List Line)
    → All IsUsed lines
    → 0 < length lines
    → any (matches tag) lines ≡ false
    → (v : ℕ) × (line : Line) × (get_elem? lines v ≡ some line)
      × All (UsedAfter line.last_used) lines
      × (access_set clock tag lines
          ≡ (update lines v (λ _. record { tag = tag; last_used = clock; valid = true }), false))
unfolding access_set
access_set-victim clock tag [] u p h = absurd (omega arith)
access_set-victim clock tag (x ∷ xs) u p h =
    elim (Found-cases (find_way tag (x ∷ xs) 0 0 x.last_used)) [
      | inl (w, e) ↦
          let (i, line, _, at, m) = find_way-hit tag (x ∷ xs) 0 0 _ w e in
          absurd (true-ne-false (sym (any-get (matches tag) (x ∷ xs) i line at m) ∙ h))
      | inr (v, e) ↦ elim (find_way-Oldest tag (x ∷ xs) 0 0 x.last_used v u e) [
        | inl (z, a) ↦ (0, x, refl, a, rw (e, z, access_set) refl)
        | inr (i, line, z, at, _, a) ↦
            let at_v : v ≡ i = omega arith in (v, line, rw at_v at, a, rw (e, access_set) refl)
      ]
    ]
