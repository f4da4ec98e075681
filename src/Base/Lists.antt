-- ===== src/Base/Lists.antt =====
-- Lists measured and indexed by native numbers, and the folds that the components share.
use Prim.Native.Nat.{ℕ, zero, suc, ◌+◌, ◌<◌, ◌≤◌}
use mathlib.Core.Path.{◌≡◌, refl, ap}
use mathlib.Core.Logic.{◌≢◌}
use mathlib.Core.Bool.{Bool, false, ◌||◌}
use mathlib.Core.List.{List, [], ◌∷◌, ◌++◌}
use mathlib.Core.Option.{Option, none, some}
use native.Mathlib.Omega.{arith}
use sched_forge.Base.Tests.{◌==◌, if◌then◌else◌}

module _ {ℓ} {A : Type ℓ} where
  abbrev pub length : List A → ℕ
  length [] = 0
  length (x ∷ xs) = suc (length xs)

  abbrev pub get_elem? : List A → ℕ → Option A
  get_elem? [] i = none
  get_elem? (x ∷ xs) zero = some x
  get_elem? (x ∷ xs) (suc i) = get_elem? xs i

  -- A write out of bounds changes nothing.
  abbrev pub set : List A → ℕ → A → List A
  set [] i v = []
  set (x ∷ xs) zero v = v ∷ xs
  set (x ∷ xs) (suc i) v = x ∷ set xs i v

  -- The list with `f` applied at position `i`.
  abbrev pub update : List A → ℕ → (A → A) → List A
  update [] i f = []
  update (x ∷ xs) zero f = f x ∷ xs
  update (x ∷ xs) (suc i) f = x ∷ update xs i f

  abbrev pub any : (A → Bool) → List A → Bool
  any p [] = false
  any p (x ∷ xs) = p x || any p xs

  abbrev pub find_if : (A → Bool) → List A → Option A
  find_if p [] = none
  find_if p (x ∷ xs) = if p x then some x else find_if p xs

  pub length-append : (xs ys : List A) → length (xs ++ ys) ≡ length xs + length ys
  length-append [] ys = omega arith
  length-append (x ∷ xs) ys = omega (arith, length-append xs ys)

module _ {ℓ} {A : Type ℓ} where
  pub length-set : (xs : List A) (i : ℕ) (v : A) → length (set xs i v) ≡ length xs
  length-set [] i v = refl
  length-set (x ∷ xs) zero v = refl
  length-set (x ∷ xs) (suc i) v = ap suc (length-set xs i v)

  pub length-update : (xs : List A) (i : ℕ) (f : A → A) → length (update xs i f) ≡ length xs
  length-update [] i f = refl
  length-update (x ∷ xs) zero f = refl
  length-update (x ∷ xs) (suc i) f = ap suc (length-update xs i f)

  pub get_elem?-set_self :
      (xs : List A) (i : ℕ) (v : A) → i < length xs → get_elem? (set xs i v) i ≡ some v
  get_elem?-set_self [] i v h = elim h [ ]
  get_elem?-set_self (x ∷ xs) zero v h = refl
  get_elem?-set_self (x ∷ xs) (suc i) v h = get_elem?-set_self xs i v (omega arith)

  pub get_elem?-set_ne :
      (xs : List A) {i j : ℕ} (v : A) → i ≢ j → get_elem? (set xs i v) j ≡ get_elem? xs j
  get_elem?-set_ne [] v h = refl
  get_elem?-set_ne (x ∷ xs) {i = zero} {j = zero} v h = absurd (h refl)
  get_elem?-set_ne (x ∷ xs) {i = zero} {j = suc j} v h = refl
  get_elem?-set_ne (x ∷ xs) {i = suc i} {j = zero} v h = refl
  get_elem?-set_ne (x ∷ xs) {i = suc i} {j = suc j} v h = get_elem?-set_ne xs v (λ e. h (ap suc e))

  pub lt_of_get : (xs : List A) (i : ℕ) (x : A) → get_elem? xs i ≡ some x → i < length xs
  lt_of_get [] i x e = cc
  lt_of_get (y ∷ xs) zero x e = omega arith
  lt_of_get (y ∷ xs) (suc i) x e = omega (arith, lt_of_get xs i x e)

  pub length_of_get : (xs : List A) (i : ℕ) → get_elem? xs i ≡ none → length xs ≤ i
  length_of_get [] i e = omega arith
  length_of_get (x ∷ xs) zero e = cc
  length_of_get (x ∷ xs) (suc i) e = omega (arith, length_of_get xs i e)

  pub get_elem?-append_left :
      (xs ys : List A) (i : ℕ) → i < length xs → get_elem? (xs ++ ys) i ≡ get_elem? xs i
  get_elem?-append_left [] ys i h = elim h [ ]
  get_elem?-append_left (x ∷ xs) ys zero h = refl
  get_elem?-append_left (x ∷ xs) ys (suc i) h = get_elem?-append_left xs ys i (omega arith)

  pub get_elem?-length :
      (xs : List A) (y : A) (ys : List A) → get_elem? (xs ++ y ∷ ys) (length xs) ≡ some y
  get_elem?-length [] y ys = refl
  get_elem?-length (x ∷ xs) y ys = get_elem?-length xs y ys

module _ {ℓ} {A : Type ℓ} where
  pub get_elem?-lt : (xs : List A) (i : ℕ) → i < length xs → (x : A) × (get_elem? xs i ≡ some x)
  get_elem?-lt [] i h = elim h [ ]
  get_elem?-lt (x ∷ xs) zero h = (x, refl)
  get_elem?-lt (x ∷ xs) (suc i) h = get_elem?-lt xs i (omega arith)

  pub get_elem?-update :
      (xs : List A) (i : ℕ) (f : A → A) {x : A}
      → get_elem? xs i ≡ some x
      → get_elem? (update xs i f) i ≡ some (f x)
  get_elem?-update [] i f h = cc
  get_elem?-update (y ∷ xs) zero f h = cc
  get_elem?-update (y ∷ xs) (suc i) f h = get_elem?-update xs i f h

module _ {ℓ κ} {A : Type ℓ} {B : Type κ} where
  abbrev pub foldl : (B → A → B) → B → List A → B
  foldl f b [] = b
  foldl f b (x ∷ xs) = foldl f (f b x) xs

  pub foldl-append :
      (f : B → A → B) (b : B) (xs ys : List A) → foldl f b (xs ++ ys) ≡ foldl f (foldl f b xs) ys
  foldl-append f b [] ys = refl
  foldl-append f b (x ∷ xs) ys = foldl-append f (f b x) xs ys

-- How often a number occurs.
abbrev pub count : ℕ → List ℕ → ℕ
count a [] = 0
count a (x ∷ xs) = if x == a then count a xs + 1 else count a xs

pub count-append : (a : ℕ) (us vs : List ℕ) → count a (us ++ vs) ≡ count a us + count a vs
count-append a [] vs = omega arith
count-append a (u ∷ us) vs = ground (arith, count-append a us vs)

-- A list inside the element at a position, or nothing out of range.
unfoldable pub list_at {ℓ} : {A : Type ℓ} → (A → List ℕ) → List A → ℕ → List ℕ
list_at f xs i = elim (get_elem? xs i) [ none ↦ [] | some x ↦ f x ]

module _ {ℓ} {A : Type ℓ} (f : A → List ℕ) where
  pub list_at-snoc :
      (xs : List A) (y : A) (i : ℕ)
      → list_at f (xs ++ y ∷ []) i ≡ (if i == length xs then f y else list_at f xs i)
  unfolding list_at
  list_at-snoc [] y zero = refl
  list_at-snoc [] y (suc i) = ground arith
  list_at-snoc (x ∷ xs) y zero = ground arith
  list_at-snoc (x ∷ xs) y (suc i) = ground (arith, list_at-snoc xs y i)

  pub list_at_out : (xs : List A) (i : ℕ) → length xs ≤ i → list_at f xs i ≡ []
  unfolding list_at
  list_at_out [] i h = refl
  list_at_out (x ∷ xs) zero h = absurd (omega arith)
  list_at_out (x ∷ xs) (suc i) h = list_at_out xs i (omega arith)

  pub list_at-update :
      (xs : List A) (i j : ℕ) (g : A → A)
      → i < length xs
      → (append : List ℕ) → ((x : A) → f (g x) ≡ f x ++ append)
      → list_at f (update xs i g) j ≡ (if j == i then list_at f xs j ++ append else list_at f xs j)
  unfolding list_at
  list_at-update [] i j g h append e = elim h [ ]
  list_at-update (x ∷ xs) zero zero g h append e = e x
  list_at-update (x ∷ xs) zero (suc j) g h append e = ground arith
  list_at-update (x ∷ xs) (suc i) zero g h append e = ground arith
  list_at-update (x ∷ xs) (suc i) (suc j) g h append e =
      ground (arith, list_at-update xs i j g (omega arith) append e)

  pub list_at-nil : (i : ℕ) → list_at f [] i ≡ []
  unfolding list_at
  list_at-nil i = refl

  -- A new element without a list changes nothing.
  pub list_at-snoc_nil :
      (xs : List A) (y : A) (i : ℕ) → f y ≡ [] → list_at f (xs ++ y ∷ []) i ≡ list_at f xs i
  list_at-snoc_nil xs y i e = ground (arith, list_at-snoc xs y i, list_at_out xs i)
