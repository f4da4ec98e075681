-- ===== src/Base/Predicates.antt =====
-- Predicates on all elements and on all pairs of a list, by recursion.
use Prim.Native.Nat.{ℕ, zero, suc}
use mathlib.Core.Path.{◌≡◌, sym, subst}
use mathlib.Core.Logic.{inl, inr, ◌≢◌}
use mathlib.Core.Bool.{Bool, true, false}
use mathlib.Core.Option.{some}
use mathlib.Core.List.{List, [], ◌∷◌, ◌++◌}
use sched_forge.Base.Tests.{Bool-cases, some_injective}
use sched_forge.Base.Lists.{find_if, get_elem?, update}

abbrev pub All {ℓ κ} : {A : Type ℓ} → (A → Type κ) → List A → Type κ
All P [] = Unit
All P (x ∷ xs) = P x × All P xs

abbrev pub Pairwise {ℓ κ} : {A : Type ℓ} → (A → A → Type κ) → List A → Type κ
Pairwise R [] = Unit
Pairwise R (x ∷ xs) = All (R x) xs × Pairwise R xs

pub All-snoc {ℓ κ} :
    {A : Type ℓ} (P : A → Type κ) (xs : List A) (y : A) → All P xs → P y → All P (xs ++ y ∷ [])
All-snoc P [] y h p = (p, tt)
All-snoc P (x ∷ xs) y h p = (h.0, All-snoc P xs y h.1 p)

pub All-map {ℓ κ μ} :
    {A : Type ℓ} (P : A → Type κ) (Q : A → Type μ) (xs : List A)
    → ((x : A) → P x → Q x)
    → All P xs
    → All Q xs
All-map P Q [] f h = tt
All-map P Q (x ∷ xs) f h = (f x h.0, All-map P Q xs f h.1)

pub find_if-All {ℓ κ} :
    {A : Type ℓ} (P : A → Type κ) (p : A → Bool) (xs : List A) {y : A}
    → find_if p xs ≡ some y
    → All P xs
    → P y
find_if-All P p [] e h = cc
find_if-All P p (x ∷ xs) {y} e h = elim (Bool-cases (p x)) [
  | inl t ↦ subst P (some_injective (rw t at e)) h.0
  | inr t ↦ find_if-All P p xs (rw t at e) h.1
]

pub All-and {ℓ κ μ} :
    {A : Type ℓ} (P : A → Type κ) (Q : A → Type μ) (xs : List A)
    → All P xs
    → All Q xs
    → All (λ x. P x × Q x) xs
All-and P Q [] h k = tt
All-and P Q (x ∷ xs) h k = ((h.0, k.0), All-and P Q xs h.1 k.1)

-- A new last element.
pub Pairwise-snoc {ℓ κ} :
    {A : Type ℓ} (R : A → A → Type κ) (xs : List A) (y : A)
    → Pairwise R xs
    → All (λ x. R x y) xs
    → Pairwise R (xs ++ y ∷ [])
Pairwise-snoc R [] y h k = (tt, tt)
Pairwise-snoc R (x ∷ xs) y h k = (All-snoc (R x) xs y h.0 k.0, Pairwise-snoc R xs y h.1 k.1)

pub All-get {ℓ κ} :
    {A : Type ℓ} (P : A → Type κ) (xs : List A) (i : ℕ) {x : A}
    → get_elem? xs i ≡ some x
    → All P xs
    → P x
All-get P [] i e h = cc
All-get P (y ∷ xs) zero e h = subst P (some_injective e) h.0
All-get P (y ∷ xs) (suc i) e h = All-get P xs i e h.1

-- The element at `i` is changed into one with the property.
pub All-update {ℓ κ} :
    {A : Type ℓ} (P : A → Type κ) (xs : List A) (i : ℕ) (f : A → A) {x : A}
    → get_elem? xs i ≡ some x
    → P (f x)
    → All P xs
    → All P (update xs i f)
All-update P [] i f e p h = tt
All-update P (y ∷ xs) zero f e p h = (subst (λ z. P (f z)) (sym (some_injective e)) p, h.1)
All-update P (y ∷ xs) (suc i) f e p h = (h.0, All-update P xs i f e p h.1)

pub find_if-holds {ℓ} :
    {A : Type ℓ} (p : A → Bool) (xs : List A) {y : A} → find_if p xs ≡ some y → p y ≡ true
find_if-holds p [] e = cc
find_if-holds p (x ∷ xs) e = elim (Bool-cases (p x)) [
  | inl t ↦ subst (λ z. p z ≡ true) (some_injective (rw t at e)) t
  | inr t ↦ find_if-holds p xs (rw t at e)
]

pub true-ne-false : true ≢ false
true-ne-false h = cc
