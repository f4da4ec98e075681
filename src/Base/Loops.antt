-- ===== src/Base/Loops.antt =====
-- Counted loops, what they keep and what one round of them leaves behind; and the last element of a
-- vector, which is its end to push to and to pop from.
use Prim.Native.Nat.{ℕ, zero, suc, ◌<◌}
use mathlib.Core.Path.{◌≡◌, refl, ap, ◌∙◌, subst}
use mathlib.Core.Logic.{◌≢◌, inl, inr}
use mathlib.Core.Option.{Option, none, some}
use mathlib.Core.List.{List, [], ◌∷◌, ◌++◌}
use native.Mathlib.Omega.{arith}
use sched_forge.Base.Lists.{length, get_elem?}
use sched_forge.Base.Tests.{◌==◌, ==_iff, Bool-cases}

-- `for (i = 0; i < n; ++i) s = body(i, s);`
unfoldable pub for_range {ℓ} : {S : Type ℓ} → ℕ → (ℕ → S → S) → S → S
for_range zero body s = s
for_range (suc n) body s = body n (for_range n body s)

pub for_range-keep {ℓ κ} :
    {S : Type ℓ} (P : S → Type κ) (n : ℕ) (body : ℕ → S → S)
    → ((i : ℕ) → i < n → (s : S) → P s → P (body i s))
    → (s : S) → P s
    → P (for_range n body s)
unfolding for_range
for_range-keep P zero body keep s p = p
for_range-keep P (suc n) body keep s p =
    keep n (omega arith) (for_range n body s)
      (for_range-keep P n body (λ i h. keep i (omega arith)) s p)

-- Round `k` leaves `Q` behind, and no other round takes it back.
pub for_range-leaves {ℓ κ μ} :
    {S : Type ℓ} (P : S → Type κ) (Q : S → Type μ) (n k : ℕ) (body : ℕ → S → S)
    → k < n
    → ((i : ℕ) → i < n → (s : S) → P s → P (body i s))
    → ((s : S) → P s → Q (body k s))
    → ((i : ℕ) → i < n → i ≢ k → (s : S) → Q s → Q (body i s))
    → (s : S) → P s
    → Q (for_range n body s)
unfolding for_range
for_range-leaves P Q zero k body h keep does undo s p = absurd (omega arith)
for_range-leaves P Q (suc n) k body h keep does undo s p = elim (Bool-cases (k == n)) [
  | inl t ↦
      let e : k ≡ n = (==_iff k n).0 t in
      subst (λ j. Q (body j (for_range n body s))) e
        (does (for_range n body s) (for_range-keep P n body (λ i l. keep i (omega arith)) s p))
  | inr f ↦ undo n (omega arith) (ground arith) (for_range n body s) (
      for_range-leaves P Q n k body (ground arith) (λ i l. keep i (omega arith)) does
        (λ i l. undo i (omega arith)) s p)
]

-- A loop on a part of the state.
pub for_range-part {ℓ κ} :
    {S : Type ℓ} {T : Type κ} (part : S → T) (n : ℕ) (f : ℕ → S → S) (g : ℕ → T → T)
    → ((i : ℕ) (s : S) → part (f i s) ≡ g i (part s))
    → (s : S) → part (for_range n f s) ≡ for_range n g (part s)
unfolding for_range
for_range-part part zero f g e s = refl
for_range-part part (suc n) f g e s =
    e n (for_range n f s) ∙ ap (g n) (for_range-part part n f g e s)

module _ {ℓ} {A : Type ℓ} where
  -- `v.back()`, nothing for an empty vector.
  unfoldable pub back : List A → Option A
  back [] = none
  back (x ∷ []) = some x
  back (x ∷ y ∷ ys) = back (y ∷ ys)

  unfoldable pub pop_back : List A → List A
  pop_back [] = []
  pop_back (x ∷ []) = []
  pop_back (x ∷ y ∷ ys) = x ∷ pop_back (y ∷ ys)

  pub pop_back-back : (xs : List A) {x : A} → back xs ≡ some x → xs ≡ pop_back xs ++ x ∷ []
  unfolding back pop_back
  pop_back-back [] h = cc
  pop_back-back (x ∷ []) h = cc
  pop_back-back (x ∷ y ∷ ys) h = ap (λ r. x ∷ r) (pop_back-back (y ∷ ys) h)

  pub back-none : (xs : List A) → back xs ≡ none → xs ≡ []
  unfolding back
  back-none [] h = refl
  back-none (x ∷ []) h = cc
  back-none (x ∷ y ∷ ys) h = absurd (cons-ne (back-none (y ∷ ys) h))
    where
      cons-ne : y ∷ ys ≡ [] → ⊥
      cons-ne e = cc

  pub length-pop_back :
      (xs : List A) {x : A} → back xs ≡ some x → suc (length (pop_back xs)) ≡ length xs
  unfolding back pop_back
  length-pop_back [] h = cc
  length-pop_back (x ∷ []) h = refl
  length-pop_back (x ∷ y ∷ ys) h = ap suc (length-pop_back (y ∷ ys) h)

  -- Popping leaves what stands before the end.
  pub get_elem?-pop_back :
      (xs : List A) (i : ℕ) → suc i < length xs → get_elem? (pop_back xs) i ≡ get_elem? xs i
  unfolding pop_back
  get_elem?-pop_back [] i h = refl
  get_elem?-pop_back (x ∷ []) i h = absurd (omega arith)
  get_elem?-pop_back (x ∷ y ∷ ys) zero h = refl
  get_elem?-pop_back (x ∷ y ∷ ys) (suc i) h = get_elem?-pop_back (y ∷ ys) i (omega arith)
