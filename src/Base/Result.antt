-- ===== src/Base/Result.antt =====
-- A result that may be an exception with its message.
use Prim.Native.String.{String}
use mathlib.Core.Path.{◌≡◌, refl}
use mathlib.Core.Bool.{Bool, true, false}

pub data Result {ℓ} (A : Type ℓ) : Type ℓ where
  throw : String → Result A
  ok : A → Result A

-- `if (c) throw message;`
abbrev pub throw_if : Bool → String → Result (Unit {0})
throw_if false message = ok tt
throw_if true message = throw message

module _ {ℓ κ} {A : Type ℓ} {B : Type κ} where
  infixl 5 ◌>>=◌
  abbrev pub ◌>>=◌ : Result A → (A → Result B) → Result B
  throw message >>= next = throw message
  ok a >>= next = next a

  -- What a run that came to its end went through.
  pub >>=-eq-ok :
      (first : Result A) (next : A → Result B) {b : B}
      → (first >>= next) ≡ ok b
      → (a : A) × (first ≡ ok a) × (next a ≡ ok b)
  >>=-eq-ok (throw message) next e = cc
  >>=-eq-ok (ok a) next e = (a, refl, e)

-- A check before the rest.
infixl 5 ◌>>◌
abbrev pub ◌>>◌ {κ} : {B : Type κ} → Result (Unit {0}) → Result B → Result B
check >> rest = check >>= (λ _. rest)

module _ {ℓ} {A : Type ℓ} {a : A} where
  pub throw-ne-ok : {message : String} → throw message ≡ ok a → ⊥
  throw-ne-ok e = cc

  pub ok-injective : {b : A} → ok a ≡ ok b → a ≡ b
  ok-injective e = cc
