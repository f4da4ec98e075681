-- ===== src/Base/Rows.antt =====
-- Row-major numbering: `a * n + x` numbers the pairs of a row and a column below `n`.
use native.Mathlib.Nat.{mul-le-mul_right, mul-add-div_right, div-eq_of_lt}
use Prim.Native.Nat.{ℕ, suc, ◌+◌, ◌*◌, ◌/◌, ◌≤◌, ◌<◌}
use mathlib.Core.Path.{◌≡◌, sym, ap, ◌∙◌}
use native.Mathlib.Omega.{arith}

pub row-lt : (m n a x : ℕ) → a < m → x < n → a * n + x < m * n
row-lt m n a x h k = let p : suc a * n ≤ m * n = mul-le-mul_right n h in omega arith

row-div : (n a x : ℕ) → x < n → (a * n + x) / n ≡ a
row-div n a x k =
    let e = mul-add-div_right {m = n} (omega arith) a x in let z = div-eq_of_lt k in omega arith

pub row_injective : (n a b x y : ℕ) → x < n → y < n → a * n + x ≡ b * n + y → (a ≡ b) × (x ≡ y)
row_injective n a b x y h k e =
    let same : a ≡ b = sym (row-div n a x h) ∙ ap (λ i. i / n) e ∙ row-div n b y k in
    let products : a * n ≡ b * n = ap (λ i. i * n) same in (same, omega arith)
