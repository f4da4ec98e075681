-- ===== src/Graph/Shapes/Agreement.antt =====
-- What the type that shape inference gives one output depends on.
use sched_forge.Base.{
  ℕ, suc, ◌≤◌, ◌<◌, ◌≡◌, refl, ap, ◌∙◌, some, Option-cases, List, [], ◌∷◌, All, get_elem?, inl, inr,
  subst, All-get,
}
use sched_forge.Base.Result.{ok, >>=-eq-ok, ok-injective, throw-ne-ok}
use sched_forge.Graph.Types.{Dimension, GraphTensorType, GraphValue, GraphOperation}
use sched_forge.Graph.Fusion.{at}
use sched_forge.Graph.Shapes.{
  ShapeConstraint, Inferred, Rule, product, widest, same, projection, first_if_empty,
  joined_if_empty, attention, untouched, input_type, infer_if_empty, infer,
}

-- Every operation reads values in front of its first output, and the first outputs of the operations come in
-- strictly increasing order. `addOperation` numbers the values so, but does not compare its inputs with the
-- output.
abbrev pub IsOrderedOperation : ℕ → List ℕ → List ℕ → Type 0
IsOrderedOperation bound inputs [] = Unit
IsOrderedOperation bound inputs (v ∷ _) = (bound ≤ v) × All (λ i. i < v) inputs

abbrev pub next_bound : ℕ → List ℕ → ℕ
next_bound bound [] = bound
next_bound bound (v ∷ _) = suc v

abbrev pub IsOrdered : ℕ → List GraphOperation → Type 0
IsOrdered bound [] = Unit
IsOrdered bound (o ∷ os) =
    IsOrderedOperation bound o.inputs o.outputs × IsOrdered (next_bound bound o.outputs) os

-- Two lists of values with the same entries below a bound.
abbrev pub Agree : ℕ → List GraphValue → List GraphValue → Type 0
Agree bound us vs = (i : ℕ) → i < bound → get_elem? us i ≡ get_elem? vs i

pub at-eq {ℓ} :
    {A : Type ℓ} (xs : List A) (i : ℕ) {x : A} → at xs i ≡ ok x → get_elem? xs i ≡ some x
at-eq xs i e = elim (Option-cases (get_elem? xs i)) [
  | inl n ↦ absurd (throw-ne-ok (rw (n, at) at e))
  | inr (y, s) ↦ s ∙ ap some (ok-injective (rw (s, at) at e))
]

input_type-Agree :
    (bound : ℕ) (us vs : List GraphValue) (inputs : List ℕ) (position : ℕ)
    → Agree bound us vs
    → All (λ i. i < bound) inputs
    → input_type us inputs position ≡ input_type vs inputs position
unfolding input_type
input_type-Agree bound us vs inputs position agree below =
    elim (Option-cases (get_elem? inputs position)) [
      | inl e ↦ rw (e, input_type, at) refl
      | inr (v, e) ↦
          rw (e, input_type, at, agree v (All-get (λ i. i < bound) inputs position e below)) refl
    ]

if_empty-Agree :
    (us vs : List GraphValue) (inputs : List ℕ) (output : GraphTensorType) (shape : List Dimension)
    → input_type us inputs 0 ≡ input_type vs inputs 0
    → infer_if_empty us inputs output shape ≡ infer_if_empty vs inputs output shape
unfolding infer_if_empty
if_empty-Agree us vs inputs output [] e = rw (e, infer_if_empty) refl
if_empty-Agree us vs inputs output (_ ∷ _) e = refl

pub infer-Agree :
    (rule : Rule) (bound : ℕ) (us vs : List GraphValue) (inputs : List ℕ) (output : GraphTensorType)
    → Agree bound us vs
    → All (λ i. i < bound) inputs
    → infer rule us inputs output ≡ infer rule vs inputs output
unfolding infer
infer-Agree rule bound us vs inputs output agree below = by_rule rule
  where
    same_at : (position : ℕ) → input_type us inputs position ≡ input_type vs inputs position
    same_at position = input_type-Agree bound us vs inputs position agree below

    by_rule : (r : Rule) → infer r us inputs output ≡ infer r vs inputs output
    by_rule product = rw (infer, same_at 0, same_at 1) refl
    by_rule widest = rw (infer, same_at 0, same_at 1) refl
    by_rule same = rw (infer, same_at 0) refl
    by_rule projection = rw (infer, same_at 0, same_at 1) refl
    by_rule joined_if_empty =
        rw (infer, if_empty-Agree us vs inputs output output.shape (same_at 0)) refl
    by_rule attention = rw (infer, same_at 0, same_at 1, same_at 2) refl
    by_rule first_if_empty = if_empty-Agree us vs inputs output output.shape (same_at 0)
    by_rule untouched = refl

-- The type found is found again when the output already has it.
abbrev pub IsFoundAgain : Rule → List GraphValue → List ℕ → GraphTensorType → Type 0
IsFoundAgain rule values inputs t =
    (c : List ShapeConstraint) × (infer rule values inputs t
      ≡ ok (record { type = t; constraints = c }))

if_empty-found :
    (values : List GraphValue) (inputs : List ℕ) (output : GraphTensorType) (shape : List Dimension)
    {found : Inferred}
    → output.shape ≡ shape
    → infer_if_empty values inputs output shape ≡ ok found
    → (c : List ShapeConstraint) × (infer_if_empty values inputs found.type found.type.shape
        ≡ ok (record { type = found.type; constraints = c }))
unfolding infer_if_empty
if_empty-found values inputs output [] {found} s e =
    let (t, read, e2) =
      >>=-eq-ok (input_type values inputs 0)
        (λ (t : GraphTensorType). ok (record { type = t; constraints = [] })) e in
    let same_type : t ≡ found.type = ap (λ (f : Inferred). f.type) (ok-injective e2) in
    (
      _,
      again found.type.shape found.type
          (subst (λ u. input_type values inputs 0 ≡ ok u) same_type read),
    )
  where
    again :
        (shape : List Dimension) (u : GraphTensorType)
        → input_type values inputs 0 ≡ ok u
        → infer_if_empty values inputs u shape ≡ ok (record { type = u; constraints = [] })
    again [] u read = rw (read, infer_if_empty) refl
    again (_ ∷ _) u read = refl
if_empty-found values inputs output (d ∷ shape) {found} s e =
    let same_type : output ≡ found.type = ap (λ (f : Inferred). f.type) (ok-injective e) in
    (
      [],
      subst
          (λ (u : GraphTensorType).
            infer_if_empty values inputs u u.shape ≡ ok (record { type = u; constraints = [] }))
          same_type (rw s refl),
    )

pub infer-found :
    (rule : Rule) (values : List GraphValue) (inputs : List ℕ) (output : GraphTensorType)
    {found : Inferred}
    → infer rule values inputs output ≡ ok found
    → IsFoundAgain rule values inputs found.type
unfolding infer
infer-found product values inputs output {found} e = (found.constraints, e)
infer-found widest values inputs output {found} e = (found.constraints, e)
infer-found same values inputs output {found} e = (found.constraints, e)
infer-found projection values inputs output {found} e = (found.constraints, e)
infer-found attention values inputs output {found} e = (found.constraints, e)
infer-found untouched values inputs output e = ([], refl)
infer-found first_if_empty values inputs output e =
    if_empty-found values inputs output output.shape refl e
infer-found joined_if_empty values inputs output {found} e = by_inputs inputs e
  where
    by_inputs :
        (ins : List ℕ)
        → infer joined_if_empty values ins output ≡ ok found
        → IsFoundAgain joined_if_empty values ins found.type
    by_inputs [] e = absurd (throw-ne-ok e)
    by_inputs (i ∷ ins) e = if_empty-found values (i ∷ ins) output output.shape refl e
