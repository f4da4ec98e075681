-- ===== src/Graph/Planner/Cover.antt =====
-- The operations that one dispatch of `FusionPlanner::run` takes.
use sched_forge.Base.{
  ℕ, zero, suc, ◌+◌, ◌≤◌, ◌<◌, ◌≡◌, ◌⊎◌, inl, inr, refl, sym, ◌∙◌, ap, subst, Bool, true, false,
  Bool-cases, ◌&&◌, none, some, List, [], ◌∷◌, length, get_elem?, set, count, ltb, leb, ◌==◌,
  if◌then◌else◌, arith, String,
}
use sched_forge.Base.Result.{ok, ◌>>=◌, >>=-eq-ok, ok-injective}
use sched_forge.Graph.Types.{
  GraphOpKind, add, gelu, maximum, mat_mul, GraphValue, GraphOperation, TensorGraph,
}
use sched_forge.Graph.Fusion.{at, is_fusable, is_only_user, legal_outputs, legal, grow, joined}
use sched_forge.Graph.Fusion.Uses.{at-eq-ok, joined-cases}
use sched_forge.Graph.Planner.{
  PlannedDispatch, add_epilogue, add_inputs, describe, is_mat_mul, last_of, mark, is_marked,
  make_dispatch,
}

-- Whether the operation at a position is a matrix product.
abbrev pub is_product : TensorGraph → ℕ → Bool
is_product g i = elim (get_elem? g.operations i) [ none ↦ false | some o ↦ is_mat_mul o.kind ]

-- Operations one after the other, none of them a matrix product.
abbrev pub IsRunOn : TensorGraph → ℕ → List ℕ → Type 0
IsRunOn g current [] = Unit
IsRunOn g current (o ∷ os) = (o ≡ suc current) × (is_product g o ≡ false) × IsRunOn g o os

fusable-no_product : (kind : GraphOpKind) → is_fusable kind ≡ true → is_mat_mul kind ≡ false
fusable-no_product add e = refl
fusable-no_product gelu e = refl
fusable-no_product maximum e = refl
fusable-no_product mat_mul e = cc
fusable-no_product _ e = cc

&&-right : (a b : Bool) → (a && b) ≡ true → b ≡ true
&&-right true b e = e
&&-right false b e = cc

legal-no_product :
    (g : TensorGraph) (producer consumer : ℕ)
    → legal g producer consumer ≡ ok true
    → is_product g consumer ≡ false
unfolding legal legal_outputs
legal-no_product g producer consumer h =
    let (p, first, rest) =
      >>=-eq-ok (at g.operations producer)
        (λ (p : GraphOperation).
          at g.operations consumer
          >>= (λ (c : GraphOperation). legal_outputs g p.outputs c.kind consumer))
        h in
    let (c, second, last) =
      >>=-eq-ok (at g.operations consumer)
        (λ (c : GraphOperation). legal_outputs g p.outputs c.kind consumer) rest in
    let at_consumer = at-eq-ok g.operations consumer second in
    rw (at_consumer, is_product) (fusable-no_product c.kind (fusable p.outputs c.kind last))
  where
    fusable :
        (outputs : List ℕ) (kind : GraphOpKind)
        → legal_outputs g outputs kind consumer ≡ ok true
        → is_fusable kind ≡ true
    fusable [] kind e = cc
    fusable (v ∷ others) kind e =
        let (value, _, last) =
          >>=-eq-ok (at g.values v)
            (λ (value : GraphValue). ok (is_only_user consumer value.users && is_fusable kind)) e in
        &&-right (is_only_user consumer value.users) (is_fusable kind) (ok-injective last)

pub grow-IsRunOn :
    (g : TensorGraph) (fuel current : ℕ) {os : List ℕ}
    → grow g fuel current ≡ ok os
    → IsRunOn g current os
unfolding grow
grow-IsRunOn g zero current h = subst (IsRunOn g current) (ok-injective h) tt
grow-IsRunOn g (suc fuel) current {os} h =
    elim (Bool-cases (ltb (suc current) (length g.operations))) [
      | inr e ↦ subst (IsRunOn g current) (ok-injective (rw (e, grow) at h)) tt
      | inl e ↦
          let (b, is_legal, k) =
            >>=-eq-ok (legal g current (suc current))
              (joined (suc current) (grow g fuel (suc current))) (rw (e, grow) at h) in
          elim (joined-cases (suc current) (grow g fuel (suc current)) b k) [
            | inl (refused, empty) ↦ subst (IsRunOn g current) (sym empty) tt
            | inr (allowed, (tail, r, all)) ↦ subst (IsRunOn g current) (sym all) (
              refl,
              legal-no_product g current (suc current) (is_legal ∙ ap ok allowed),
              grow-IsRunOn g fuel (suc current) r,
            )
          ]
    ]

pub count-IsRunOn :
    (g : TensorGraph) (current : ℕ) (os : List ℕ)
    → IsRunOn g current os
    → (i : ℕ) → count i os ≡ (if ltb current i && leb i (current + length os) then 1 else 0)
count-IsRunOn g current [] h i = ground arith
count-IsRunOn g current (o ∷ os) h i = ground (arith, h.0, count-IsRunOn g o os h.2 i)

-- Inside a run there is no matrix product.
pub no_product-inside :
    (g : TensorGraph) (current : ℕ) (os : List ℕ)
    → IsRunOn g current os
    → (i : ℕ) → current < i
    → i ≤ current + length os
    → is_product g i ≡ false
no_product-inside g current [] h i l k = absurd (omega arith)
no_product-inside g current (o ∷ os) h i l k = elim (Bool-cases (i == o)) [
  | inl t ↦ let e : i ≡ o = ground arith in ap (is_product g) e ∙ h.1
  | inr f ↦ no_product-inside g o os h.2 i (ground (arith, h.0)) (omega (arith, h.0))
]

-- Marking the operations of a run marks no other.
pub is_marked-set :
    (consumed : List Bool) (o i : ℕ)
    → is_marked (set consumed o true) i ≡ true
    → (i ≡ o) ⊎ (is_marked consumed i ≡ true)
is_marked-set [] o i e = inr e
is_marked-set (b ∷ consumed) zero zero e = inl refl
is_marked-set (b ∷ consumed) zero (suc i) e = inr e
is_marked-set (b ∷ consumed) (suc o) zero e = inr e
is_marked-set (b ∷ consumed) (suc o) (suc i) e = elim (is_marked-set consumed o i e) [
  | inl same ↦ inl (ap suc same)
  | inr before ↦ inr before
]

pub marked-below :
    (g : TensorGraph) (current : ℕ) (os : List ℕ) (consumed : List Bool) (bound i : ℕ)
    → IsRunOn g current os
    → current + length os < bound
    → ((j : ℕ) → is_marked consumed j ≡ true → j < bound)
    → is_marked (mark os consumed) i ≡ true
    → i < bound
unfolding mark
marked-below g current [] consumed bound i h l below e = below i e
marked-below g current (o ∷ os) consumed bound i h l below e =
    marked-below g o os (set consumed o true) bound i h.2 (omega (arith, h.0))
      (λ j m. elim (is_marked-set consumed o j m) [
        | inl same ↦ omega (arith, same, h.0)
        | inr before ↦ below j before
      ])
      e

-- Describing a dispatch leaves its operations alone.
describe-operations :
    (g : TensorGraph) (os : List ℕ) (d : PlannedDispatch) {d' : PlannedDispatch}
    → describe g os d ≡ ok d'
    → d'.operations ≡ d.operations
unfolding describe
describe-operations g [] d e = ap (λ (x : PlannedDispatch). x.operations) (sym (ok-injective e))
describe-operations g (index ∷ rest) d e =
    let (o, _, e1) = >>=-eq-ok (at g.operations index) _ e in
    let (epilogue, _, e2) = >>=-eq-ok (add_epilogue g o o.kind d.epilogue) _ e1 in
    let (inputs, _, e3) = >>=-eq-ok (add_inputs g d.operations o.inputs d.inputs) _ e2 in
    describe-operations g rest (record d { epilogue = epilogue; inputs = inputs }) e3

pub make_dispatch-operations :
    (g : TensorGraph) (index : ℕ) (name : String) (os : List ℕ) {d : PlannedDispatch}
    → make_dispatch g index name os ≡ ok d
    → d.operations ≡ os
unfolding make_dispatch
make_dispatch-operations g index name os e =
    let start : PlannedDispatch = record {
      name = name;
      operations = os;
      inputs = [];
      outputs = [];
      epilogue = "";
    } in
    let (d1, described, e1) = >>=-eq-ok (describe g os start) _ e in
    let (o, _, e2) = >>=-eq-ok (at g.operations (last_of index os)) _ e1 in
    ap (λ (x : PlannedDispatch). x.operations) (sym (ok-injective e2))
    ∙ describe-operations g os start described
