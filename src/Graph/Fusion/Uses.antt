-- ===== src/Graph/Fusion/Uses.antt =====
-- The values between two operations of a dispatch of `FusionPlanner` (src/graph_compiler.cpp), and who
-- reads them.
use sched_forge.Base.{
  ℕ, zero, suc, ◌+◌, ◌≤◌, ◌≡◌, ◌⊎◌, inl, inr, refl, sym, ◌∙◌, ap, subst, Bool, true, false,
  Bool-cases, true-ne-false, ◌&&◌, Option-cases, some, List, [], ◌∷◌, length, get_elem?, count,
  list_at, ltb, ◌==◌, if◌then◌else◌, arith,
}
use sched_forge.Base.Result.{Result, ok, ◌>>=◌, >>=-eq-ok, ok-injective, throw-ne-ok}
use sched_forge.Graph.Types.{GraphOpKind, GraphValue, GraphOperation, TensorGraph}
use sched_forge.Graph.Build.Chains.{
  users_of, inputs_of, outputs_of, IsChained, Built, Built-IsChained,
}
use sched_forge.Graph.Fusion.{
  at, is_fusable, is_only_user, legal_outputs, legal, grow, joined, dispatch_operations,
}

pub at-eq-ok : {A : Type 0} (xs : List A) (i : ℕ) {x : A} → at xs i ≡ ok x → get_elem? xs i ≡ some x
at-eq-ok xs i h = elim (Option-cases (get_elem? xs i)) [
  | inl e ↦ absurd (throw-ne-ok (rw (e, at) at h))
  | inr (y, e) ↦ e ∙ ap some (ok-injective (rw (e, at) at h))
]

-- The first output of the producer is an operand of the consumer, once, and of no other operation.
abbrev pub IsReadOnce : TensorGraph → ℕ → ℕ → Type 0
IsReadOnce g producer consumer =
    (v : ℕ) × (others : List ℕ) × (outputs_of g producer ≡ v ∷ others)
    × ((o : ℕ) → count v (inputs_of g o) ≡ (if o == consumer then 1 else 0))

only_user : (c : ℕ) (us : List ℕ) → is_only_user c us ≡ true → us ≡ c ∷ []
only_user c [] h = cc
only_user c (u ∷ []) h = let e : u ≡ c = ground arith in ap (λ x. x ∷ []) e
only_user c (u ∷ w ∷ us) h = cc

users-eq :
    (g : TensorGraph) (v : ℕ) (value : GraphValue)
    → get_elem? g.values v ≡ some value
    → users_of g v ≡ value.users
unfolding list_at
users-eq g v value e = rw (e, list_at) refl

outputs-eq :
    (g : TensorGraph) (o : ℕ) (op : GraphOperation)
    → get_elem? g.operations o ≡ some op
    → outputs_of g o ≡ op.outputs
unfolding list_at
outputs-eq g o op e = rw (e, list_at) refl

legal_outputs-users :
    (g : TensorGraph) (outputs : List ℕ) (kind : GraphOpKind) (consumer : ℕ)
    → legal_outputs g outputs kind consumer ≡ ok true
    → (v : ℕ) × (others : List ℕ) × (outputs ≡ v ∷ others) × (users_of g v ≡ consumer ∷ [])
unfolding legal_outputs
legal_outputs-users g [] kind consumer h = cc
legal_outputs-users g (v ∷ others) kind consumer h =
    let (value, first, rest) =
      >>=-eq-ok (at g.values v)
        (λ (value : GraphValue). ok (is_only_user consumer value.users && is_fusable kind)) h in
    let both : (is_only_user consumer value.users && is_fusable kind) ≡ true = ok-injective rest in
    elim (Bool-cases (is_only_user consumer value.users)) [
      | inl e ↦ (
        v,
        others,
        refl,
        users-eq g v value (at-eq-ok g.values v first) ∙ only_user consumer value.users e,
      )
      | inr e ↦ absurd (true-ne-false (sym both ∙ rw e refl))
    ]

legal-IsReadOnce :
    (g : TensorGraph) (producer consumer : ℕ)
    → IsChained g
    → legal g producer consumer ≡ ok true
    → IsReadOnce g producer consumer
unfolding legal
legal-IsReadOnce g producer consumer w h =
    let (p, first, rest) =
      >>=-eq-ok (at g.operations producer)
        (λ (p : GraphOperation).
          at g.operations consumer >>= λ c. legal_outputs g p.outputs c.kind consumer)
        h in
    let (c, _, last) =
      >>=-eq-ok (at g.operations consumer)
        (λ (c : GraphOperation). legal_outputs g p.outputs c.kind consumer) rest in
    let (v, others, e, u) = legal_outputs-users g p.outputs c.kind consumer last in
    (
      v,
      others,
      outputs-eq g producer p (at-eq-ok g.operations producer first) ∙ e,
      λ o. sym (w.mirrored o v) ∙ ap (count o) u ∙ ground arith,
    )

-- The operations of a dispatch after `current`: each is the next one, and reads alone what the one
-- before it writes. After the last one the graph ends, or the next operation may not be fused.
abbrev pub IsFused : TensorGraph → ℕ → List ℕ → Type 0
IsFused g current [] =
    (length g.operations ≤ suc current) ⊎ (legal g current (suc current) ≡ ok false)
IsFused g current (o ∷ os) = (o ≡ suc current) × IsReadOnce g current o × IsFused g o os

pub joined-cases :
    (o : ℕ) (rest : Result (List ℕ)) (b : Bool) {os : List ℕ}
    → joined o rest b ≡ ok os
    → ((b ≡ false) × (os ≡ []))
      ⊎ ((b ≡ true) × ((tail : List ℕ) × (rest ≡ ok tail) × (os ≡ o ∷ tail)))
joined-cases o rest false h = inl (refl, sym (ok-injective h))
joined-cases o rest true h =
    let (tail, e, k) = >>=-eq-ok rest (λ tail. ok (o ∷ tail)) h in
    inr (refl, (tail, e, sym (ok-injective k)))

grow-IsFused :
    (g : TensorGraph) (fuel current : ℕ) {os : List ℕ}
    → IsChained g
    → length g.operations ≤ suc current + fuel
    → grow g fuel current ≡ ok os
    → IsFused g current os
unfolding grow
grow-IsFused g zero current w le h = subst (IsFused g current) (ok-injective h) (inl (omega arith))
grow-IsFused g (suc fuel) current {os} w le h =
    elim (Bool-cases (ltb (suc current) (length g.operations))) [
      | inr e ↦ subst (IsFused g current) (ok-injective (rw (e, grow) at h)) (inl (ground arith))
      | inl e ↦
          let (b, is_legal, k) =
            >>=-eq-ok (legal g current (suc current))
              (joined (suc current) (grow g fuel (suc current))) (rw (e, grow) at h) in
          elim (joined-cases (suc current) (grow g fuel (suc current)) b k) [
            | inl (refused, empty) ↦
                subst (IsFused g current) (sym empty) (inr (is_legal ∙ ap ok refused))
            | inr (allowed, (tail, r, all)) ↦ subst (IsFused g current) (sym all) (
              refl,
              legal-IsReadOnce g current (suc current) w (is_legal ∙ ap ok allowed),
              grow-IsFused g fuel (suc current) w (omega arith) r,
            )
          ]
    ]

-- In a graph that was built, a dispatch that the planner returns consists of the operation it starts
-- from and of operations that follow it one by one; what each writes first is an operand of the next
-- operation, once, and of no other, so that no value that is fused away is missed; and the dispatch
-- ends only where the graph ends or the next operation may not be fused.
pub dispatch_operations-IsFused :
    (g : TensorGraph) (index : ℕ) (os : List ℕ)
    → Built g
    → dispatch_operations g index ≡ ok os
    → (rest : List ℕ) × (os ≡ index ∷ rest) × IsFused g index rest
unfolding dispatch_operations
dispatch_operations-IsFused g index os b h =
    let (rest, e, k) =
      >>=-eq-ok (grow g (length g.operations) index) (λ operations. ok (index ∷ operations)) h in
    (
      rest,
      sym (ok-injective k),
      grow-IsFused g (length g.operations) index (Built-IsChained b) (omega arith) e,
    )
