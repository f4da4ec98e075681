-- ===== src/Graph/Shapes/Stable.antt =====
-- Shape inference (src/graph_compiler.cpp) on a graph whose shapes it has already inferred.
use sched_forge.Base.{
  ℕ, zero, suc, ◌<◌, ◌≡◌, refl, sym, ap, ◌∙◌, some, some_injective, List, [], ◌∷◌, ◌++◌, get_elem?,
  update, get_elem?-update, arith, subst,
}
use sched_forge.Base.Result.{ok, >>=-eq-ok, ok-injective}
use sched_forge.Graph.Types.{GraphOpKind, GraphTensorType, GraphValue, GraphOperation, TensorGraph}
use sched_forge.Graph.Fusion.{at}
use sched_forge.Graph.Shapes.{
  ShapeConstraint, rule_of, infer, set_type, Progress, infer_step, infer_steps, positive_values,
  run,
}
use sched_forge.Graph.Shapes.Agreement.{
  IsOrderedOperation, next_bound, IsOrdered, Agree, at-eq, infer-Agree, infer-found,
}

-- One operation on values that agree with those it ran on, and that already hold the type it found.
abbrev progress : List GraphValue → List ShapeConstraint → Progress
progress values constraints = record { values = values; constraints = constraints }

get-update_ne :
    (values : List GraphValue) (v i : ℕ) (f : GraphValue → GraphValue)
    → i < v
    → get_elem? (update values v f) i ≡ get_elem? values i
get-update_ne [] v i f h = refl
get-update_ne (x ∷ values) zero i f h = absurd (omega arith)
get-update_ne (x ∷ values) (suc v) zero f h = refl
get-update_ne (x ∷ values) (suc v) (suc i) f h = get-update_ne values v i f (omega arith)

-- Giving a value the type that it has changes nothing.
set_type-eq :
    (values : List GraphValue) (v : ℕ) (t : GraphTensorType) (value : GraphValue)
    → get_elem? values v ≡ some (set_type t value)
    → update values v (set_type t) ≡ values
set_type-eq [] v t value e = refl
set_type-eq (x ∷ values) zero t value e =
    let same : x.type ≡ t = ap (λ (y : GraphValue). y.type) (some_injective e) in
    λ i. record x { type = sym same i } ∷ values
set_type-eq (x ∷ values) (suc v) t value e = ap (λ vs. x ∷ vs) (set_type-eq values v t value e)

-- The values in front of the outputs to come are left alone.
step-Agree :
    (bound : ℕ) (p q : Progress) (kind : GraphOpKind) (inputs outputs : List ℕ)
    → IsOrderedOperation bound inputs outputs
    → infer_step p kind inputs outputs ≡ ok q
    → Agree bound q.values p.values
unfolding infer_step
step-Agree bound p q kind inputs [] h e i l =
    ap (λ (r : Progress). get_elem? r.values i) (sym (ok-injective e))
step-Agree bound p q kind inputs (v ∷ outputs) h e i l =
    let (value, e1, rest) = >>=-eq-ok (at p.values v) _ e in
    let (found, e2, last) = >>=-eq-ok (infer (rule_of kind) p.values inputs value.type) _ rest in
    ap (λ (r : Progress). get_elem? r.values i) (sym (ok-injective last))
    ∙ get-update_ne p.values v i (set_type found.type) (omega (arith, h.0))

steps-Agree :
    (bound : ℕ) (p q : Progress) (os : List GraphOperation)
    → IsOrdered bound os
    → infer_steps p os ≡ ok q
    → Agree bound q.values p.values
unfolding infer_steps
steps-Agree bound p q [] h e i l =
    ap (λ (r : Progress). get_elem? r.values i) (sym (ok-injective e))
steps-Agree bound p q (o ∷ os) h e i l =
    let (next, e1, rest) = >>=-eq-ok (infer_step p o.kind o.inputs o.outputs) _ e in
    steps-Agree (next_bound bound o.outputs) next q os h.1 rest i (later o.outputs h.0)
    ∙ step-Agree bound p next o.kind o.inputs o.outputs h.0 e1 i l
  where
    later :
        (outputs : List ℕ)
        → IsOrderedOperation bound o.inputs outputs
        → i < next_bound bound outputs
    later [] h = l
    later (v ∷ vs) h = omega (arith, h.0)

step-again :
    (bound : ℕ) (p next q : Progress) (kind : GraphOpKind) (inputs outputs : List ℕ)
    (cs : List ShapeConstraint)
    → IsOrderedOperation bound inputs outputs
    → infer_step p kind inputs outputs ≡ ok next
    → Agree (next_bound bound outputs) q.values next.values
    → (ds : List ShapeConstraint) × (infer_step (progress q.values cs) kind inputs outputs
        ≡ ok (progress q.values ds))
unfolding infer_step
step-again bound p next q kind inputs [] cs h e agree = (cs, refl)
step-again bound p next q kind inputs (v ∷ outputs) cs h e agree =
    let (value, e1, rest) = >>=-eq-ok (at p.values v) _ e in
    let (found, e2, last) = >>=-eq-ok (infer (rule_of kind) p.values inputs value.type) _ rest in
    let stored : get_elem? q.values v ≡ some (set_type found.type value) =
      agree v (omega arith)
      ∙ ap (λ (r : Progress). get_elem? r.values v) (sym (ok-injective last))
      ∙ get_elem?-update p.values v (set_type found.type) (at-eq p.values v e1) in
    let before : Agree v q.values p.values = λ i l.
      agree i (omega arith)
      ∙ ap (λ (r : Progress). get_elem? r.values i) (sym (ok-injective last))
      ∙ get-update_ne p.values v i (set_type found.type) l in
    let (c, again) = infer-found (rule_of kind) p.values inputs value.type e2 in
    let now = infer-Agree (rule_of kind) v q.values p.values inputs found.type before h.1 ∙ again in
    (
      cs ++ c,
      rw (infer_step, at, stored, now)
          (λ i. ok (progress (set_type-eq q.values v found.type value stored i) (cs ++ c))),
    )

steps-again :
    (bound : ℕ) (p q : Progress) (os : List GraphOperation) (cs : List ShapeConstraint)
    → IsOrdered bound os
    → infer_steps p os ≡ ok q
    → (ds : List ShapeConstraint) × (infer_steps (progress q.values cs) os
        ≡ ok (progress q.values ds))
unfolding infer_steps
steps-again bound p q [] cs h e = (cs, refl)
steps-again bound p q (o ∷ os) cs h e =
    let (next, e1, rest) = >>=-eq-ok (infer_step p o.kind o.inputs o.outputs) _ e in
    let agree = steps-Agree (next_bound bound o.outputs) next q os h.1 rest in
    let (c, first) = step-again bound p next q o.kind o.inputs o.outputs cs h.0 e1 agree in
    let (ds, others) = steps-again (next_bound bound o.outputs) next q os c h.1 rest in
    (ds, rw (infer_steps, first) others)

-- When every operation of a graph reads only values in front of its first output, and the first outputs come
-- in strictly increasing order over the operations: on the graph that inference returns for it, inferring
-- the shapes again succeeds and changes nothing.
pub run-stable :
    (g g' : TensorGraph) (cs : List ShapeConstraint)
    → IsOrdered 0 g.operations
    → run g ≡ ok (g', cs)
    → (ds : List ShapeConstraint) × (run g' ≡ ok (g', ds))
unfolding run
run-stable g g' cs h e =
    let (p, steps, last) =
      >>=-eq-ok (infer_steps (progress g.values (positive_values g.values)) g.operations) _ e in
    let same : record g { values = p.values } ≡ g' =
      ap (λ (r : TensorGraph × List ShapeConstraint). r.0) (ok-injective last) in
    let (ds, again) =
      steps-again 0 (progress g.values (positive_values g.values)) p g.operations
        (positive_values p.values) h steps in
    (ds, subst (λ (r : TensorGraph). run r ≡ ok (r, ds)) same (rw (run, again) refl))
