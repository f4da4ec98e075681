-- ===== src/Graph/Planner/Partition.antt =====
-- The dispatches of `FusionPlanner::run` (src/graph_compiler.cpp) and the operations they take.
use Prim.Native.String.{◌++◌ as str_append}
use sched_forge.Base.{
  ℕ, zero, suc, ◌+◌, ◌≤◌, ◌<◌, ◌≡◌, inl, inr, refl, sym, ◌∙◌, ap, subst, Bool, true, false,
  Bool-cases, true-ne-false, ◌&&◌, ◌||◌, none, some, List, [], ◌∷◌, ◌++◌, length, get_elem?, set,
  count, count-append, leb, ◌==◌, if◌then◌else◌, arith, to_string,
}
use sched_forge.Base.Result.{ok, >>=-eq-ok, ok-injective}
use sched_forge.Graph.Types.{GraphOpKind, GraphOperation, TensorGraph}
use sched_forge.Graph.Fusion.{grow, dispatch_operations}
use sched_forge.Graph.Planner.{
  PlannedDispatch, is_mat_mul, mark, is_marked, Planned, make_dispatch, visit, visit_all, unmarked,
  run,
}
use sched_forge.Graph.Planner.Cover.{
  is_product, IsRunOn, grow-IsRunOn, count-IsRunOn, no_product-inside, marked-below,
  make_dispatch-operations, is_marked-set,
}

-- The operations of all dispatches.
unfoldable pub all_operations : List PlannedDispatch → List ℕ
all_operations [] = []
all_operations (d ∷ ds) = d.operations ++ all_operations ds

count-snoc :
    (i : ℕ) (ds : List PlannedDispatch) (d : PlannedDispatch)
    → count i (all_operations (ds ++ d ∷ [])) ≡ count i (all_operations ds) + count i d.operations
unfolding all_operations
count-snoc i [] d = omega (arith, count-append i d.operations [])
count-snoc i (e ∷ ds) d = omega (
  arith,
  count-snoc i ds d,
  count-append i e.operations (all_operations ds),
  count-append i e.operations (all_operations (ds ++ d ∷ [])),
)

-- Before the round at `index`: the operations taken are below `end`, each taken once; every matrix product
-- below `index` is taken; and from `index` to `end` there is none.
record IsCovered (g : TensorGraph) (index end : ℕ) (p : Planned) : Type 0 where
  apart : (i : ℕ) → count i (all_operations p.dispatches) ≤ 1
  below : (i : ℕ) → end ≤ i → count i (all_operations p.dispatches) ≡ 0
  taken : (i : ℕ) → i < index → is_product g i ≡ true → count i (all_operations p.dispatches) ≡ 1
  between : (i : ℕ) → index ≤ i → i < end → is_product g i ≡ false
  marked : (i : ℕ) → is_marked p.consumed i ≡ true → i < end

-- A round that starts no dispatch.
pass-IsCovered :
    (g : TensorGraph) (index end : ℕ) (p : Planned)
    → is_product g index ≡ false
    → IsCovered g index end p
    → IsCovered g (suc index) end p
pass-IsCovered g index end p no_product w = record {
  apart = w.apart;
  below = w.below;
  taken = λ i l e. elim (Bool-cases (i == index)) [
    | inl t ↦
        let same : i ≡ index = ground arith in
        absurd (true-ne-false (sym e ∙ ap (is_product g) same ∙ no_product))
    | inr f ↦ w.taken i (ground arith) e
  ];
  between = λ i l k. w.between i (omega arith) k;
  marked = w.marked;
}

-- A round that starts a dispatch.
start-IsCovered :
    (g : TensorGraph) (index end : ℕ) (p : Planned) (os : List ℕ) (d : PlannedDispatch)
    → end ≤ index
    → IsRunOn g index os
    → d.operations ≡ index ∷ os
    → IsCovered g index end p
    → IsCovered g
        (suc index)
        (suc index + length os)
        (record { dispatches = p.dispatches ++ d ∷ []; consumed = mark (index ∷ os) p.consumed })
unfolding mark
start-IsCovered g index end p os d late run_on same w = record {
  apart = λ i. ground (arith, counted i, w.apart i, w.below i);
  below = λ i l. ground (arith, counted i, w.below i);
  taken = λ i l e. elim (Bool-cases (i == index)) [
    | inl t ↦ ground (arith, counted i, w.below i)
    | inr f ↦ ground (arith, counted i, w.taken i (ground arith) e)
  ];
  between = λ i l k. no_product-inside g index os run_on i (omega arith) (omega arith);
  marked = λ i m.
      marked-below g index os (set p.consumed index true) (suc index + length os) i run_on
        (omega arith)
        (λ j n. elim (is_marked-set p.consumed index j n) [
          | inl e ↦ omega (arith, e)
          | inr before ↦ omega (arith, w.marked j before)
        ])
        m;
}
  where
    counted :
        (i : ℕ)
        → count i (all_operations (p.dispatches ++ d ∷ []))
          ≡ count i (all_operations p.dispatches)
            + (if leb index i && leb i (index + length os) then 1 else 0)
    counted i =
        ground
          (arith, count-snoc i p.dispatches d, ap (count i) same, count-IsRunOn g index os run_on i)

dispatch_operations-IsRunOn :
    (g : TensorGraph) (index : ℕ) {os : List ℕ}
    → dispatch_operations g index ≡ ok os
    → (rest : List ℕ) × (os ≡ index ∷ rest) × IsRunOn g index rest
unfolding dispatch_operations
dispatch_operations-IsRunOn g index e =
    let (rest, grown, k) =
      >>=-eq-ok (grow g (length g.operations) index)
        (λ (operations : List ℕ). ok (index ∷ operations)) e in
    (rest, sym (ok-injective k), grow-IsRunOn g (length g.operations) index grown)

visit-IsCovered :
    (g : TensorGraph) (index end : ℕ) (kind : GraphOpKind) (p : Planned) {q : Planned}
    → is_product g index ≡ is_mat_mul kind
    → IsCovered g index end p
    → visit g index kind p ≡ ok q
    → (end' : ℕ) × IsCovered g (suc index) end' q
unfolding visit
visit-IsCovered g index end kind p {q} product w e = elim (Bool-cases (is_mat_mul kind)) [
  | inr no_product ↦ (
    end,
    subst (IsCovered g (suc index) end)
        (ok-injective (rw (no_product, visit, or_true (is_marked p.consumed index)) at e))
        (pass-IsCovered g index end p (product ∙ no_product) w),
  )
  | inl is_it ↦ elim (Bool-cases (leb end index)) [
    | inr early ↦
        absurd
          (true-ne-false (sym (product ∙ is_it) ∙ w.between index (omega arith) (ground arith)))
    | inl late ↦
        let fresh : is_marked p.consumed index ≡ false = not_marked late in
        let name = str_append "dispatch_" (to_string (length p.dispatches)) in
        let (os, grown, e1) =
          >>=-eq-ok (dispatch_operations g index) _ (rw (is_it, fresh, visit) at e) in
        let (rest, eq, run_on) = dispatch_operations-IsRunOn g index grown in
        let (d, made, e2) = >>=-eq-ok (make_dispatch g index name os) _ e1 in
        (
          suc index + length rest,
          subst (IsCovered g (suc index) (suc index + length rest))
              ((λ i. record {
                dispatches = p.dispatches ++ d ∷ [];
                consumed = mark (sym eq i) p.consumed;
              })
                ∙ ok-injective e2)
              (start-IsCovered g index end p rest d (ground arith) run_on
                (make_dispatch-operations g index name os made ∙ eq) w),
        )
  ]
]
  where
    or_true : (b : Bool) → (b || true) ≡ true
    or_true true = refl
    or_true false = refl

    not_marked : leb end index ≡ true → is_marked p.consumed index ≡ false
    not_marked late = elim (Bool-cases (is_marked p.consumed index)) [
      | inl t ↦ absurd (ground (arith, w.marked index t))
      | inr f ↦ f
    ]

-- The operations from a position on.
abbrev AreFrom : TensorGraph → ℕ → List GraphOperation → Type 0
AreFrom g index os = (i : ℕ) → get_elem? g.operations (index + i) ≡ get_elem? os i

visit_all-IsCovered :
    (g : TensorGraph) (index end : ℕ) (os : List GraphOperation) (p : Planned) {q : Planned}
    → AreFrom g index os
    → IsCovered g index end p
    → visit_all g index os p ≡ ok q
    → (end' : ℕ) × IsCovered g (index + length os) end' q
unfolding visit_all
visit_all-IsCovered g index end [] p {q} from w e = (
  end,
  subst (λ k. IsCovered g k end q) (omega arith) (subst (IsCovered g index end) (ok-injective e) w),
)
visit_all-IsCovered g index end (o ∷ os) p {q} from w e =
    let (next, first, rest) = >>=-eq-ok (visit g index o.kind p) _ e in
    let here : get_elem? g.operations index ≡ some o =
      ap (get_elem? g.operations) (omega arith) ∙ from 0 in
    let (end', v) = visit-IsCovered g index end o.kind p (rw (here, is_product) refl) w first in
    let (last, all) =
      visit_all-IsCovered g (suc index) end' os next
        (λ i. ap (get_elem? g.operations) (omega arith) ∙ from (suc i)) v rest in
    (last, subst (λ k. IsCovered g k last q) (omega arith) all)

is_marked-unmarked : (os : List GraphOperation) (i : ℕ) → is_marked (unmarked os) i ≡ false
unfolding unmarked
is_marked-unmarked [] i = refl
is_marked-unmarked (o ∷ os) zero = refl
is_marked-unmarked (o ∷ os) (suc i) = is_marked-unmarked os i

out_of_range : (g : TensorGraph) (i : ℕ) → is_product g i ≡ true → i < length g.operations
out_of_range g i e = in_list g.operations i e
  where
    in_list :
        (ops : List GraphOperation) (i : ℕ)
        → (elim (get_elem? ops i) [ none ↦ false | some o ↦ is_mat_mul o.kind ]) ≡ true
        → i < length ops
    in_list [] i e = cc
    in_list (o ∷ ops) zero e = omega arith
    in_list (o ∷ ops) (suc i) e = omega (arith, in_list ops i e)

-- When the planner returns its dispatches, no operation is in two of them or in one of them twice, and
-- every matrix product of the graph is in one.
pub run-covers :
    (g : TensorGraph) (ds : List PlannedDispatch)
    → run g ≡ ok ds
    → ((i : ℕ) → count i (all_operations ds) ≤ 1)
      × ((i : ℕ) → is_product g i ≡ true → count i (all_operations ds) ≡ 1)
unfolding run all_operations
run-covers g ds e =
    let start : Planned = record { dispatches = []; consumed = unmarked g.operations } in
    let (p, visited, last) = >>=-eq-ok (visit_all g 0 g.operations start) _ e in
    let first : IsCovered g 0 0 start = record {
      apart = λ i. omega arith;
      below = λ i l. refl;
      taken = λ i l e. absurd (omega arith);
      between = λ i l k. absurd (omega arith);
      marked = λ i m. absurd (true-ne-false (sym m ∙ is_marked-unmarked g.operations i));
    } in
    let (end, w) =
      visit_all-IsCovered g 0 0 g.operations start (λ i. ap (get_elem? g.operations) (omega arith))
        first visited in
    let same : p.dispatches ≡ ds = ok-injective last in
    (
      (λ i. subst (λ (x : List PlannedDispatch). count i (all_operations x) ≤ 1) same (w.apart i)),
      (λ i product.
          subst (λ (x : List PlannedDispatch). count i (all_operations x) ≡ 1) same
            (w.taken i (omega (arith, out_of_range g i product)) product)),
    )
