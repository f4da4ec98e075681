-- ===== src/Graph/Build/Chains.antt =====
-- The def-use chains of a tensor graph (src/graph_compiler.cpp): the users of the values and the operands
-- of the operations.
use Prim.Native.String.{◌++◌ as str_append}
use sched_forge.Base.{
  String, list_at-nil, list_at-snoc_nil, zero, suc, ℕ, ◌+◌, ◌≤◌, ◌<◌, ◌≡◌, refl, sym, ap, ◌∙◌,
  subst, none, Bool, true, false, Option, some, List, [], ◌∷◌, ◌++◌, length, length-append,
  length-update, get_elem?, lt_of_get, update, count, count-append, list_at, list_at-snoc,
  list_at_out, list_at-update, arith, ◌==◌, if◌then◌else◌, Option-cases, not_some, inl, inr,
}
use sched_forge.Base.Result.{throw-ne-ok}
use sched_forge.Graph.Types.{
  GraphOpKind, return, GraphTensorType, GraphValue, GraphOperation, TensorGraph, empty_graph,
}
use sched_forge.Graph.Build.{
  add_input, add_user, use_value, use_values, add_operation, set_return, add_constant,
  set_last_attribute, new_value, new_operation, input_kind, Outcome, returns, push_used,
}

abbrev pub users_of : TensorGraph → ℕ → List ℕ
users_of g v = list_at (λ (x : GraphValue). x.users) g.values v

abbrev pub inputs_of : TensorGraph → ℕ → List ℕ
inputs_of g o = list_at (λ (x : GraphOperation). x.inputs) g.operations o

abbrev pub outputs_of : TensorGraph → ℕ → List ℕ
outputs_of g o = list_at (λ (x : GraphOperation). x.outputs) g.operations o

-- An operation occurs among the users of a value as often as the value among its operands, every
-- operand is a value of the graph, and every user an operation of it.
pub record IsChained (g : TensorGraph) : Type 0 where
  pub mirrored : (o v : ℕ) → count o (users_of g v) ≡ count v (inputs_of g o)
  pub operands : (o v : ℕ) → 0 < count v (inputs_of g o) → v < length g.values

pub empty_graph-IsChained : IsChained empty_graph
empty_graph-IsChained = record {
  mirrored = λ o v. simp list_at-nil;
  operands = λ o v h. absurd (omega (arith, rw list_at-nil at h));
}

pub add_input-IsChained :
    (g : TensorGraph) (name : String) (type : GraphTensorType) (c : Bool)
    → IsChained g
    → IsChained (add_input g name type c).0
unfolding add_input
add_input-IsChained g name type c w =
    let value = new_value name type (length g.operations) c in
    let o' = new_operation (input_kind c) name [] (length g.values ∷ []) in
    record {
      mirrored = λ o v.
          rw
            (
              list_at-snoc_nil (λ (x : GraphValue). x.users) g.values value v refl,
              list_at-snoc_nil (λ (x : GraphOperation). x.inputs) g.operations o' o refl,
            )
            (w.mirrored o v);
      operands = λ o v h. omega (
        arith,
        length-append g.values (value ∷ []),
        w.operands o v
            (rw (list_at-snoc_nil (λ (x : GraphOperation). x.inputs) g.operations o' o refl) at h),
      );
    }

-- The users after an operation `o` has taken a list of operands: `o` once more for each of them.
record Used (o : ℕ) (before after : List GraphValue) (vs : List ℕ) : Type 0 where
  users_lem :
      (u v : ℕ)
      → count u (list_at (λ (x : GraphValue). x.users) after v)
        ≡ count u (list_at (λ (x : GraphValue). x.users) before v)
          + (if u == o then count v vs else 0)
  length_lem : length after ≡ length before
  operands_lem : (v : ℕ) → 0 < count v vs → v < length before

use_value-returns :
    (o : ℕ) (values : List GraphValue) (v : ℕ)
    → (use_value o values v).1 ≡ none
    → (v < length values) × ((use_value o values v).0 ≡ update values v (add_user o))
unfolding use_value
use_value-returns o values v h = elim (Option-cases (get_elem? values v)) [
  | inl e ↦ absurd (not_some (sym (rw (e, use_value) at h)))
  | inr (x, e) ↦ (lt_of_get values v x e, rw (e, use_value) refl)
]

use_value-Used :
    (o : ℕ) (values : List GraphValue) (v : ℕ)
    → (use_value o values v).1 ≡ none
    → Used o values (use_value o values v).0 (v ∷ [])
use_value-Used o values v h =
    let (lt, e) = use_value-returns o values v h in
    record {
      users_lem = λ u w. rw e (
          ground (
            arith,
            list_at-update (λ (x : GraphValue). x.users) values v w (add_user o) lt (o ∷ [])
                (λ x. refl),
            count-append u (list_at (λ (x : GraphValue). x.users) values w) (o ∷ []),
          ));
      length_lem = rw e (length-update values v (add_user o));
      operands_lem = λ w h. ground arith;
    }

use_values-Used :
    (o : ℕ) (values : List GraphValue) (vs : List ℕ)
    → (use_values o values vs).1 ≡ none
    → Used o values (use_values o values vs).0 vs
unfolding use_values
use_values-Used o values [] h = record {
  users_lem = λ u v. ground arith;
  length_lem = refl;
  operands_lem = λ v h. absurd (omega arith);
}
use_values-Used o values (v ∷ vs) h = elim (Option-cases (use_value o values v).1) [
  | inr (x, e) ↦ absurd (not_some (sym (rw (e, use_values) at h)))
  | inl e ↦
      let a = use_value-Used o values v e in
      let b = use_values-Used o (use_value o values v).0 vs (rw (e, use_values) at h) in
      rw (e, use_values)
        (record {
          users_lem = λ u w. ground (arith, a.users_lem u w, b.users_lem u w);
          length_lem = b.length_lem ∙ a.length_lem;
          operands_lem = λ w h. ground (arith, a.operands_lem w, b.operands_lem w, a.length_lem);
        })
]

-- A call that returns has pushed the operation, and its operands have taken it.
push_used-returns :
    {A : Type 0} (g g' : TensorGraph) (o : GraphOperation) (a b : A)
    (used : List GraphValue × Option String)
    → push_used g o a used ≡ returns g' b
    → (used.1 ≡ none) × (record g { values = used.0; operations = g.operations ++ o ∷ [] } ≡ g')
push_used-returns {A} g g' o a b (values, none) h = (refl, ap (λ (x : Outcome A). x.graph) h)
push_used-returns {A} g g' o a b (values, some e) h =
    absurd (throw-ne-ok (ap (λ (x : Outcome A). x.result) h))

-- One more operation, whose operands have taken it among their users.
extend-IsChained :
    (g : TensorGraph) (start values : List GraphValue) (o' : GraphOperation) (r : Option ℕ)
    → IsChained g
    → ((v : ℕ) → list_at (λ (x : GraphValue). x.users) start v ≡ users_of g v)
    → length g.values ≤ length start
    → Used (length g.operations) start values o'.inputs
    → IsChained (record { values = values; operations = g.operations ++ o' ∷ []; return_value = r })
extend-IsChained g start values o' r w same le used = record {
  mirrored = λ o v. ground (
    arith,
    used.users_lem o v,
    ap (count o) (same v),
    list_at-snoc (λ (x : GraphOperation). x.inputs) g.operations o' o,
    list_at_out (λ (x : GraphOperation). x.inputs) g.operations o,
    w.mirrored o v,
  );
  operands = λ o v h. ground (
    arith,
    used.operands_lem v,
    used.length_lem,
    list_at-snoc (λ (x : GraphOperation). x.inputs) g.operations o' o,
    w.operands o v,
  );
}

pub add_operation-IsChained :
    (g : TensorGraph) (kind : GraphOpKind) (name : String) (inputs : List ℕ)
    (type : GraphTensorType) (g' : TensorGraph) (v : ℕ)
    → add_operation g kind name inputs type ≡ returns g' v
    → IsChained g
    → IsChained g'
unfolding add_operation
add_operation-IsChained g kind name inputs type g' v h w =
    let result = new_value (str_append name ".result") type (length g.operations) false in
    let o' = new_operation kind name inputs (length g.values ∷ []) in
    let used = use_values (length g.operations) (g.values ++ result ∷ []) inputs in
    let (e, same) = push_used-returns g g' o' (length g.values) v used h in
    subst IsChained same (
      extend-IsChained g (g.values ++ result ∷ []) used.0 o' g.return_value w
        (λ v. list_at-snoc_nil (λ (x : GraphValue). x.users) g.values result v refl)
        (omega (arith, length-append g.values (result ∷ [])))
        (use_values-Used (length g.operations) (g.values ++ result ∷ []) inputs e))

pub set_return-IsChained :
    (g : TensorGraph) (value : ℕ) (g' : TensorGraph)
    → set_return g value ≡ returns g' tt
    → IsChained g
    → IsChained g'
unfolding set_return
set_return-IsChained g value g' h w =
    let o' = new_operation return "return" (value ∷ []) [] in
    let used = use_value (length g.operations) g.values value in
    let (e, same) = push_used-returns (record g { return_value = some value }) g' o' tt tt used h in
    subst IsChained same (
      extend-IsChained g g.values used.0 o' (some value) w (λ v. refl) (omega arith)
        (use_value-Used (length g.operations) g.values value e))

-- How a graph is built: from the empty one, by calls that return of the four operations that change it.
pub data Built : TensorGraph → Type 0 where
  start : Built empty_graph
  with_input :
      (g : TensorGraph) (name : String) (type : GraphTensorType) (c : Bool)
      → Built g
      → Built (add_input g name type c).0
  with_constant :
      (g : TensorGraph) (name : String) (type : GraphTensorType) (literal : String)
      → Built g
      → Built (add_constant g name type literal).0
  with_operation :
      (g : TensorGraph) (kind : GraphOpKind) (name : String) (inputs : List ℕ)
      (type : GraphTensorType) (g' : TensorGraph) (v : ℕ)
      → add_operation g kind name inputs type ≡ returns g' v
      → Built g
      → Built g'
  with_return :
      (g : TensorGraph) (value : ℕ) (g' : TensorGraph)
      → set_return g value ≡ returns g' tt
      → Built g
      → Built g'

inputs-set_last_attribute :
    (k t : String) (os : List GraphOperation) (o : ℕ)
    → list_at (λ (x : GraphOperation). x.inputs) (set_last_attribute k t os) o
      ≡ list_at (λ (x : GraphOperation). x.inputs) os o
unfolding list_at
inputs-set_last_attribute k t [] o = refl
inputs-set_last_attribute k t (p ∷ []) zero = refl
inputs-set_last_attribute k t (p ∷ []) (suc o) = refl
inputs-set_last_attribute k t (p ∷ q ∷ os) zero = refl
inputs-set_last_attribute k t (p ∷ q ∷ os) (suc o) = inputs-set_last_attribute k t (q ∷ os) o

add_constant-IsChained :
    (g : TensorGraph) (name : String) (type : GraphTensorType) (literal : String)
    → IsChained g
    → IsChained (add_constant g name type literal).0
unfolding add_constant
add_constant-IsChained g name type literal w =
    let v = add_input-IsChained g name type true w in
    record {
      mirrored = λ o x. rw (inputs-set_last_attribute _ _ _ o) (v.mirrored o x);
      operands = λ o x h. v.operands o x (rw (inputs-set_last_attribute _ _ _ o) at h);
    }

-- Every graph that is built through `addInput`, `addConstant`, `addOperation` and `setReturn`, without an
-- exception, has def-use chains that mirror its operands, however the calls are ordered.
pub Built-IsChained : {g : TensorGraph} → Built g → IsChained g
Built-IsChained start = empty_graph-IsChained
Built-IsChained (with_input g name type c b) = add_input-IsChained g name type c (Built-IsChained b)
Built-IsChained (with_constant g name type l b) =
    add_constant-IsChained g name type l (Built-IsChained b)
Built-IsChained (with_operation g kind name inputs type g' v h b) =
    add_operation-IsChained g kind name inputs type g' v h (Built-IsChained b)
Built-IsChained (with_return g value g' h b) = set_return-IsChained g value g' h (Built-IsChained b)
