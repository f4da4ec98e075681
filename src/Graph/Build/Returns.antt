-- ===== src/Graph/Build/Returns.antt =====
-- What `TensorGraph::addOperation` (src/graph_compiler.cpp) leaves behind, by the inputs it is given.
use Prim.Native.String.{String, ◌++◌ as str_append}
use sched_forge.Base.{
  false, ℕ, ◌+◌, ◌≤◌, ◌<◌, ◌≡◌, ◌⊎◌, refl, ◌∙◌, none, some, Option-cases, List, [], ◌∷◌, ◌++◌,
  length, length-append, length-update, get_elem?, length_of_get, lt_of_get, All, arith, inl, inr,
}
use sched_forge.Base.Result.{ok, throw}
use sched_forge.Graph.Types.{GraphOpKind, GraphTensorType, GraphValue, TensorGraph}
use sched_forge.Graph.Build.{
  out_of_range, add_user, use_value, use_values, add_operation, new_value, new_operation,
}

-- Every input numbers one of `n` values.
abbrev pub InRange : ℕ → List ℕ → Type 0
InRange n inputs = All (λ v. v < n) inputs

use_value-length :
    (o : ℕ) (values : List GraphValue) (v : ℕ) → length (use_value o values v).0 ≡ length values
unfolding use_value
use_value-length o values v = elim (Option-cases (get_elem? values v)) [
  | inl e ↦ rw (e, use_value) refl
  | inr (x, e) ↦ rw (e, use_value) (length-update values v (add_user o))
]

use_value-cases :
    (o : ℕ) (values : List GraphValue) (v : ℕ)
    → ((v < length values) × ((use_value o values v).1 ≡ none))
      ⊎ ((length values ≤ v) × ((use_value o values v).1 ≡ some out_of_range))
unfolding use_value
use_value-cases o values v = elim (Option-cases (get_elem? values v)) [
  | inl e ↦ inr (length_of_get values v e, rw (e, use_value) refl)
  | inr (x, e) ↦ inl (lt_of_get values v x e, rw (e, use_value) refl)
]

use_values-length :
    (o : ℕ) (values : List GraphValue) (vs : List ℕ)
    → length (use_values o values vs).0 ≡ length values
unfolding use_values
use_values-length o values [] = refl
use_values-length o values (v ∷ vs) = elim (use_value-cases o values v) [
  | inl (_, e) ↦
      rw (e, use_values)
        (use_values-length o (use_value o values v).0 vs ∙ use_value-length o values v)
  | inr (_, e) ↦ rw (e, use_values) (use_value-length o values v)
]

use_values-cases :
    (o n : ℕ) (values : List GraphValue) (vs : List ℕ)
    → length values ≡ n
    → (InRange n vs × ((use_values o values vs).1 ≡ none))
      ⊎ ((¬ InRange n vs) × ((use_values o values vs).1 ≡ some out_of_range))
unfolding use_values
use_values-cases o n values [] h = inl (tt, refl)
use_values-cases o n values (v ∷ vs) h = elim (use_value-cases o values v) [
  | inr (out, e) ↦ inr (λ k. omega (arith, k.0, out, h), rw (e, use_values) refl)
  | inl (lt, e) ↦
      elim (use_values-cases o n (use_value o values v).0 vs (use_value-length o values v ∙ h)) [
        | inl (k, r) ↦ inl ((omega (arith, lt, h), k), rw (e, use_values) r)
        | inr (k, r) ↦ inr (λ all. k all.1, rw (e, use_values) r)
      ]
]

module _ (g : TensorGraph) (kind : GraphOpKind) (name : String) (inputs : List ℕ)
    (type : GraphTensorType) where
  -- Adding an operation always adds a value. It returns the new value's index and adds the operation
  -- exactly if every input is a value of the graph or the new value itself; if not, it throws, and the
  -- operations are those that there were.
  pub add_operation-returns :
      (length (add_operation g kind name inputs type).graph.values ≡ length g.values + 1)
      × ((InRange (length g.values + 1) inputs
            × ((add_operation g kind name inputs type).result ≡ ok (length g.values))
            × ((add_operation g kind name inputs type).graph.operations
                ≡ g.operations ++ new_operation kind name inputs (length g.values ∷ []) ∷ []))
          ⊎ ((¬ InRange (length g.values + 1) inputs)
              × ((add_operation g kind name inputs type).result ≡ throw out_of_range)
              × ((add_operation g kind name inputs type).graph.operations ≡ g.operations)))
  unfolding add_operation
  add_operation-returns =
      let o = length g.operations in
      let result = new_value (str_append name ".result") type o false in
      let values = g.values ++ result ∷ [] in
      let grown : length values ≡ length g.values + 1 = length-append g.values (result ∷ []) in
      let same = use_values-length o values inputs ∙ grown in
      elim (use_values-cases o (length g.values + 1) values inputs grown) [
        | inl (k, r) ↦ rw (r, add_operation) (same, inl (k, refl, refl))
        | inr (k, r) ↦ rw (r, add_operation) (same, inr (k, refl, refl))
      ]
