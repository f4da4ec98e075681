-- ===== src/GenericIr/Uses.antt =====
-- The use lists and the operands, through what `IRBuilder` of src/generic_ir.cpp adds.
use Prim.Native.String.{String, ◌++◌ as str_append}
use sched_forge.Base.{
  ℕ, zero, suc, ◌+◌, ◌≤◌, ◌<◌, ◌≡◌, refl, sym, ap, ◌∙◌, ◌==◌, if◌then◌else◌, Bool-cases, Option,
  none, some, List, [], ◌∷◌, ◌++◌, All, length, length-append, length-update, update, count,
  count-append, list_at, list_at-snoc, list_at-snoc_nil, list_at_out, list_at-update, to_string,
  inl, inr, arith,
}
use sched_forge.GenericIr.{
  IrType, Value, ForFields, Operation, Store, add_user, add_users, add_results, make_operation,
  set_attribute, add_argument, append,
}
use sched_forge.GenericIr.Builder.{emit, emit_with}

abbrev pub users_of : Store → ℕ → List ℕ
users_of s v = list_at (λ (x : Value). x.users) s.values v

abbrev pub operands_of : Store → ℕ → List ℕ
operands_of s o = list_at (λ (x : Operation). x.operands) s.operations o

-- An operation stands in the use list of a value once for each of its operands that is this value.
abbrev pub IsMirrored : Store → Type 0
IsMirrored s = (o v : ℕ) → count o (users_of s v) ≡ count v (operands_of s o)

add_users-count :
    (o : ℕ) (values : List Value) (vs : List ℕ)
    → All (λ v. v < length values) vs
    → (u v : ℕ)
    → count u (list_at (λ (x : Value). x.users) (add_users o values vs) v)
      ≡ count u (list_at (λ (x : Value). x.users) values v) + (if u == o then count v vs else 0)
unfolding add_users
add_users-count o values [] h u v = ground arith
add_users-count o values (w ∷ vs) h u v =
    let now = update values w (add_user o) in
    let rest = add_users-count o now vs (again vs h.1) u v in
    let here =
      list_at-update (λ (x : Value). x.users) values w v (add_user o) h.0 (o ∷ []) (λ x. refl) in
    ground (
      arith,
      rest,
      ap (count u) here,
      count-append u (list_at (λ (x : Value). x.users) values v) (o ∷ []),
    )
  where
    again :
        (ws : List ℕ)
        → All (λ x. x < length values) ws
        → All (λ x. x < length (update values w (add_user o))) ws
    again [] h = tt
    again (x ∷ ws) h = (omega (arith, h.0, length-update values w (add_user o)), again ws h.1)

length-add_users :
    (o : ℕ) (values : List Value) (vs : List ℕ) → length (add_users o values vs) ≡ length values
unfolding add_users
length-add_users o values [] = refl
length-add_users o values (v ∷ vs) =
    length-add_users o (update values v (add_user o)) vs ∙ length-update values v (add_user o)

-- The results are used by nothing yet, and leave the operations alone.
record IsExtended (s t : Store) : Type 0 where
  same_users : (v : ℕ) → users_of t v ≡ users_of s v
  same_operations : t.operations ≡ s.operations
  more_values : length s.values ≤ length t.values

add_results-IsExtended :
    (s : Store) (o : ℕ) (ts : List IrType) → IsExtended s (add_results s o ts).0
unfolding add_results
add_results-IsExtended s o [] = record {
  same_users = λ v. refl;
  same_operations = refl;
  more_values = omega arith;
}
add_results-IsExtended s o (t ∷ ts) =
    let value : Value = record {
      type = t;
      defining_op = some o;
      name = str_append "%v" (to_string s.next_value_id);
      users = [];
    } in
    let next : Store = record s {
      values = s.values ++ value ∷ [];
      next_value_id = s.next_value_id + 1;
    } in
    let rest = add_results-IsExtended next o ts in
    record {
      same_users =
          λ v. rest.same_users v ∙ list_at-snoc_nil (λ (x : Value). x.users) s.values value v refl;
      same_operations = rest.same_operations;
      more_values = omega (arith, rest.more_values, length-append s.values (value ∷ []));
    }

-- The operands are values of the store.
abbrev pub AreValues : Store → List ℕ → Type 0
AreValues s vs = All (λ v. v < length s.values) vs

pub make_operation-IsMirrored :
    (s : Store) (name : String) (operands : List ℕ) (ts : List IrType) (loop : Option ForFields)
    → IsMirrored s
    → AreValues s operands
    → IsMirrored (make_operation s name operands ts loop).0
unfolding make_operation
make_operation-IsMirrored s name operands ts loop w h o v =
    let new = length s.operations in
    let used : Store = record s { values = add_users new s.values operands } in
    let made = add_results used new ts in
    let more = add_results-IsExtended used new ts in
    let operation : Operation = record {
      name = name;
      operands = operands;
      results = made.1;
      attributes = [];
      loop = loop;
    } in
    let users : count o (users_of made.0 v)
        ≡ count o (users_of s v) + (if o == new then count v operands else 0) =
      ap (count o) (more.same_users v) ∙ add_users-count new s.values operands h o v in
    let same : list_at (λ (x : Operation). x.operands) (made.0.operations ++ operation ∷ []) o
        ≡ list_at (λ (x : Operation). x.operands) (s.operations ++ operation ∷ []) o =
      ap
        (λ (ops : List Operation).
          list_at (λ (x : Operation). x.operands) (ops ++ operation ∷ []) o)
        more.same_operations in
    let taken = same ∙ list_at-snoc (λ (x : Operation). x.operands) s.operations operation o in
    let none_there : new ≤ o → operands_of s o ≡ [] =
      list_at_out (λ (x : Operation). x.operands) s.operations o in
    let w' : count o (users_of s v) ≡ count v (operands_of s o) = w o v in
    elim (Bool-cases (o == new)) [
      | inl t ↦
          let e : o ≡ new = ground arith in
          let out = ap (count v) (none_there (omega (arith, e))) in
          omega (arith, (rw t at users), ap (count v) (rw t at taken), w', out)
      | inr f ↦ omega (arith, (rw f at users), ap (count v) (rw f at taken), w')
    ]

pub set_attribute-IsMirrored :
    (s : Store) (o : ℕ) (key value : String)
    → IsMirrored s
    → IsMirrored (set_attribute s o key value)
unfolding set_attribute list_at
set_attribute-IsMirrored s o key value w p v = w p v ∙ ap (count v) (sym (same s.operations o p))
  where
    same :
        (ops : List Operation) (o p : ℕ)
        → list_at
            (λ (x : Operation). x.operands)
            (update ops o
              (λ (x : Operation). record x { attributes = (key, value) ∷ x.attributes }))
            p
          ≡ list_at (λ (x : Operation). x.operands) ops p
    same [] o p = refl
    same (x ∷ ops) zero zero = refl
    same (x ∷ ops) zero (suc p) = refl
    same (x ∷ ops) (suc o) zero = refl
    same (x ∷ ops) (suc o) (suc p) = same ops o p

pub emit-IsMirrored :
    (s : Store) (block : ℕ) (name : String) (operands : List ℕ) (ts : List IrType)
    → IsMirrored s
    → AreValues s operands
    → IsMirrored (emit s block name operands ts).0
unfolding emit append
emit-IsMirrored s block name operands ts w h = make_operation-IsMirrored s name operands ts none w h

pub emit_with-IsMirrored :
    (s : Store) (block : ℕ) (name : String) (operands : List ℕ) (ts : List IrType)
    (key value : String)
    → IsMirrored s
    → AreValues s operands
    → IsMirrored (emit_with s block name operands ts key value).0
unfolding emit_with append
emit_with-IsMirrored s block name operands ts key value w h =
    set_attribute-IsMirrored (make_operation s name operands ts none).0
      (make_operation s name operands ts none).1 key value
      (make_operation-IsMirrored s name operands ts none w h)

pub add_argument-IsMirrored :
    (s : Store) (block : ℕ) (type : IrType) (name : String)
    → IsMirrored s
    → IsMirrored (add_argument s block type name).0
unfolding add_argument
add_argument-IsMirrored s block type name w o v =
    let value : Value = record { type = type; defining_op = none; name = name; users = [] } in
    ap (count o) (list_at-snoc_nil (λ (x : Value). x.users) s.values value v refl) ∙ w o v
