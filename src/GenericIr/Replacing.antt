-- ===== src/GenericIr/Replacing.antt =====
-- `Value::replaceAllUsesWith` of src/generic_ir.cpp, and the use lists before and after it.
use sched_forge.Base.{
  ℕ, zero, suc, ◌+◌, ◌<◌, ◌≡◌, ◌≢◌, refl, sym, ap, ◌∙◌, ◌==◌, if◌then◌else◌, ltb, Bool-cases, List,
  [], ◌∷◌, length, length-update, update, count, count-append, list_at, list_at-update, inl, inr,
  arith,
}
use sched_forge.GenericIr.{
  Value, Operation, Store, add_user, add_user_times, replace_all, replace_in, replace_operand,
  replace_operands, clear_users, replace_all_uses_with,
}
use sched_forge.GenericIr.Uses.{users_of, operands_of, IsMirrored}

-- An update on the operands of one operation.
operands-update :
    (old new : ℕ) (ops : List Operation) (o p : ℕ)
    → list_at (λ (x : Operation). x.operands) (update ops o (replace_in old new)) p ≡ (
        if p == o
        then replace_all old new (list_at (λ (x : Operation). x.operands) ops p)
        else list_at (λ (x : Operation). x.operands) ops p)
unfolding list_at
operands-update old new [] o p = ground arith
operands-update old new (x ∷ ops) zero zero = ground arith
operands-update old new (x ∷ ops) zero (suc p) = ground arith
operands-update old new (x ∷ ops) (suc o) zero = ground arith
operands-update old new (x ∷ ops) (suc o) (suc p) = ground (arith, operands-update old new ops o p)

-- What a list of operands holds after the replacement.
count-replace_all :
    (old new v : ℕ) (vs : List ℕ)
    → old ≢ new
    → count v (replace_all old new vs)
      ≡ (if v == old then 0 else if v == new then count new vs + count old vs else count v vs)
count-replace_all old new v [] h = ground arith
count-replace_all old new v (w ∷ vs) h = ground (arith, count-replace_all old new v vs h)

-- The user is added to the new value once for each operand replaced.
count-add_user_times :
    (o old new : ℕ) (vs : List ℕ) (values : List Value)
    → new < length values
    → (u v : ℕ)
    → count u (list_at (λ (x : Value). x.users) (add_user_times o old new vs values) v)
      ≡ count u (list_at (λ (x : Value). x.users) values v)
        + (if u == o then if v == new then count old vs else 0 else 0)
unfolding add_user_times
count-add_user_times o old new [] values h u v = ground arith
count-add_user_times o old new (w ∷ vs) values h u v = elim (Bool-cases (w == old)) [
  | inl t ↦
      let rest =
        count-add_user_times o old new vs (update values new (add_user o))
          (omega (arith, h, length-update values new (add_user o))) u v in
      let here = ap (count u) (
        list_at-update (λ (x : Value). x.users) values new v (add_user o) h (o ∷ []) (λ x. refl)) in
      rw (t, add_user_times)
        (ground
          (arith, rest, here, count-append u (list_at (λ (x : Value). x.users) values v) (o ∷ [])))
  | inr f ↦ rw (f, add_user_times) (ground (arith, count-add_user_times o old new vs values h u v))
]

length-add_user_times :
    (o old new : ℕ) (vs : List ℕ) (values : List Value)
    → length (add_user_times o old new vs values) ≡ length values
unfolding add_user_times
length-add_user_times o old new [] values = refl
length-add_user_times o old new (w ∷ vs) values = elim (Bool-cases (w == old)) [
  | inl t ↦
      rw (t, add_user_times)
        (length-add_user_times o old new vs (update values new (add_user o))
          ∙ length-update values new (add_user o))
  | inr f ↦ rw (f, add_user_times) (length-add_user_times o old new vs values)
]

-- The use lists are right for every value but one.
abbrev IsMirroredBut : ℕ → Store → Type 0
IsMirroredBut old s = (o v : ℕ) → v ≢ old → count o (users_of s v) ≡ count v (operands_of s o)

module _ (old new : ℕ) (differ : old ≢ new) where
  replace_operand-operands :
      (s : Store) (u o v : ℕ)
      → count v (operands_of (replace_operand s u old new) o) ≡ (
          if o == u
          then if v == old
            then 0
            else if v == new
            then count new (operands_of s o) + count old (operands_of s o)
            else count v (operands_of s o)
          else count v (operands_of s o))
  unfolding replace_operand
  replace_operand-operands s u o v =
      let e = ap (count v) (operands-update old new s.operations u o) in
      let r = count-replace_all old new v (operands_of s o) differ in
      elim (Bool-cases (o == u)) [ inl t ↦ rw t ((rw t at e) ∙ r) | inr f ↦ rw f (rw f at e) ]

  replace_operand-Mirrored :
      (s : Store) (u : ℕ)
      → new < length s.values
      → IsMirroredBut old s
      → IsMirroredBut old (replace_operand s u old new)
  unfolding replace_operand
  replace_operand-Mirrored s u h w o v ne =
      let users = count-add_user_times u old new (operands_of s u) s.values h o v in
      let operands = replace_operand-operands s u o v in
      let w' = w o v ne in
      elim (Bool-cases (o == u)) [
        | inl t ↦
            let e : o ≡ u = ground arith in
            let same : count old (operands_of s u) ≡ count old (operands_of s o) =
              ap (λ k. count old (operands_of s k)) (sym e) in
            ground (arith, users, operands, w', same)
        | inr f ↦ ground (arith, users, operands, w')
      ]

  -- After the loop over the users.
  record IsReplaced (s : Store) (os : List ℕ) (t : Store) : Type 0 where
    but : IsMirroredBut old t
    gone :
        (o : ℕ)
        → count old (operands_of t o)
          ≡ (if ltb 0 (count o os) then 0 else count old (operands_of s o))
    moved :
        (o : ℕ)
        → count new (operands_of t o) + count old (operands_of t o)
          ≡ count new (operands_of s o) + count old (operands_of s o)
    others : (o v : ℕ) → v ≢ old → v ≢ new → count v (operands_of t o) ≡ count v (operands_of s o)

  replace_operands-IsReplaced :
      (s : Store) (os : List ℕ)
      → new < length s.values
      → IsMirroredBut old s
      → IsReplaced s os (replace_operands s os old new)
  unfolding replace_operands
  replace_operands-IsReplaced s [] h w = record {
    but = w;
    gone = λ o. refl;
    moved = λ o. refl;
    others = λ o v n m. refl;
  }
  replace_operands-IsReplaced s (u ∷ os) h w =
      let next = replace_operand s u old new in
      let rest = replace_operands-IsReplaced next os (more h) (replace_operand-Mirrored s u h w) in
      record {
        but = rest.but;
        gone = λ o. ground (arith, rest.gone o, replace_operand-operands s u o old);
        moved = λ o. ground (
          arith,
          differ,
          rest.moved o,
          replace_operand-operands s u o old,
          replace_operand-operands s u o new,
        );
        others = λ o v n m. ground (arith, rest.others o v n m, replace_operand-operands s u o v);
      }
    where
      more : new < length s.values → new < length (replace_operand s u old new).values
      more h = omega (arith, h, length-add_user_times u old new (operands_of s u) s.values)

users-clear :
    (old : ℕ) (values : List Value) (v : ℕ)
    → list_at (λ (x : Value). x.users) (update values old clear_users) v
      ≡ (if v == old then [] else list_at (λ (x : Value). x.users) values v)
unfolding list_at
users-clear old [] v = ground arith
users-clear zero (x ∷ values) zero = ground arith
users-clear zero (x ∷ values) (suc v) = ground arith
users-clear (suc old) (x ∷ values) zero = ground arith
users-clear (suc old) (x ∷ values) (suc v) = ground (arith, users-clear old values v)

-- When the use lists mirror the operands, replacing all uses of a value by another value of the store
-- leaves no use of the first, moves each of its uses to the second, leaves the uses of every other value
-- alone, and the use lists mirror the operands again.
pub replace_all_uses_with-moves :
    (s : Store) (old new : ℕ)
    → IsMirrored s
    → old ≢ new
    → new < length s.values
    → IsMirrored (replace_all_uses_with s old new)
      × ((o : ℕ) → count old (operands_of (replace_all_uses_with s old new) o) ≡ 0)
      × ((o : ℕ)
          → count new (operands_of (replace_all_uses_with s old new) o)
            ≡ count new (operands_of s o) + count old (operands_of s o))
      × ((o v : ℕ)
          → v ≢ old
          → v ≢ new
          → count v (operands_of (replace_all_uses_with s old new) o) ≡ count v (operands_of s o))
unfolding replace_all_uses_with
replace_all_uses_with-moves s old new w differ h =
    let users = users_of s old in
    let t = replace_operands s users old new in
    let r = replace_operands-IsReplaced old new differ s users h (λ o v ne. w o v) in
    let none_left : (o : ℕ) → count old (operands_of t o) ≡ 0 =
      λ o. ground (arith, r.gone o, w o old) in
    (
      (λ o v.
          let e = ap (count o) (users-clear old t.values v) in
          elim (Bool-cases (v == old)) [
            | inl same ↦
                let v_old : v ≡ old = ground arith in
                let gone : count v (operands_of t o) ≡ 0 =
                  ap (λ k. count k (operands_of t o)) v_old ∙ none_left o in
                (rw same at e) ∙ sym gone
            | inr other ↦ (rw other at e) ∙ r.but o v (ground arith)
          ]),
      none_left,
      (λ o. omega (arith, r.moved o, none_left o)),
      r.others,
    )
