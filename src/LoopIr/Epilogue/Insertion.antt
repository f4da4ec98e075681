-- ===== src/LoopIr/Epilogue/Insertion.antt =====
-- Where `insertEpilogueBeforeStores` puts the epilogue, by the depths of the operations in the tree.
use sched_forge.Base.{
  ℕ, suc, ◌+◌, ◌<◌, ◌⊎◌, ◌≡◌, refl, sym, ap, ◌∙◌, ◌↔◌, List, [], ◌∷◌, ◌++◌, append_assoc, arith,
  Bool-cases, inl, inr, if◌then◌else◌, none, ◌==◌,
}
use sched_forge.Base.Result.{ok, throw}
use sched_forge.LoopIr.Ops.{LoopOperation, operation, LoopBody, nil, cons, is_store, LoopIr}
use sched_forge.LoopIr.Epilogue.Levels.{Entry, levels_of, levels, levels-injective}
use sched_forge.LoopIr.Epilogue.{rewrite, insert_epilogue_before_stores}

-- The whole epilogue before every store, at the depth of the store.
abbrev pub expand : LoopOperation → List Entry → List Entry
expand e [] = []
expand e (h ∷ hs) =
    let rest = expand e hs in if is_store h.1 then levels_of h.0 e ++ h ∷ rest else h ∷ rest

abbrev pub store_count : List Entry → ℕ
store_count [] = 0
store_count (h ∷ hs) = let rest = store_count hs in if is_store h.1 then rest + 1 else rest

expand-append :
    (e : LoopOperation) (xs ys : List Entry) → expand e (xs ++ ys) ≡ expand e xs ++ expand e ys
expand-append e [] ys = refl
expand-append e (x ∷ xs) ys = elim (Bool-cases (is_store x.1)) [
  | inl t ↦
      rw (t, expand-append e xs ys)
        (sym (append_assoc (levels_of x.0 e) (x ∷ expand e xs) (expand e ys)))
  | inr t ↦ rw (t, expand-append e xs ys)
]

store_count-append : (xs ys : List Entry) → store_count (xs ++ ys) ≡ store_count xs + store_count ys
store_count-append [] ys = omega arith
store_count-append (x ∷ xs) ys = ground (arith, store_count-append xs ys)

module _ (epilogue : LoopOperation) where
  rewrite-levels :
      (body : LoopBody) (depth n : ℕ)
      → (levels depth (rewrite epilogue body n).0 ≡ expand epilogue (levels depth body))
        × ((rewrite epilogue body n).1 ≡ n + store_count (levels depth body))
  unfolding rewrite
  rewrite-levels nil depth n = (refl, omega arith)
  rewrite-levels (cons (operation k g body) rest) depth n = elim (Bool-cases (is_store k)) [
    | inl e ↦
        let (a, c) = rewrite-levels body (suc depth) n in
        let (b, d) = rewrite-levels rest depth ((rewrite epilogue body n).1 + 1) in
        rw e (simp (a, b, expand-append), simp store_count-append (omega (arith, c, d)))
    | inr e ↦
        let (a, c) = rewrite-levels body (suc depth) n in
        let (b, d) = rewrite-levels rest depth (rewrite epilogue body n).1 in
        rw e (simp (a, b, expand-append), simp store_count-append (omega (arith, c, d)))
  ]

  only :
      {hs : List Entry} (ops : LoopBody)
      → levels 0 ops ≡ hs
      → (other : LoopBody) → (other ≡ ops) ↔ (levels 0 other ≡ hs)
  only ops e other = (λ same. ap (levels 0) same ∙ e, λ h. levels-injective 0 other ops (h ∙ sym e))

  -- An epilogue of any shape is inserted before every store of a program, at any depth, in the loop of that
  -- store, and every operation of the program keeps its fields, its place in the order and its depth: the
  -- new program is the only one with this sequence of operations and depths. Without a store the insertion
  -- throws.
  pub insert_epilogue_before_stores-expand :
      (loop : LoopIr)
      → ((store_count (levels 0 loop.operations) ≡ 0)
          × (insert_epilogue_before_stores loop epilogue
              ≡ throw "LoopIR epilogue requires a store"))
        ⊎ ((0 < store_count (levels 0 loop.operations))
            × ((ops : LoopBody) × (insert_epilogue_before_stores loop epilogue
                  ≡ ok (record loop { operations = ops; execution_plan = none }))
                × ((other : LoopBody)
                    → (other ≡ ops)
                      ↔ (levels 0 other ≡ expand epilogue (levels 0 loop.operations)))))
  unfolding insert_epilogue_before_stores
  insert_epilogue_before_stores-expand loop =
      let (a, c) = rewrite-levels loop.operations 0 0 in
      elim (Bool-cases ((rewrite epilogue loop.operations 0).1 == 0)) [
        | inl e ↦ inl (ground arith, rw e)
        | inr e ↦ inr (
          ground arith,
          (
            (rewrite epilogue loop.operations 0).0,
            rw e,
            only (rewrite epilogue loop.operations 0).0 a,
          ),
        )
      ]
