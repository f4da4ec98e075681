-- ===== src/LoopIr/Epilogue/Levels.antt =====
-- The operations of a loop program (src/ir.cpp) with their depths, and the tree that these tell.
use sched_forge.Base.{
  ℕ, suc, ◌<◌, ◌≡◌, refl, sym, ap, ◌∙◌, List, [], ◌∷◌, ◌++◌, append_assoc, append-nil, arith,
}
use sched_forge.LoopIr.Ops.{LoopOpKind, LoopFields, LoopOperation, operation, LoopBody, nil, cons}

-- An operation without its body, at its depth in the tree.
abbrev pub Entry : Type 0
Entry = ℕ × LoopOpKind × LoopFields

-- The operations of a tree in the order of execution, each with its depth. The depths tell which loop an
-- operation stands in: the last one in front of it that is less deep.
abbrev mutual
  pub levels_of : ℕ → LoopOperation → List Entry
  levels_of depth (operation kind f body) = (depth, kind, f) ∷ levels (suc depth) body

  pub levels : ℕ → LoopBody → List Entry
  levels depth nil = []
  levels depth (cons o rest) = levels_of depth o ++ levels depth rest

-- Nothing follows, or an operation that is less deep.
IsOutside : ℕ → List Entry → Type 0
IsOutside depth [] = Unit
IsOutside depth (x ∷ xs) = x.0 < depth

IsOutside-levels :
    (depth : ℕ) (rest : LoopBody) (xs : List Entry)
    → IsOutside depth xs
    → IsOutside (suc depth) (levels depth rest ++ xs)
unfolding IsOutside
IsOutside-levels depth nil [] h = tt
IsOutside-levels depth nil (x ∷ xs) h = omega (arith, h)
IsOutside-levels depth (cons (operation k f b) rest) xs h = omega arith

not_outside :
    (depth : ℕ) (kind : LoopOpKind) (f : LoopFields) (xs ys : List Entry)
    → IsOutside depth xs
    → xs ≡ (depth, kind, f) ∷ ys
    → ⊥
unfolding IsOutside
not_outside depth kind f [] ys h e = cc
not_outside depth kind f (y ∷ xs) ys h e =
    let same : y ≡ (depth, kind, f) = cc in omega (arith, h, ap (λ (p : Entry). p.0) same)

same_trees :
    (depth : ℕ) (a b : LoopBody) (xs ys : List Entry)
    → IsOutside depth xs
    → IsOutside depth ys
    → levels depth a ++ xs ≡ levels depth b ++ ys
    → (a ≡ b) × (xs ≡ ys)
same_trees depth nil nil xs ys h k e = (refl, e)
same_trees depth nil (cons (operation l g c) s) xs ys h k e =
    absurd (not_outside depth l g xs _ h e)
same_trees depth (cons (operation l g c) s) nil xs ys h k e =
    absurd (not_outside depth l g ys _ k (sym e))
same_trees depth (cons (operation l g c) s) (cons (operation l' g' c') s') xs ys h k e =
    let here : Entry = (depth, l, g) in
    let there : Entry = (depth, l', g') in
    let first : here ≡ there = cc in
    let together : (levels (suc depth) c ++ levels depth s) ++ xs
        ≡ (levels (suc depth) c' ++ levels depth s') ++ ys =
      cc in
    let later =
      sym (append_assoc (levels (suc depth) c) (levels depth s) xs)
      ∙ together
      ∙ append_assoc (levels (suc depth) c') (levels depth s') ys in
    let (bodies, others) =
      same_trees (suc depth) c c' (levels depth s ++ xs) (levels depth s' ++ ys)
        (IsOutside-levels depth s xs h) (IsOutside-levels depth s' ys k) later in
    let (rests, ends) = same_trees depth s s' xs ys h k others in
    (
      λ i.
          cons
            (operation (ap (λ (p : Entry). p.1) first i) (ap (λ (p : Entry). p.2) first i)
              (bodies i))
            (rests i),
      ends,
    )

-- Two trees with the same operations at the same depths in the same order are the same.
pub levels-injective : (depth : ℕ) (a b : LoopBody) → levels depth a ≡ levels depth b → a ≡ b
unfolding IsOutside
levels-injective depth a b e =
    (same_trees depth a b [] [] tt tt
      (append-nil (levels depth a) ∙ e ∙ sym (append-nil (levels depth b)))).0
