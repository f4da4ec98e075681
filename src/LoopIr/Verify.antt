-- ===== src/LoopIr/Verify.antt =====
-- What `verify_loop_ir` accepts, by the operations that occur in the tree.
use sched_forge.Base.{
  ◌≡◌, refl, Bool, true, false, not, ◌&&◌, ◌||◌, List, [], ◌∷◌, ◌++◌, ◌↔◌, any, arith,
}
use sched_forge.Base.Integers.{is_nonpositive}
use sched_forge.Base.Result.{Result, ok, throw, ◌>>=◌, throw_if}
use sched_forge.LoopIr.Ops.{
  LoopOpKind, LoopFields, LoopOperation, operation, LoopBody, nil, cons, append, kind_of, preorder,
  preorder-append, is_loop, is_store, is_fma,
}
use sched_forge.LoopIr.Analyze.{verify_step, verify_all, verify_ops}

any-append {ℓ} :
    {A : Type ℓ} (p : A → Bool) (xs ys : List A) → any p (xs ++ ys) ≡ (any p xs || any p ys)
any-append p [] ys = refl
any-append p (x ∷ xs) ys = ground (arith, any-append p xs ys)

-- Some operation of the tree, at any depth, satisfies the test.
unfoldable pub occurs : (LoopOperation → Bool) → LoopBody → Bool
occurs p body = any p (preorder body)

pub occurs-nil : (p : LoopOperation → Bool) → occurs p nil ≡ false
unfolding occurs
occurs-nil p = refl

pub occurs-cons :
    (p : LoopOperation → Bool) (kind : LoopOpKind) (f : LoopFields) (body rest : LoopBody)
    → occurs p (cons (operation kind f body) rest)
      ≡ (p (operation kind f body) || (occurs p body || occurs p rest))
unfolding occurs
occurs-cons p kind f body rest = ground (arith, any-append p (preorder body) (preorder rest))

pub occurs-append :
    (p : LoopOperation → Bool) (a b : LoopBody) → occurs p (append a b) ≡ (occurs p a || occurs p b)
unfolding occurs
occurs-append p a b = rw (preorder-append a b) (any-append p (preorder a) (preorder b))

abbrev pub is_stuck_loop : LoopOperation → Bool
is_stuck_loop (operation kind f body) = is_loop kind && is_nonpositive f.step

abbrev pub is_fma_op : LoopOperation → Bool
is_fma_op o = is_fma (kind_of o)

abbrev pub is_store_op : LoopOperation → Bool
is_store_op o = is_store (kind_of o)

abbrev outcome : Bool → Bool × Bool → Result (Bool × Bool)
outcome true flags = throw "LoopIR loop step must be positive"
outcome false flags = ok flags

verify_all-outcome :
    (has_fma has_store : Bool) (os : List LoopOperation)
    → verify_all (has_fma, has_store) os
      ≡ outcome
          (any is_stuck_loop os)
          (has_fma || any is_fma_op os, has_store || any is_store_op os)
unfolding verify_all verify_step
verify_all-outcome has_fma has_store [] = ground arith
verify_all-outcome has_fma has_store (operation kind f body ∷ os) =
    ground (arith, verify_all-outcome (is_fma kind || has_fma) (is_store kind || has_store) os)

passes_iff :
    (bad has_fma has_store : Bool)
    → ((outcome bad (has_fma, has_store) >>= λ (f, s).
          throw_if (not f || not s) "LoopIR requires explicit FMA and store operations")
        ≡ ok tt)
      ↔ (bad ≡ false) × (has_fma ≡ true) × (has_store ≡ true)
passes_iff true has_fma has_store = (λ h. cc, λ h. cc (h.0))
passes_iff false true true = (λ h. (refl, refl, refl), λ h. refl)
passes_iff false true false = (λ h. cc, λ h. cc (h.2))
passes_iff false false has_store = (λ h. cc, λ h. cc (h.1))

-- `verify_loop_ir` passes exactly when no loop at any depth has a step of 0 or below and the tree holds an FMA and a store.
pub verify_ops_iff :
    (body : LoopBody)
    → (verify_ops body ≡ ok tt)
      ↔ (occurs is_stuck_loop body ≡ false)
        × (occurs is_fma_op body ≡ true)
        × (occurs is_store_op body ≡ true)
unfolding verify_ops occurs
verify_ops_iff nil = (λ h. cc, λ h. cc)
verify_ops_iff (cons o body) =
    rw (verify_all-outcome false false (preorder (cons o body))) (passes_iff _ _ _)
