-- ===== src/LoopIr/Epilogue/Coherence.antt =====
-- The execution plan that a `LoopIR` (src/ir.cpp) caches, and the operations between two analyses.
use sched_forge.Base.{
  ◌≡◌, refl, sym, ap, ◌∙◌, arith, ◌⊎◌, inl, inr, Option, none, some, ◌==◌, Bool-cases,
}
use sched_forge.Base.Result.{ok, ok-injective, throw-ne-ok}
use sched_forge.Schedule.{Problem, Schedule, LoopExecutionPlan}
use sched_forge.LoopIr.Ops.{LoopOperation, LoopIr}
use sched_forge.LoopIr.Analyze.{compute_plan, analyze_loop_ir}
use sched_forge.LoopIr.Build.{apply_schedule}
use sched_forge.LoopIr.Build.Plan.{compute_plan-scheduled_operations}
use sched_forge.LoopIr.Build.Verified.{apply_schedule-eq-ok}
use sched_forge.LoopIr.Epilogue.{
  append_operation, rewrite, insert_epilogue_before_stores, specialize,
}

-- What may happen to a program between its construction and an analysis.
pub data Reached : LoopIr → Type 0 where
  built : (p : Problem) (s : Schedule) (l : LoopIr) → apply_schedule p s ≡ ok l → Reached l
  analyzed : (l : LoopIr) → Reached l → Reached (analyze_loop_ir l).1
  appended : (l : LoopIr) (o : LoopOperation) → Reached l → Reached (append_operation l o)
  inserted :
      (l l' : LoopIr) (o : LoopOperation)
      → Reached l
      → insert_epilogue_before_stores l o ≡ ok l'
      → Reached l'
  specialized : (l : LoopIr) (p : Problem) → Reached l → Reached (specialize l p)

abbrev IsCoherent : LoopIr → Type 0
IsCoherent l =
    (l.execution_plan ≡ none) ⊎ (l.execution_plan ≡ some (compute_plan l.problem l.operations))

analyze-cases :
    (l : LoopIr) (o : Option LoopExecutionPlan)
    → l.execution_plan ≡ o
    → IsCoherent l
    → IsCoherent (analyze_loop_ir l).1
unfolding analyze_loop_ir
analyze-cases l none e c = rw (e, analyze_loop_ir) (inr refl)
analyze-cases l (some plan) e c = rw (e, analyze_loop_ir) c

built-IsCoherent :
    (p : Problem) (s : Schedule) (l : LoopIr) → apply_schedule p s ≡ ok l → IsCoherent l
built-IsCoherent p s l h =
    let e = ok-injective (sym (apply_schedule-eq-ok p s) ∙ h) in
    rw (← e) (inr (ap some (sym (compute_plan-scheduled_operations p s))))

inserted-IsCoherent :
    (l l' : LoopIr) (o : LoopOperation) → insert_epilogue_before_stores l o ≡ ok l' → IsCoherent l'
unfolding insert_epilogue_before_stores
inserted-IsCoherent l l' o h = elim (Bool-cases ((rewrite o l.operations 0).1 == 0)) [
  | inl e ↦ absurd (throw-ne-ok (rw e at h))
  | inr e ↦ inl (ap (λ m. m.execution_plan) (sym (ok-injective (rw e at h))))
]

Reached-IsCoherent : {l : LoopIr} → Reached l → IsCoherent l
unfolding append_operation specialize
Reached-IsCoherent (built p s l h) = built-IsCoherent p s l h
Reached-IsCoherent (analyzed l r) = analyze-cases l l.execution_plan refl (Reached-IsCoherent r)
Reached-IsCoherent (appended l o r) = inl refl
Reached-IsCoherent (inserted l l' o r h) = inserted-IsCoherent l l' o h
Reached-IsCoherent (specialized l p r) = inl refl

analyze-eq :
    (l : LoopIr) (o : Option LoopExecutionPlan)
    → l.execution_plan ≡ o
    → IsCoherent l
    → (analyze_loop_ir l).0 ≡ compute_plan l.problem l.operations
unfolding analyze_loop_ir
analyze-eq l none e c = rw (e, analyze_loop_ir)
analyze-eq l (some plan) e c = rw (e, analyze_loop_ir) (ground arith)

-- After any sequence of constructions, analyses, appended operations, inserted epilogues and
-- specializations, the plan that the analysis returns is that of the current operations and problem.
pub analyze_loop_ir-Reached :
    (l : LoopIr) → Reached l → (analyze_loop_ir l).0 ≡ compute_plan l.problem l.operations
analyze_loop_ir-Reached l r = analyze-eq l l.execution_plan refl (Reached-IsCoherent r)
