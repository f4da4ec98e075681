-- ===== src/LoopIr/Epilogue.antt =====
-- The operations of `LoopIR` that change a built program: `appendOperation`,
-- `insertEpilogueBeforeStores` and `specialize` (src/ir.cpp).
pub mod Levels
pub mod Insertion
pub mod Coherence
use sched_forge.Base.{ℕ, ◌+◌, Bool, none, ◌==◌, if◌then◌else◌}
use sched_forge.Base.Result.{Result, ok, ◌>>◌, throw_if}
use sched_forge.Schedule.{Problem}
use sched_forge.LoopIr.Ops.{LoopOperation, operation, LoopBody, nil, cons, append, is_store, LoopIr}

unfoldable pub append_operation : LoopIr → LoopOperation → LoopIr
append_operation loop o = record loop {
  operations = append loop.operations (cons o nil);
  execution_plan = none;
}

-- The lambda `rewrite`, with the counter `inserted`.
unfoldable pub rewrite : LoopOperation → LoopBody → ℕ → LoopBody × ℕ
rewrite epilogue nil inserted = (nil, inserted)
rewrite epilogue (cons (operation kind f body) rest) inserted =
    let (body', in_body) = rewrite epilogue body inserted in
    let (rest', total) = rewrite epilogue rest (if is_store kind then in_body + 1 else in_body) in
    let o = operation kind f body' in
    (if is_store kind then cons epilogue (cons o rest') else cons o rest', total)

unfoldable pub insert_epilogue_before_stores : LoopIr → LoopOperation → Result LoopIr
insert_epilogue_before_stores loop epilogue =
    let (operations, inserted) = rewrite epilogue loop.operations 0 in
    do
      throw_if (inserted == 0) "LoopIR epilogue requires a store"
      ok (record loop { operations = operations; execution_plan = none })

unfoldable pub specialize : LoopIr → Problem → LoopIr
specialize loop problem = record loop { problem = problem; execution_plan = none }
