-- ===== src/LoopIr/Ops.antt =====
-- Loop operations, their traversal, `make_loop` and `find_loop` (src/ir.cpp).
use Prim.Native.String.{String}
use text.Mathlib.Text.{◌==◌ as str_eq}
use sched_forge.Base.{
  ℕ, max, ◌≡◌, refl, Bool, true, false, ◌&&◌, Option, List, [], ◌∷◌, ◌++◌, find_if, append_assoc,
}
use sched_forge.Base.Integers.{ℤ, pos}
use sched_forge.Schedule.{Problem, LoopExecutionPlan}

pub data LoopOpKind : Type 0 where
  for_loop parallel_for buffer_alloc pack prefetch scalar_load vector_load broadcast : LoopOpKind
  accumulator_init fma add_bias relu gelu add_residual scalar_store vector_store : LoopOpKind

-- The fields of `LoopOperation` but its kind and its body.
pub record LoopFields : Type 0 where
  pub result : String
  pub induction : String
  pub lower : String
  pub upper : String
  pub step : ℤ
  pub width : ℕ
  pub distance : ℕ
  pub threads : ℕ
  pub pinned : Bool
  pub source : String
  pub destination : String
  pub indices : List String

abbrev pub default_fields : LoopFields
default_fields = record {
  result = "";
  induction = "";
  lower = "";
  upper = "";
  step = pos 1;
  width = 1;
  distance = 0;
  threads = 1;
  pinned = false;
  source = "";
  destination = "";
  indices = [];
}

mutual
  pub data LoopOperation : Type 0 where
    operation : LoopOpKind → LoopFields → LoopBody → LoopOperation

  pub data LoopBody : Type 0 where
    nil : LoopBody
    cons : LoopOperation → LoopBody → LoopBody

-- An operation without a body.
abbrev pub leaf : LoopOpKind → LoopFields → LoopOperation
leaf kind fields = operation kind fields nil

abbrev pub kind_of : LoopOperation → LoopOpKind
kind_of (operation kind fields body) = kind

abbrev pub fields_of : LoopOperation → LoopFields
fields_of (operation kind fields body) = fields

-- `push_back`, and the body that a run of them builds.
abbrev pub append : LoopBody → LoopBody → LoopBody
append nil b = b
append (cons o a) b = cons o (append a b)

-- `if (enabled) body.push_back(operation);`
abbrev pub optional : Bool → LoopOperation → LoopBody
optional true o = cons o nil
optional false o = nil

pub record LoopIr : Type 0 where
  pub problem : Problem
  pub operations : LoopBody
  pub execution_plan : Option LoopExecutionPlan

abbrev pub make_loop : LoopOpKind → String → String → ℕ → LoopBody → LoopOperation
make_loop kind induction upper step body =
    operation kind
      (record default_fields {
        induction = induction;
        lower = "0";
        upper = upper;
        step = pos (max 1 step);
      })
      body

-- The operations in the order in which `visit` calls its callback: each before its body.
abbrev mutual
  pub preorder_of : LoopOperation → List LoopOperation
  preorder_of (operation kind fields body) = operation kind fields body ∷ preorder body

  pub preorder : LoopBody → List LoopOperation
  preorder nil = []
  preorder (cons o body) = preorder_of o ++ preorder body

abbrev pub is_loop : LoopOpKind → Bool
is_loop for_loop = true
is_loop parallel_for = true
is_loop _ = false

abbrev pub is_store : LoopOpKind → Bool
is_store scalar_store = true
is_store vector_store = true
is_store _ = false

abbrev pub is_fma : LoopOpKind → Bool
is_fma fma = true
is_fma _ = false

-- `find_loop`: the first loop with that induction variable.
abbrev pub find_loop : LoopBody → String → Option LoopOperation
find_loop body induction =
    find_if (λ o. is_loop (kind_of o) && str_eq (fields_of o).induction induction) (preorder body)

pub preorder-append : (a b : LoopBody) → preorder (append a b) ≡ preorder a ++ preorder b
preorder-append nil b = refl
preorder-append (cons o a) b = rw (preorder-append a b, append_assoc)
