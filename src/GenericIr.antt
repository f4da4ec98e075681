-- ===== src/GenericIr.antt =====
-- src/generic_ir.cpp: values with their users, operations with their operands, blocks, and `IRBuilder`.
-- A pointer is the index of what it points to in a list that only grows; a null pointer is `none`.
-- Extents and widths are not negative.
pub mod Builder
pub mod Uses
pub mod Replacing
pub mod Programs
use Prim.Native.String.{String, ◌++◌ as str_append}
use sched_forge.Base.{
  ℕ, zero, suc, ◌+◌, ◌==◌, if◌then◌else◌, Option, none, some, List, [], ◌∷◌, ◌++◌, length,
  get_elem?, update, foldl, to_string, list_at,
}

-- The classes `ScalarType`, `TensorType`, `MemRefType` and `VectorType`.
pub data IrType : Type 0 where
  index f32 : IrType
  tensor memref vector : List ℕ → IrType → IrType

pub record Value : Type 0 where
  pub type : IrType
  pub defining_op : Option ℕ
  pub name : String
  pub users : List ℕ

-- `ForOperation` has bounds and a body besides.
pub record ForFields : Type 0 where
  pub lower : ℕ
  pub upper : ℕ
  pub step : ℕ
  pub body : ℕ

pub record Operation : Type 0 where
  pub name : String
  pub operands : List ℕ
  pub results : List ℕ
  pub attributes : List (String × String)
  pub loop : Option ForFields

pub record Block : Type 0 where
  pub arguments : List ℕ
  pub operations : List ℕ

-- Everything that pointers lead to, and the counter of `next_value_id`.
pub record Store : Type 0 where
  pub values : List Value
  pub operations : List Operation
  pub blocks : List Block
  pub next_value_id : ℕ

-- `Value::addUser`.
abbrev pub add_user : ℕ → Value → Value
add_user o v = record v { users = v.users ++ o ∷ [] }

-- `for (Value* operand : operands_) operand->addUser(this);`
unfoldable pub add_users : ℕ → List Value → List ℕ → List Value
add_users o values [] = values
add_users o values (v ∷ vs) = add_users o (update values v (add_user o)) vs

-- The results of an operation, one value each.
unfoldable pub add_results : Store → ℕ → List IrType → Store × List ℕ
add_results s o [] = (s, [])
add_results s o (t ∷ ts) =
    let value : Value = record {
      type = t;
      defining_op = some o;
      name = str_append "%v" (to_string s.next_value_id);
      users = [];
    } in
    let rest =
      add_results
        (record s { values = s.values ++ value ∷ []; next_value_id = s.next_value_id + 1 }) o ts in
    (rest.0, length s.values ∷ rest.1)

-- `Operation::Operation`, and its index.
unfoldable pub make_operation : Store → String → List ℕ → List IrType → Option ForFields → Store × ℕ
unfolding add_users add_results
make_operation s name operands result_types loop =
    let o = length s.operations in
    let (s', results) =
      add_results (record s { values = add_users o s.values operands }) o result_types in
    let operation : Operation = record {
      name = name;
      operands = operands;
      results = results;
      attributes = [];
      loop = loop;
    } in
    (record s' { operations = s'.operations ++ operation ∷ [] }, o)

abbrev add_attribute : String → String → Operation → Operation
add_attribute key value o = record o { attributes = (key, value) ∷ o.attributes }

-- `Operation::setAttribute`; the entry added last is the one found.
unfoldable pub set_attribute : Store → ℕ → String → String → Store
set_attribute s o key value = record s {
  operations = update s.operations o (add_attribute key value);
}

abbrev add_argument_to : ℕ → Block → Block
add_argument_to v b = record b { arguments = b.arguments ++ v ∷ [] }

abbrev append_to : ℕ → Block → Block
append_to o b = record b { operations = b.operations ++ o ∷ [] }

-- `Block::addArgument` and the value it returns.
unfoldable pub add_argument : Store → ℕ → IrType → String → Store × ℕ
add_argument s block type name =
    let value : Value = record { type = type; defining_op = none; name = name; users = [] } in
    (
      record s {
        values = s.values ++ value ∷ [];
        blocks = update s.blocks block (add_argument_to (length s.values));
      },
      length s.values,
    )

-- `Block::append`.
unfoldable pub append : Store → ℕ → ℕ → Store
append s block o = record s { blocks = update s.blocks block (append_to o) }

abbrev pub replace_all : ℕ → ℕ → List ℕ → List ℕ
replace_all old new [] = []
replace_all old new (v ∷ vs) =
    let rest = replace_all old new vs in (if v == old then new else v) ∷ rest

abbrev pub replace_in : ℕ → ℕ → Operation → Operation
replace_in old new o = record o { operands = replace_all old new o.operands }

-- How often `Operation::replaceOperand` calls `addUser`: once for each operand replaced.
unfoldable pub add_user_times : ℕ → ℕ → ℕ → List ℕ → List Value → List Value
add_user_times o old new [] values = values
add_user_times o old new (v ∷ vs) values =
    add_user_times o old new vs (if v == old then update values new (add_user o) else values)

-- `Operation::replaceOperand`.
unfoldable pub replace_operand : Store → ℕ → ℕ → ℕ → Store
unfolding add_user_times list_at
replace_operand s o old new = record s {
  values =
      add_user_times o old new (list_at (λ (x : Operation). x.operands) s.operations o) s.values;
  operations = update s.operations o (replace_in old new);
}

unfoldable pub replace_operands : Store → List ℕ → ℕ → ℕ → Store
unfolding replace_operand
replace_operands s [] old new = s
replace_operands s (o ∷ os) old new = replace_operands (replace_operand s o old new) os old new

abbrev pub clear_users : Value → Value
clear_users v = record v { users = [] }

-- `Value::replaceAllUsesWith`.
unfoldable pub replace_all_uses_with : Store → ℕ → ℕ → Store
unfolding replace_operands list_at
replace_all_uses_with s old new =
    let users = list_at (λ (v : Value). v.users) s.values old in
    let replaced = replace_operands s users old new in
    record replaced { values = update replaced.values old clear_users }
