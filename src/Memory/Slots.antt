-- ===== src/Memory/Slots.antt =====
-- The last part of `GraphBufferizer::run` (src/graph_compiler.cpp): the temporaries of a graph are put
-- into slots of one workspace, and a slot is lent on once its buffer is dead.
pub mod Lending
pub mod Safety
use sched_forge.Base.{
  ℕ, ◌+◌, String, Bool, ◌&&◌, Option, none, some, List, [], ◌∷◌, ◌++◌, foldl, ltb, leb,
  if◌then◌else◌,
}
use sched_forge.Graph.Types.{TensorLayout}
use sched_forge.Memory.Ranges.{align_to}

pub record GraphBufferPlan : Type 0 where
  pub name : String
  pub bytes : ℕ
  pub offset : ℕ
  pub alignment : ℕ
  pub first_dispatch : ℕ
  pub last_dispatch : ℕ
  pub value : ℕ
  pub external : Bool
  pub layout : TensorLayout

pub record Slot : Type 0 where
  pub offset : ℕ
  pub bytes : ℕ
  pub last : ℕ

abbrev pub is_reusable : GraphBufferPlan → Slot → Bool
is_reusable t s = ltb s.last t.first_dispatch && leb t.bytes s.bytes

abbrev pub lend_on : Slot → Option (ℕ × List Slot) → Option (ℕ × List Slot)
lend_on s none = none
lend_on s (some (offset, slots)) = some (offset, s ∷ slots)

-- The first reusable slot, `std::find_if`: its offset, and the slots with its new `last`.
unfoldable pub take_slot : GraphBufferPlan → List Slot → Option (ℕ × List Slot)
take_slot t [] = none
take_slot t (s ∷ slots) =
    if is_reusable t s
    then some (s.offset, record s { last = t.last_dispatch } ∷ slots)
    else lend_on s (take_slot t slots)

pub record Workspace : Type 0 where
  pub slots : List Slot
  pub workspace_bytes : ℕ
  pub temporaries : List GraphBufferPlan

abbrev pub empty_workspace : Workspace
empty_workspace = record { slots = []; workspace_bytes = 0; temporaries = [] }

-- The body of the loop over the temporaries, which it gives their offsets in turn.
unfoldable pub assign : Workspace → GraphBufferPlan → Workspace
assign w t = elim (take_slot t w.slots) [
  | none ↦
      let start = align_to w.workspace_bytes t.alignment in
      record {
        slots = w.slots ++ record { offset = start; bytes = t.bytes; last = t.last_dispatch } ∷ [];
        workspace_bytes = start + t.bytes;
        temporaries = w.temporaries ++ record t { offset = start } ∷ [];
      }
  | some (offset, slots) ↦ record w {
    slots = slots;
    temporaries = w.temporaries ++ record t { offset = offset } ∷ [];
  }
]

unfoldable pub assign_all : List GraphBufferPlan → Workspace
assign_all ts = foldl assign empty_workspace ts
