-- ===== src/Memory/Slots/Lending.antt =====
-- What `take_slot` does to slots that lie one after another.
use sched_forge.Base.{
  ℕ, ◌+◌, ◌≤◌, ◌<◌, ◌≡◌, refl, subst, ◌⊎◌, inl, inr, Bool-cases, Option-cases, some, some_injective,
  List, [], ◌∷◌, ◌++◌, All, Pairwise, arith,
}
use mathlib.Core.Option.{none-ne-some}
use sched_forge.Memory.Ranges.{Extent, Apart}
use sched_forge.Memory.Slots.{GraphBufferPlan, Slot, is_reusable, lend_on, take_slot}

abbrev pub extent_at : GraphBufferPlan → ℕ → Extent
extent_at t offset = record {
  offset = offset;
  bytes = t.bytes;
  first = t.first_dispatch;
  last = t.last_dispatch;
}

abbrev pub Before : Slot → Slot → Type 0
Before a b = a.offset + a.bytes ≤ b.offset

-- The buffer lies in the slot and is dead when the slot is free.
abbrev pub Holds : Extent → Slot → Type 0
Holds e s = (e.offset ≡ s.offset) × (e.bytes ≤ s.bytes) × (e.last ≤ s.last)

abbrev pub HeldBy : Extent → List Slot → Type 0
HeldBy e [] = ⊥
HeldBy e (s ∷ slots) = Holds e s ⊎ HeldBy e slots

pub HeldBy-snoc :
    (e : Extent) (slots : List Slot) (s : Slot) → HeldBy e slots → HeldBy e (slots ++ s ∷ [])
HeldBy-snoc e (x ∷ slots) s (inl h) = inl h
HeldBy-snoc e (x ∷ slots) s (inr h) = inr (HeldBy-snoc e slots s h)
HeldBy-snoc e [] s h = absurd h

pub HeldBy-last :
    (e : Extent) (slots : List Slot) (s : Slot) → Holds e s → HeldBy e (slots ++ s ∷ [])
HeldBy-last e [] s h = inl h
HeldBy-last e (x ∷ slots) s h = inr (HeldBy-last e slots s h)

-- A bound that holds of every slot holds of what a slot holds.
pub HeldBy-bound :
    (limit : ℕ) (e : Extent) (slots : List Slot)
    → All (λ s. s.offset + s.bytes ≤ limit) slots
    → HeldBy e slots
    → e.offset + e.bytes ≤ limit
HeldBy-bound limit e (s ∷ slots) h (inl k) = omega arith
HeldBy-bound limit e (s ∷ slots) h (inr k) = HeldBy-bound limit e slots h.1 k
HeldBy-bound limit e [] h k = absurd k

HeldBy-after :
    (limit : ℕ) (e : Extent) (slots : List Slot)
    → All (λ s. limit ≤ s.offset) slots
    → HeldBy e slots
    → limit ≤ e.offset
HeldBy-after limit e (s ∷ slots) h (inl k) = omega arith
HeldBy-after limit e (s ∷ slots) h (inr k) = HeldBy-after limit e slots h.1 k
HeldBy-after limit e [] h k = absurd k

module _ (t : GraphBufferPlan) where
  -- The result of `take_slot`, as a relation.
  pub data Takes : List Slot → ℕ → List Slot → Type 0 where
    here :
        (s : Slot) (slots : List Slot)
        → s.last < t.first_dispatch
        → t.bytes ≤ s.bytes
        → Takes (s ∷ slots) s.offset (record s { last = t.last_dispatch } ∷ slots)
    there :
        (s : Slot) (slots slots' : List Slot) (o : ℕ)
        → Takes slots o slots'
        → Takes (s ∷ slots) o (s ∷ slots')

  Takes-step :
      (s : Slot) (slots slots' slots'' : List Slot) (o o'' : ℕ)
      → lend_on s (some (o'', slots'')) ≡ some (o, slots')
      → Takes slots o'' slots''
      → Takes (s ∷ slots) o slots'
  Takes-step s slots slots' slots'' o o'' h k =
      subst (λ (q : ℕ × List Slot). Takes (s ∷ slots) q.0 q.1) (some_injective h)
        (there s slots slots'' o'' k)

  pub take_slot-Takes :
      (slots slots' : List Slot) (o : ℕ)
      → take_slot t slots ≡ some (o, slots')
      → Takes slots o slots'
  unfolding take_slot
  take_slot-Takes [] slots' o h = cc
  take_slot-Takes (s ∷ slots) slots' o h = elim (Bool-cases (is_reusable t s)) [
    | inl e ↦
        subst (λ (q : ℕ × List Slot). Takes (s ∷ slots) q.0 q.1) (some_injective (rw e at h))
          (here s slots (ground arith) (ground arith))
    | inr e ↦ elim (Option-cases (take_slot t slots)) [
      | inl n ↦ absurd (none-ne-some (o, slots') (rw (e, n) at h))
      | inr ((o'', slots''), n) ↦
          Takes-step s slots slots' slots'' o o'' (rw (e, n) at h)
            (take_slot-Takes slots slots'' o'' n)
    ]
  ]

  -- Only the `last` of one slot changes.
  pub Takes-All :
      (P : ℕ → ℕ → Type 0) {slots slots' : List Slot} {o : ℕ}
      → Takes slots o slots'
      → All (λ s. P s.offset s.bytes) slots
      → All (λ s. P s.offset s.bytes) slots'
  Takes-All P (here s slots a b) h = (h.0, h.1)
  Takes-All P (there s slots slots' o k) h = (h.0, Takes-All P k h.1)

  pub Takes-Before :
      {slots slots' : List Slot} {o : ℕ}
      → Takes slots o slots'
      → Pairwise Before slots
      → Pairwise Before slots'
  Takes-Before (here s slots a b) h = (h.0, h.1)
  Takes-Before (there s slots slots' o k) h =
      (Takes-All (λ offset bytes. s.offset + s.bytes ≤ offset) k h.0, Takes-Before k h.1)

  -- The new buffer is held by the slot it takes.
  pub Takes-held :
      {slots slots' : List Slot} {o : ℕ} → Takes slots o slots' → HeldBy (extent_at t o) slots'
  Takes-held (here s slots a b) = inl (refl, b, omega arith)
  Takes-held (there s slots slots' o k) = inr (Takes-held k)

  Takes-after :
      (limit : ℕ) {slots slots' : List Slot} {o : ℕ}
      → Takes slots o slots'
      → All (λ s. limit ≤ s.offset) slots
      → limit ≤ o
  Takes-after limit (here s slots a b) h = h.0
  Takes-after limit (there s slots slots' o k) h = Takes-after limit k h.1

  -- What a slot held stays held, apart from the new buffer.
  pub Takes-keeps :
      (e : Extent) {slots slots' : List Slot} {o : ℕ}
      → t.first_dispatch ≤ t.last_dispatch
      → Takes slots o slots'
      → Pairwise Before slots
      → HeldBy e slots
      → HeldBy e slots' × Apart e (extent_at t o)
  Takes-keeps e l (here s slots a b) h (inl k) = (inl (k.0, k.1, omega arith), inl (omega arith))
  Takes-keeps e l (here s slots a b) h (inr k) =
      (inr k, inr (inr (inr (omega (arith, HeldBy-after (s.offset + s.bytes) e slots h.0 k)))))
  Takes-keeps e l (there s slots slots' o x) h (inl k) =
      (inl k, inr (inr (inl (omega (arith, Takes-after (s.offset + s.bytes) x h.0)))))
  Takes-keeps e l (there s slots slots' o x) h (inr k) =
      let r = Takes-keeps e l x h.1 k in (inr r.0, r.1)
