-- ===== src/Memory/Slots/Safety.antt =====
-- The temporaries that `GraphBufferizer::run` puts into one workspace.
use sched_forge.Base.{
  ℕ, ◌+◌, ◌%◌, ◌≤◌, ◌≡◌, refl, inl, inr, Option-cases, List, [], ◌∷◌, ◌++◌, foldl, All, Pairwise,
  All-snoc, All-map, Pairwise-snoc, arith,
}
use sched_forge.Memory.Ranges.{Extent, Apart, align_to, align_to-64}
use sched_forge.Memory.Slots.{
  GraphBufferPlan, Slot, Workspace, empty_workspace, take_slot, assign, assign_all,
}
use sched_forge.Memory.Slots.Lending.{
  extent_at, Before, HeldBy, HeldBy-snoc, HeldBy-last, HeldBy-bound, Takes, take_slot-Takes,
  Takes-All, Takes-Before, Takes-held, Takes-keeps,
}

abbrev pub extent : GraphBufferPlan → Extent
extent t = extent_at t t.offset

abbrev pub TemporariesApart : GraphBufferPlan → GraphBufferPlan → Type 0
TemporariesApart a b = Apart (extent a) (extent b)

-- A plan as the bufferizer makes it: its lifetime is in order and its alignment is 64.
abbrev pub IsPlan : GraphBufferPlan → Type 0
IsPlan t = (t.first_dispatch ≤ t.last_dispatch) × (t.alignment ≡ 64)

-- The slots lie one after another within the workspace, hold every temporary, and the temporaries
-- are apart.
record IsLaid (w : Workspace) : Type 0 where
  before : Pairwise Before w.slots
  within : All (λ s. s.offset + s.bytes ≤ w.workspace_bytes) w.slots
  aligned : All (λ s. s.offset % 64 ≡ 0) w.slots
  held : All (λ t. HeldBy (extent t) w.slots) w.temporaries
  apart : Pairwise TemporariesApart w.temporaries

-- What a slot holds starts where the slot starts.
HeldBy-aligned :
    (e : Extent) (slots : List Slot)
    → All (λ s. s.offset % 64 ≡ 0) slots
    → HeldBy e slots
    → e.offset % 64 ≡ 0
HeldBy-aligned e (s ∷ slots) h (inl k) = omega arith
HeldBy-aligned e (s ∷ slots) h (inr k) = HeldBy-aligned e slots h.1 k
HeldBy-aligned e [] h k = absurd k

-- The slot behind the others.
fresh-IsLaid :
    (w : Workspace) (t : GraphBufferPlan) (start : ℕ)
    → w.workspace_bytes ≤ start
    → start % 64 ≡ 0
    → IsLaid w
    → IsLaid (record {
      slots = w.slots ++ record { offset = start; bytes = t.bytes; last = t.last_dispatch } ∷ [];
      workspace_bytes = start + t.bytes;
      temporaries = w.temporaries ++ record t { offset = start } ∷ [];
    })
fresh-IsLaid w t start l a i =
    let slot : Slot = record { offset = start; bytes = t.bytes; last = t.last_dispatch } in
    record {
      before =
          Pairwise-snoc Before w.slots slot i.before
            (All-map _ (λ s. Before s slot) w.slots (λ s h. omega arith) i.within);
      within =
          All-snoc (λ s. s.offset + s.bytes ≤ start + t.bytes) w.slots slot
            (All-map _ _ w.slots (λ s h. omega arith) i.within) (omega arith);
      aligned = All-snoc (λ s. s.offset % 64 ≡ 0) w.slots slot i.aligned a;
      held =
          All-snoc (λ q. HeldBy (extent q) (w.slots ++ slot ∷ [])) w.temporaries _
            (All-map _ _ w.temporaries (λ q h. HeldBy-snoc (extent q) w.slots slot h) i.held)
            (HeldBy-last (extent_at t start) w.slots slot (refl, omega arith, omega arith));
      apart =
          Pairwise-snoc TemporariesApart w.temporaries (record t { offset = start }) i.apart
            (All-map _ _ w.temporaries
              (λ q h. inr (
                inr (
                  inl
                    (omega (arith, HeldBy-bound w.workspace_bytes (extent q) w.slots i.within h)))))
              i.held);
    }

lent-IsLaid :
    (w : Workspace) (t : GraphBufferPlan) (o : ℕ) (slots : List Slot)
    → IsPlan t
    → Takes t w.slots o slots
    → IsLaid w
    → IsLaid
        (record w { slots = slots; temporaries = w.temporaries ++ record t { offset = o } ∷ [] })
lent-IsLaid w t o slots p k i = record {
  before = Takes-Before t k i.before;
  within = Takes-All t (λ offset bytes. offset + bytes ≤ w.workspace_bytes) k i.within;
  aligned = Takes-All t (λ offset bytes. offset % 64 ≡ 0) k i.aligned;
  held =
      All-snoc (λ q. HeldBy (extent q) slots) w.temporaries (record t { offset = o })
        (All-map _ _ w.temporaries (λ q h. (Takes-keeps t (extent q) p.0 k i.before h).0) i.held)
        (Takes-held t k);
  apart =
      Pairwise-snoc TemporariesApart w.temporaries (record t { offset = o }) i.apart
        (All-map _ _ w.temporaries (λ q h. (Takes-keeps t (extent q) p.0 k i.before h).1) i.held);
}

align_to-plan : (x a : ℕ) → a ≡ 64 → (x ≤ align_to x a) × (align_to x a % 64 ≡ 0)
align_to-plan x a e = let b = align_to-64 x in rw e (b.0, b.1)

assign-IsLaid : (w : Workspace) (t : GraphBufferPlan) → IsPlan t → IsLaid w → IsLaid (assign w t)
unfolding assign
assign-IsLaid w t p i = elim (Option-cases (take_slot t w.slots)) [
  | inl n ↦
      let a = align_to-plan w.workspace_bytes t.alignment p.1 in
      rw (n, assign) (fresh-IsLaid w t (align_to w.workspace_bytes t.alignment) a.0 a.1 i)
  | inr ((o, slots), n) ↦
      rw (n, assign) (lent-IsLaid w t o slots p (take_slot-Takes t w.slots slots o n) i)
]

foldl-IsLaid :
    (ts : List GraphBufferPlan) (w : Workspace)
    → All IsPlan ts
    → IsLaid w
    → IsLaid (foldl assign w ts)
foldl-IsLaid [] w h i = i
foldl-IsLaid (t ∷ ts) w h i = foldl-IsLaid ts (assign w t) h.1 (assign-IsLaid w t h.0 i)

assign_all-IsLaid : (ts : List GraphBufferPlan) → All IsPlan ts → IsLaid (assign_all ts)
unfolding assign_all
assign_all-IsLaid ts h =
    foldl-IsLaid ts empty_workspace h
      (record { before = tt; within = tt; aligned = tt; held = tt; apart = tt })

-- When every temporary has a lifetime in order and alignment 64, two temporaries whose lifetimes meet
-- share no byte of the workspace, and every temporary starts at a multiple of 64 and ends within
-- `workspace_bytes`.
pub assign_all-Pairwise :
    (ts : List GraphBufferPlan)
    → All IsPlan ts
    → Pairwise TemporariesApart (assign_all ts).temporaries
      × All
          (λ t. (t.offset % 64 ≡ 0) × (t.offset + t.bytes ≤ (assign_all ts).workspace_bytes))
          (assign_all ts).temporaries
assign_all-Pairwise ts h =
    let i = assign_all-IsLaid ts h in
    let w = assign_all ts in
    (
      i.apart,
      All-map _ _ w.temporaries
          (λ t k. (
            HeldBy-aligned (extent t) w.slots i.aligned k,
            HeldBy-bound w.workspace_bytes (extent t) w.slots i.within k,
          ))
          i.held,
    )
