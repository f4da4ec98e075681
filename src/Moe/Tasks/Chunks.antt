-- ===== src/Moe/Tasks/Chunks.antt =====
-- Which tasks cover a position of the dispatched tokens, before the tasks are sorted.
use sched_forge.Base.{
  ℕ, zero, suc, ◌+◌, ◌≤◌, ◌<◌, ◌≡◌, inl, inr, refl, Bool, true, false, Bool-cases, ◌&&◌, List, [],
  ◌∷◌, ◌++◌, ltb, leb, ◌==◌, if◌then◌else◌, arith,
}
use sched_forge.Moe.Tasks.{
  MoeExecutionSchedule, MoeTask, is_load_aware, chunk_of, chunks, expert_tasks, tasks_from,
}

abbrev pub covers : ℕ → ℕ → MoeTask → Bool
covers expert x t = (t.expert == expert) && leb t.begin x && ltb x t.stop

-- How many tasks of the expert cover the position.
abbrev pub covering : ℕ → ℕ → List MoeTask → ℕ
covering expert x [] = 0
covering expert x (t ∷ ts) =
    if covers expert x t then suc (covering expert x ts) else covering expert x ts

pub covering-append :
    (e x : ℕ) (ts us : List MoeTask) → covering e x (ts ++ us) ≡ covering e x ts + covering e x us
covering-append e x [] us = omega arith
covering-append e x (t ∷ ts) us = ground (arith, covering-append e x ts us)

abbrev pub bit : Bool → ℕ
bit true = 1
bit false = 0

chunks-covering :
    (s : MoeExecutionSchedule) (expert chunk limit fuel begin e x : ℕ)
    → 0 < chunk
    → limit ≤ begin + fuel
    → covering e x (chunks s expert chunk limit fuel begin)
      ≡ bit ((expert == e) && leb begin x && ltb x limit)
unfolding chunks
chunks-covering s expert chunk limit zero begin e x p h = ground arith
chunks-covering s expert chunk limit (suc fuel) begin e x p h =
    let rest = chunks-covering s expert chunk limit fuel (begin + chunk) e x p (omega arith) in
    elim (Bool-cases (ltb begin limit)) [
      | inl t ↦ rw (t, chunks) (ground (arith, rest))
      | inr t ↦ rw (t, chunks) (ground arith)
    ]

pub chunk_of-positive : (s : MoeExecutionSchedule) (count : ℕ) → 0 < count → 0 < chunk_of s count
unfolding chunk_of
chunk_of-positive s count h =
    elim (Bool-cases (is_load_aware s.task_scheduling && ltb s.split_threshold count)) [
      | inl e ↦ rw (e, chunk_of) (omega arith)
      | inr e ↦ rw (e, chunk_of) h
    ]

expert_tasks-covering :
    (s : MoeExecutionSchedule) (expert begin count e x : ℕ)
    → covering e x (expert_tasks s expert begin count)
      ≡ bit ((expert == e) && leb begin x && ltb x (begin + count))
unfolding expert_tasks
expert_tasks-covering s expert begin count e x = elim (Bool-cases (count == 0)) [
  | inl t ↦ rw (t, expert_tasks) (ground arith)
  | inr t ↦
      rw (t, expert_tasks)
        (chunks-covering s expert (chunk_of s count) (begin + count) count begin e x
          (chunk_of-positive s count (ground arith)) (omega arith))
]

-- `offsets[expert]`, the sum of the counts before the expert.
unfoldable pub offset : List ℕ → ℕ → ℕ
offset [] expert = 0
offset (count ∷ counts) zero = 0
offset (count ∷ counts) (suc expert) = count + offset counts expert

-- Whether the position is one of the expert's.
abbrev pub owns : List ℕ → ℕ → ℕ → Bool
owns counts expert x = leb (offset counts expert) x && ltb x (offset counts (suc expert))

offset-zero : (counts : List ℕ) → offset counts 0 ≡ 0
unfolding offset
offset-zero [] = refl
offset-zero (count ∷ counts) = refl

-- An expert before the first has no task.
tasks_from-covering_before :
    (s : MoeExecutionSchedule) (counts : List ℕ) (expert begin e x : ℕ)
    → e < expert
    → covering e x (tasks_from s expert begin counts) ≡ 0
unfolding tasks_from
tasks_from-covering_before s [] expert begin e x h = refl
tasks_from-covering_before s (count ∷ counts) expert begin e x h = ground (
  arith,
  covering-append e x (expert_tasks s expert begin count)
      (tasks_from s (suc expert) (begin + count) counts),
  expert_tasks-covering s expert begin count e x,
  tasks_from-covering_before s counts (suc expert) (begin + count) e x (omega arith),
)

pub tasks_from-covering :
    (s : MoeExecutionSchedule) (counts : List ℕ) (expert begin e x : ℕ)
    → covering (expert + e) x (tasks_from s expert begin counts)
      ≡ bit (leb (begin + offset counts e) x && ltb x (begin + offset counts (suc e)))
unfolding tasks_from offset
tasks_from-covering s [] expert begin e x = ground arith
tasks_from-covering s (count ∷ counts) expert begin zero x = ground (
  arith,
  covering-append (expert + 0) x (expert_tasks s expert begin count)
      (tasks_from s (suc expert) (begin + count) counts),
  expert_tasks-covering s expert begin count (expert + 0) x,
  tasks_from-covering_before s counts (suc expert) (begin + count) (expert + 0) x (omega arith),
  offset-zero counts,
)
tasks_from-covering s (count ∷ counts) expert begin (suc e) x =
    let shift : expert + suc e ≡ suc expert + e = omega arith in
    rw shift (
      ground (
        arith,
        covering-append (suc expert + e) x (expert_tasks s expert begin count)
            (tasks_from s (suc expert) (begin + count) counts),
        expert_tasks-covering s expert begin count (suc expert + e) x,
        tasks_from-covering s counts (suc expert) (begin + count) e x,
      ))
