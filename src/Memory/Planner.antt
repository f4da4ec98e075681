-- ===== src/Memory/Planner.antt =====
-- `MemoryPlanner` of src/compiler.cpp: the scratch buffers of a kernel in one arena.
pub mod Safety
use sched_forge.Base.{
  ℕ, ◌+◌, ◌*◌, max, String, Bool, true, false, not, ◌&&◌, Option, none, some, List, [], ◌∷◌, ◌++◌,
  find_if, foldl, ltb, leb, if◌then◌else◌,
}
use sched_forge.Schedule.{Problem, Schedule}
use sched_forge.Memory.Ranges.{align_to}

pub record BufferPlan : Type 0 where
  pub name : String
  pub bytes : ℕ
  pub alignment : ℕ
  pub first_use : ℕ
  pub last_use : ℕ
  pub reusable : Bool
  pub offset : ℕ

abbrev pub buffer : String → ℕ → ℕ → ℕ → BufferPlan
buffer name bytes first last = record {
  name = name;
  bytes = bytes;
  alignment = 64;
  first_use = first;
  last_use = last;
  reusable = true;
  offset = 0;
}

abbrev pub when : Bool → BufferPlan → List BufferPlan → List BufferPlan
when true b rest = b ∷ rest
when false b rest = rest

-- The buffers that a schedule needs, before they are placed, for given sizes.
abbrev pub needed : (pack_a pack_b bias relu : Bool) → (a b intermediate : ℕ) → List BufferPlan
needed pack_a pack_b bias relu a b intermediate = when pack_a (buffer "packed_A" a 1 2) (
    when pack_b (buffer "packed_B" b 0 3) (
      when bias (buffer "matmul_intermediate" intermediate 2 3)
        (when relu (buffer "bias_intermediate" intermediate 3 4) [])))

-- The buffers placed so far, in their order, and `arena_end`.
pub record Arena : Type 0 where
  pub placed : List BufferPlan
  pub arena_end : ℕ

-- The body of the outer loop of `plan`: the first placed buffer that is dead and large enough lends
-- its offset; otherwise the buffer goes to the aligned end of the arena.
unfoldable pub place : Arena → BufferPlan → Arena
place arena b =
    elim (find_if (λ previous. ltb previous.last_use b.first_use && leb b.bytes previous.bytes)
      arena.placed) [
        | some previous ↦ record arena {
          placed = arena.placed ++ record b { offset = previous.offset } ∷ [];
        }
        | none ↦
            let start = align_to arena.arena_end b.alignment in
            record {
              placed = arena.placed ++ record b { offset = start } ∷ [];
              arena_end = start + b.bytes;
            }
      ]

unfoldable pub place_all : List BufferPlan → Arena
unfolding place
place_all bs = foldl place (record { placed = []; arena_end = 0 }) bs

unfoldable pub plan : Problem → Schedule → List BufferPlan
plan p s =
    (place_all (
      needed s.pack_a s.pack_b (not s.fused && p.bias) (not s.fused && p.relu) (4 * s.mc * s.kc)
        (4 * s.kc * s.nc) (4 * p.m * p.n))).placed

unfoldable pub peak_bytes : List BufferPlan → ℕ
peak_bytes bs = foldl (λ peak b. max peak (b.offset + b.bytes)) 0 bs
