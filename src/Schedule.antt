-- ===== src/Schedule.antt =====
-- include/schedforge/schedforge.h: the target, the problem, the schedule and the execution plan, and
-- src/target.cpp: the register pressure of a schedule.
-- An `int` of the source is a natural number here: every extent, tile, width and count is meant to be
-- non-negative, and the code's `std::max(1, x)` is kept as it stands. A field of the plan that is copied
-- from the step of a loop is an `ℤ`, as the step is.
use sched_forge.Base.{ℕ, ◌+◌, ◌-◌, ◌*◌, ◌/◌, max, Bool, true, false, ltb, if◌then◌else◌}
use sched_forge.Base.Integers.{ℤ, pos}

pub data LoopOrder : Type 0 where
  ijk ikj : LoopOrder

pub data Isa : Type 0 where
  scalar avx2 avx512 neon : Isa

-- The latencies and bandwidths, which are `double`s and only enter the cycle estimate, are left out.
pub record TargetInfo : Type 0 where
  pub isa : Isa
  pub vector_width : ℕ
  pub vector_registers : ℕ
  pub logical_cpus : ℕ
  pub l1_bytes : ℕ
  pub l2_bytes : ℕ
  pub l3_bytes : ℕ
  pub cache_line_bytes : ℕ
  pub page_bytes : ℕ

abbrev pub default_target : TargetInfo
default_target = record {
  isa = avx2;
  vector_width = 8;
  vector_registers = 16;
  logical_cpus = 1;
  l1_bytes = 32 * 1024;
  l2_bytes = 1024 * 1024;
  l3_bytes = 24 * 1024 * 1024;
  cache_line_bytes = 64;
  page_bytes = 4096;
}

pub record Problem : Type 0 where
  pub m : ℕ
  pub n : ℕ
  pub k : ℕ
  pub bias : Bool
  pub relu : Bool

pub record Schedule : Type 0 where
  pub order : LoopOrder
  pub bm : ℕ
  pub bn : ℕ
  pub bk : ℕ
  pub mr : ℕ
  pub nr : ℕ
  pub vector_width : ℕ
  pub threads : ℕ
  pub mc : ℕ
  pub nc : ℕ
  pub kc : ℕ
  pub unroll_k : ℕ
  pub prefetch_distance : ℕ
  pub tiled : Bool
  pub fused : Bool
  pub pack_a : Bool
  pub pack_b : Bool
  pub pin_threads : Bool

abbrev pub default_schedule : Schedule
default_schedule = record {
  order = ikj;
  bm = 32;
  bn = 64;
  bk = 32;
  mr = 4;
  nr = 8;
  vector_width = 8;
  threads = 1;
  mc = 64;
  nc = 128;
  kc = 64;
  unroll_k = 1;
  prefetch_distance = 0;
  tiled = true;
  fused = true;
  pack_a = false;
  pack_b = false;
  pin_threads = false;
}

pub record LoopExecutionPlan : Type 0 where
  pub order : LoopOrder
  pub bm : ℤ
  pub bn : ℤ
  pub bk : ℤ
  pub mr : ℤ
  pub nr : ℤ
  pub vector_width : ℕ
  pub threads : ℕ
  pub mc : ℤ
  pub nc : ℤ
  pub kc : ℤ
  pub unroll_k : ℤ
  pub prefetch_distance : ℕ
  pub tiled : Bool
  pub fused : Bool
  pub pack_a : Bool
  pub pack_b : Bool
  pub pin_threads : Bool
  pub gelu : Bool
  pub residual : Bool

abbrev pub default_plan : LoopExecutionPlan
default_plan = record {
  order = ijk;
  bm = pos 1;
  bn = pos 1;
  bk = pos 1;
  mr = pos 1;
  nr = pos 1;
  vector_width = 1;
  threads = 1;
  mc = pos 1;
  nc = pos 1;
  kc = pos 1;
  unroll_k = pos 1;
  prefetch_distance = 0;
  tiled = false;
  fused = false;
  pack_a = false;
  pack_b = false;
  pin_threads = false;
  gelu = false;
  residual = false;
}

pub record RegisterPressure : Type 0 where
  pub accumulators : ℕ
  pub broadcasts : ℕ
  pub temporaries : ℕ
  pub total : ℕ
  pub spills : Bool

-- The body of `estimate_register_pressure` for a schedule, over the fields it reads.
-- `total > registers - 1` is written without the subtraction, which would stop at 0.
pressure_of : ℕ → ℕ → ℕ → ℕ → ℕ → RegisterPressure
pressure_of mr nr width prefetch registers =
    let accumulators = mr * max 1 ((nr + max 1 width - 1) / max 1 width) in
    let broadcasts : ℕ = if ltb 1 width then 1 else 0 in
    let temporaries = 2 + (if ltb 0 prefetch then 1 else 0) in
    let total = accumulators + broadcasts + temporaries in
    record {
      accumulators = accumulators;
      broadcasts = broadcasts;
      temporaries = temporaries;
      total = total;
      spills = ltb registers (total + 1);
    }

unfoldable pub schedule_pressure : Schedule → TargetInfo → RegisterPressure
unfolding pressure_of
schedule_pressure s t = pressure_of s.mr s.nr s.vector_width s.prefetch_distance t.vector_registers
