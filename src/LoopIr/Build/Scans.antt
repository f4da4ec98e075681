-- ===== src/LoopIr/Build/Scans.antt =====
-- What the analysis accumulates over each part of a scheduled loop nest.
use sched_forge.Base.{
  ℕ, ◌+◌, ◌≡◌, refl, ◌≤◌, max, Bool, true, false, not, ltb, ◌==◌, if◌then◌else◌, foldl-append,
  arith, ◌&&◌, ◌||◌, Bool-cases, inl, inr,
}
use sched_forge.Schedule.{Problem, Schedule}
use sched_forge.LoopIr.Ops.{
  LoopOpKind, LoopFields, LoopBody, nil, cons, operation, append, preorder, preorder-append,
}
use sched_forge.LoopIr.Analyze.{Scan, start_scan, scan_step, scan, npos}
use sched_forge.LoopIr.Build.{
  buffer_ops, reduction_body, epilogue, element_body, element_loops, scalar_loops,
  separate_epilogue, scheduled_operations, width, scalar_nest, is_ikj,
}

scan-append : (st : Scan) (a b : LoopBody) → scan st (append a b) ≡ scan (scan st a) b
unfolding scan
scan-append st a b = rw (preorder-append a b) (foldl-append scan_step st (preorder a) (preorder b))

scan-nil : (st : Scan) → scan st nil ≡ st
unfolding scan
scan-nil st = refl

scan-cons :
    (st : Scan) (kind : LoopOpKind) (f : LoopFields) (body rest : LoopBody)
    → scan st (cons (operation kind f body) rest)
      ≡ scan (scan (scan_step st (operation kind f body)) body) rest
unfolding scan
scan-cons st kind f body rest =
    foldl-append scan_step (scan_step st (operation kind f body)) (preorder body) (preorder rest)

ruleset scans = (scan-nil, scan-cons, scan-append)

scan-buffers_a :
    (st : Scan) (enabled : Bool)
    → scan st (buffer_ops enabled "%A" "%packedA" "packed_a") ≡ record st {
      traversal_index = st.traversal_index + (if enabled then 2 else 0);
      pack_a = if enabled then true else st.pack_a;
    }
unfolding buffer_ops scan scan_step
scan-buffers_a st true = ground arith
scan-buffers_a st false = ground arith

scan-buffers_b :
    (st : Scan) (enabled : Bool)
    → scan st (buffer_ops enabled "%B" "%packedB" "packed_b") ≡ record st {
      traversal_index = st.traversal_index + (if enabled then 2 else 0);
      pack_b = if enabled then true else st.pack_b;
    }
unfolding buffer_ops scan scan_step
scan-buffers_b st true = ground arith
scan-buffers_b st false = ground arith

module _ (p : Problem) (s : Schedule) where
  scan-reduction_body :
      (st : Scan)
      → scan st (reduction_body p s) ≡ record st {
        traversal_index =
            st.traversal_index
            + (if ltb 0 s.prefetch_distance then 1 else 0)
            + (if ltb 1 (width p s) then 1 else 0)
            + 3;
        prefetch_distance =
            if ltb 0 s.prefetch_distance then s.prefetch_distance else st.prefetch_distance;
        widest = max st.widest (width p s);
      }
  unfolding reduction_body scan scan_step
  scan-reduction_body st = ground arith

  scan-epilogue :
      (st : Scan) (fused : Bool)
      → scan st (if fused then epilogue p s else nil) ≡ record st {
        traversal_index =
            st.traversal_index
            + (if fused then (if p.bias then 1 else 0) + (if p.relu then 1 else 0) else 0);
      }
  unfolding epilogue scan scan_step
  scan-epilogue st true = ground arith
  scan-epilogue st false = ground arith

  -- The parts of the scan that the plan reads, but for the traversal index.
  record Scanned (st : Scan) (kk jj : ℕ) (r : Scan) : Type 0 where
    kk_lem : r.kk_position ≡ kk
    jj_lem : r.jj_position ≡ jj
    pack_a_lem : r.pack_a ≡ st.pack_a
    pack_b_lem : r.pack_b ≡ st.pack_b
    prefetch_lem :
        r.prefetch_distance
        ≡ (if ltb 0 s.prefetch_distance then s.prefetch_distance else st.prefetch_distance)
    gelu_lem : r.gelu_seen ≡ st.gelu_seen
    residual_lem : r.residual_seen ≡ st.residual_seen
    widest_lem : r.widest ≡ max st.widest (width p s)

  scan-separate :
      (st : Scan)
      → scan st (separate_epilogue p s) ≡ record st {
        traversal_index =
            st.traversal_index
            + (if not s.fused || is_ikj s.order && (width p s == 1)
                then (if p.bias then 1 else 0) + (if p.relu then 1 else 0)
                else 0);
      }
  unfolding separate_epilogue scan scan_step
  scan-separate st = elim (Bool-cases (not s.fused || is_ikj s.order && (width p s == 1))) [
    | inl e ↦ rw e (ground arith)
    | inr e ↦ rw e (ground arith)
  ]

  module _ (st : Scan) (kk : st.kk_position ≡ npos) (jj : st.jj_position ≡ npos)
      (small : st.traversal_index ≤ 4) where
    scan-scalar_loops :
        Scanned st
          (st.traversal_index + 1)
          (st.traversal_index + 2)
          (scan st (cons (scalar_loops p s) (separate_epilogue p s)))
    unfolding scalar_loops
    scan-scalar_loops =
        simp (scans, scan-separate, scan-reduction_body) (unfold scan_step in ground arith)

    scan-element_loops :
        Scanned st
          (st.traversal_index + 5)
          (st.traversal_index + 1)
          (scan st (cons (element_loops p s) (separate_epilogue p s)))
    unfolding element_loops element_body
    scan-element_loops =
        simp (scans, scan-separate, scan-epilogue, scan-reduction_body)
          (unfold scan_step in ground arith)

  -- The scan of the whole program, started at `start_scan`.
  pub record ScannedAll (r : Scan) : Type 0 where
    pub order_lem : ltb r.kk_position r.jj_position ≡ scalar_nest p s
    pub pack_a_lem : r.pack_a ≡ s.pack_a
    pub pack_b_lem : r.pack_b ≡ s.pack_b
    pub prefetch_lem : r.prefetch_distance ≡ s.prefetch_distance
    pub gelu_lem : r.gelu_seen ≡ false
    pub residual_lem : r.residual_seen ≡ false
    pub widest_lem : r.widest ≡ width p s

  scan-nest :
      (st : Scan)
      → st.kk_position ≡ npos
      → st.jj_position ≡ npos
      → st.traversal_index ≤ 4
      → (b : Bool)
      → Scanned st
          (if b then st.traversal_index + 1 else st.traversal_index + 5)
          (if b then st.traversal_index + 2 else st.traversal_index + 1)
          (scan st
            (cons (if b then scalar_loops p s else element_loops p s) (separate_epilogue p s)))
  scan-nest st kk jj small true = scan-scalar_loops st kk jj small
  scan-nest st kk jj small false = scan-element_loops st kk jj small

  abbrev after_buffers : Scan
  after_buffers = record start_scan {
    traversal_index = 0 + (if s.pack_a then 2 else 0) + (if s.pack_b then 2 else 0);
    pack_a = if s.pack_a then true else false;
    pack_b = if s.pack_b then true else false;
  }

  scanned_all :
      (b : Bool) (i : ℕ) (r : Scan)
      → scalar_nest p s ≡ b
      → Scanned after_buffers (if b then i + 1 else i + 5) (if b then i + 2 else i + 1) r
      → ScannedAll r
  scanned_all b i r e v = record {
    order_lem = rw e (ground (arith, v.kk_lem, v.jj_lem));
    pack_a_lem = ground (arith, v.pack_a_lem);
    pack_b_lem = ground (arith, v.pack_b_lem);
    prefetch_lem = ground (arith, v.prefetch_lem);
    gelu_lem = v.gelu_lem;
    residual_lem = v.residual_lem;
    widest_lem = ground (arith, v.widest_lem);
  }

  pub scan-scheduled_operations : ScannedAll (scan start_scan (scheduled_operations p s))
  unfolding scheduled_operations
  scan-scheduled_operations =
      simp (scan-append, scan-buffers_a, scan-buffers_b)
        (scanned_all (scalar_nest p s) _ _ refl
          (scan-nest after_buffers refl refl (ground arith) (scalar_nest p s)))
