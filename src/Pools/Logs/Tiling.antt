-- ===== src/Pools/Logs/Tiling.antt =====
-- Which ranges a log scan asks for when every request is answered.
use mathlib.Core.List.{append_assoc}
use native.Mathlib.Nat.{add-div_right, div-eq_of_lt}
use titanarb_engine.Base.{
  In, ◌↔◌, ℕ, zero, suc, ◌+◌, ◌-◌, ◌≤◌, ◌<◌, ◌≡◌, refl, ◌∙◌, ◌≢◌, ◌⊎◌, inl, inr, true, false, ◌||◌,
  none, some, List, [], ◌∷◌, ◌++◌, Text, arith, u64, ltb, ◌==◌, not-==, ==_iff, length,
}
use titanarb_engine.Pools.Logs.Reported.{gather, Reported, gathered_iff}
use titanarb_engine.Pools.Logs.{
  LogEntry, Source, Scan, chunk_end, take_logs, scan_loop, empty_scan, changed_pools,
  get_logs_chunk_size, chunk_total, start_block,
}

-- The ranges follow one another from `a` to `b`, each of exactly `c` blocks but the last, which has
-- at most as many.
abbrev pub IsTiling : ℕ → ℕ → ℕ → List (ℕ × ℕ) → Type 0
IsTiling c a b [] = ⊥
IsTiling c a b ((x, y) ∷ []) = (x ≡ a) × (y ≡ b) × (a ≤ b) × (b < a + c)
IsTiling c a b ((x, y) ∷ t ∷ ts) =
    (x ≡ a) × (y + 1 ≡ a + c) × (y < b) × IsTiling c (y + 1) b (t ∷ ts)

-- Every request is answered and the context is never cancelled.
pub record IsAnswered (src : Source) : Type 0 where
  pub running : (n : ℕ) → src.cancels n ≡ false
  pub answers : (a b : ℕ) → (es : List LogEntry) × (src.respond a b ≡ some es)

chunk_end_lem :
    (c to start : ℕ)
    → 0 < c
    → start ≤ to
    → to + c < u64
    → ((chunk_end c to start ≡ to) × (to < start + c))
      ⊎ ((chunk_end c to start + 1 ≡ start + c) × (chunk_end c to start < to))
unfolding chunk_end
chunk_end_lem c to start h k l = ground arith

record Scanned (src : Source) (c to start : ℕ) (s r : Scan) : Type 0 where
  ranges : List (ℕ × ℕ)
  requested : r.requests ≡ s.requests ++ ranges
  tiled : IsTiling c start to ranges
  gathered : r.changed ≡ gather src ranges s.changed
  failure : r.failure ≡ s.failure
  attempted : r.stats.chunks_attempted ≡ s.stats.chunks_attempted + length ranges
  succeeded : r.stats.chunks_succeeded ≡ s.stats.chunks_succeeded + length ranges
  failed : r.stats.chunks_failed ≡ s.stats.chunks_failed
  scanned : r.stats.blocks_scanned ≡ s.stats.blocks_scanned + (to - start + 1)

IsTiling-cons :
    (c a b y : ℕ) (ts : List (ℕ × ℕ))
    → y + 1 ≡ a + c
    → y < b
    → IsTiling c (y + 1) b ts
    → IsTiling c a b ((a, y) ∷ ts)
IsTiling-cons c a b y [] e h t = elim t [ ]
IsTiling-cons c a b y (x ∷ ts) e h t = (refl, e, h, t)

-- One chunk of the loop.
advance_scan : Source → List LogEntry → ℕ → ℕ → Scan → Scan
unfolding take_logs
advance_scan src es start end s = take_logs src.decode es (record s {
  stats = record s.stats {
    chunks_attempted = s.stats.chunks_attempted + 1;
    blocks_scanned = s.stats.blocks_scanned + (end - start + 1);
  };
  requests = s.requests ++ (start, end) ∷ [];
})

last_Scanned :
    (src : Source) (c to start : ℕ) (s : Scan) (es : List LogEntry)
    → start ≤ to
    → to < start + c
    → src.respond start to ≡ some es
    → Scanned src c to start s (advance_scan src es start to s)
unfolding advance_scan
last_Scanned src c to start s es h last answer = record {
  ranges = (start, to) ∷ [];
  requested = refl;
  tiled = (refl, refl, h, last);
  gathered = rw (answer, gather);
  failure = refl;
  attempted = refl;
  succeeded = refl;
  failed = refl;
  scanned = refl;
}

more_Scanned :
    (src : Source) (c to start y : ℕ) (s r : Scan) (es : List LogEntry)
    → start ≤ y
    → y + 1 ≡ start + c
    → y < to
    → src.respond start y ≡ some es
    → Scanned src c to (y + 1) (advance_scan src es start y s) r
    → Scanned src c to start s r
unfolding advance_scan
more_Scanned src c to start y s r es h e more answer rest = record {
  ranges = (start, y) ∷ rest.ranges;
  requested = rest.requested ∙ append_assoc s.requests ((start, y) ∷ []) rest.ranges;
  tiled = IsTiling-cons c start to y rest.ranges e more rest.tiled;
  gathered = rw (answer, gather) rest.gathered;
  failure = rest.failure;
  attempted = omega (arith, rest.attempted);
  succeeded = omega (arith, rest.succeeded);
  failed = rest.failed;
  scanned = omega (arith, rest.scanned);
}

module _ (src : Source) (ok : IsAnswered src) (c to : ℕ) (pos : 0 < c) (fits : to + c < u64) where
  module _ (f start : ℕ) (s : Scan) (es : List LogEntry) (inside : start ≤ to)
      (answer : src.respond start (chunk_end c to start) ≡ some es) where
    entered : (ltb to start || src.cancels s.stats.chunks_attempted) ≡ false
    entered = ground (arith, ok.running s.stats.chunks_attempted)

    scan_loop-last :
        chunk_end c to start ≡ to
        → scan_loop src c to (suc f) start s
          ≡ some (advance_scan src es start (chunk_end c to start) s)
    unfolding scan_loop advance_scan
    scan_loop-last last = rw (entered, answer, (==_iff _ to).1 last, scan_loop)

    scan_loop-more :
        chunk_end c to start ≢ to
        → scan_loop src c to (suc f) start s
          ≡ scan_loop src c to f
              (chunk_end c to start + 1)
              (advance_scan src es start (chunk_end c to start) s)
    unfolding scan_loop advance_scan
    scan_loop-more more = rw (entered, answer, not-== _ to more, scan_loop)

  scan_loop_tiles :
      (f start : ℕ) (s : Scan)
      → start ≤ to
      → to < start + f
      → (r : Scan) × (scan_loop src c to f start s ≡ some r) × Scanned src c to start s r
  scan_loop_tiles zero start s h fuel = absurd (omega arith)
  scan_loop_tiles (suc f) start s h fuel = elim (chunk_end_lem c to start pos h fits) [
    | inl (e, last) ↦
        let (es, answer) = ok.answers start to in
        (
          advance_scan src es start to s,
          rw e at (scan_loop-last f start s es h (rw e answer) e),
          last_Scanned src c to start s es h last answer,
        )
    | inr (e, more) ↦
        let y = chunk_end c to start in
        let (es, answer) = ok.answers start y in
        let (r, runs, rest) =
          scan_loop_tiles f (y + 1) (advance_scan src es start y s) (omega arith) (omega arith) in
        (
          r,
          scan_loop-more f start s es h answer (λ same. omega (arith, same)) ∙ runs,
          more_Scanned src c to start y s r es (omega arith) e more answer rest,
        )
  ]

length-IsTiling :
    (c a b : ℕ) (ts : List (ℕ × ℕ)) → 0 < c → IsTiling c a b ts → length ts ≡ chunk_total c a b
unfolding chunk_total
length-IsTiling c a b [] pos t = elim t [ ]
length-IsTiling c a b ((x, y) ∷ []) pos (_, _, h, k) =
    let whole : (b - a + 1) + c - 1 ≡ (b - a) + c = omega arith in
    rw (whole, add-div_right (b - a) pos, div-eq_of_lt {n = b - a} {m = c} (omega arith))
length-IsTiling c a b ((x, y) ∷ t ∷ ts) pos (_, e, h, rest) =
    let rounds : (b - a + 1) + c - 1 ≡ ((b - (y + 1) + 1) + c - 1) + c = omega arith in
    rw (rounds, add-div_right ((b - (y + 1) + 1) + c - 1) pos)
      (omega (arith, length-IsTiling c (y + 1) b (t ∷ ts) pos rest))

get_logs_chunk_size_pos : (chunk : ℕ) → 0 < get_logs_chunk_size chunk
unfolding get_logs_chunk_size
get_logs_chunk_size_pos chunk = ground arith

start_block-le : (from to : ℕ) → start_block from to ≤ to
start_block-le from to = ground arith

changed_pools-scan :
    (src : Source) (chunk from to : ℕ) (address : Text) (addresses : List Text)
    → 0 < to
    → changed_pools src true chunk (address ∷ addresses) from to
      ≡ scan_loop src (get_logs_chunk_size chunk) to (to + 1) (start_block from to) empty_scan
unfolding changed_pools
changed_pools-scan src chunk from to address addresses pos =
    let queried : (length (address ∷ addresses) == 0) ≡ false = not-== _ 0 (omega arith) in
    rw (queried, not-== to 0 (omega arith), changed_pools)

-- A log query over a non-empty set of pools whose requests are all answered asks for the blocks from
-- the start block to `to`, each exactly once and in order, in chunks of the chunk size (the last one
-- may be shorter); it succeeds, and its changed pools are exactly the addresses, in lower case, of the
-- entries in the responses to these requests, the empty address excepted; its statistics are the number of chunks that is announced beforehand and the number of blocks. The last block and
-- the chunk size together stay below 2 ^ 64.
pub changed_pools_tiles :
    (src : Source) (chunk from to : ℕ) (address : Text) (addresses : List Text)
    → IsAnswered src
    → 0 < to
    → to + get_logs_chunk_size chunk < u64
    → (r : Scan) × (changed_pools src true chunk (address ∷ addresses) from to ≡ some r)
      × (r.failure ≡ none)
      × IsTiling (get_logs_chunk_size chunk) (start_block from to) to r.requests
      × ((key : Text) → In key r.changed ↔ Reported src r.requests key)
      × (r.stats ≡ record {
        chunks_attempted = chunk_total (get_logs_chunk_size chunk) (start_block from to) to;
        chunks_succeeded = chunk_total (get_logs_chunk_size chunk) (start_block from to) to;
        chunks_failed = 0;
        blocks_scanned = to - start_block from to + 1;
      })
changed_pools_tiles src chunk from to address addresses ok pos fits =
    let c = get_logs_chunk_size chunk in
    let start = start_block from to in
    let c_pos = get_logs_chunk_size_pos chunk in
    let (r, runs, s) =
      scan_loop_tiles src ok c to c_pos fits (to + 1) start empty_scan (start_block-le from to)
        (omega arith) in
    let size = length-IsTiling c start to s.ranges c_pos s.tiled in
    let same : r.requests ≡ s.ranges = s.requested in
    (
      r,
      changed_pools-scan src chunk from to address addresses pos ∙ runs,
      s.failure,
      rw same s.tiled,
      λ key. rw (same, s.gathered) (gathered_iff src key s.ranges),
      ground (arith, size, s.attempted, s.succeeded, s.failed, s.scanned),
    )
