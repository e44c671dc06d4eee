-- ===== src/Pools/Logs/Accounting.antt =====
-- The statistics of a log scan, whatever the responses.
use titanarb_engine.Base.{
  some-inj, ℕ, zero, suc, ◌+◌, ◌-◌, ◌≤◌, ◌<◌, ◌≡◌, refl, sym, ◌≢◌, ◌⊎◌, inl, inr, Bool, ◌||◌, none,
  some, List, [], ◌∷◌, ◌++◌, Text, arith, ltb, ◌==◌, length, length-append, All, All-append,
  Bool-cases, Option-cases,
}
use titanarb_engine.Pools.Logs.{
  LogEntry, Source, Scan, call_failed, cancelled, unsupported, chunk_end, take_logs, scan_loop,
  empty_scan, changed_pools, attempt, fail_chunk, get_logs_chunk_size, start_block,
}

abbrev pub blocks_of : List (ℕ × ℕ) → ℕ
blocks_of [] = 0
blocks_of ((a, b) ∷ ts) = (b - a + 1) + blocks_of ts

-- A request was answered.
abbrev pub IsReply : Source → ℕ × ℕ → Type 0
IsReply src (a, b) = (es : List LogEntry) × (src.respond a b ≡ some es)

-- All requests but the last one were answered, and the last one was not.
abbrev pub EndsUnanswered : Source → List (ℕ × ℕ) → Type 0
EndsUnanswered src requests =
    (before : List (ℕ × ℕ)) × (a : ℕ) × (b : ℕ) × (requests ≡ before ++ (a, b) ∷ [])
    × All (IsReply src) before
    × (src.respond a b ≡ none)

-- Every request was answered, or the last one failed and ended the scan.
pub record IsAccounted (src : Source) (s : Scan) : Type 0 where
  pub attempted : s.stats.chunks_attempted ≡ length s.requests
  pub scanned : s.stats.blocks_scanned ≡ blocks_of s.requests
  pub outcome :
      ((s.failure ≡ some call_failed)
        × EndsUnanswered src s.requests
        × (s.stats.chunks_failed ≡ 1)
        × (s.stats.chunks_attempted ≡ s.stats.chunks_succeeded + 1))
      ⊎ ((s.failure ≢ some call_failed)
          × All (IsReply src) s.requests
          × (s.stats.chunks_failed ≡ 0)
          × (s.stats.chunks_attempted ≡ s.stats.chunks_succeeded))

-- The same while the loop runs.
record IsRunning (src : Source) (s : Scan) : Type 0 where
  answered : All (IsReply src) s.requests
  attempted : s.stats.chunks_attempted ≡ length s.requests
  scanned : s.stats.blocks_scanned ≡ blocks_of s.requests
  clean : s.failure ≡ none
  failed : s.stats.chunks_failed ≡ 0
  succeeded : s.stats.chunks_attempted ≡ s.stats.chunks_succeeded

blocks_of-append : (xs ys : List (ℕ × ℕ)) → blocks_of (xs ++ ys) ≡ blocks_of xs + blocks_of ys
blocks_of-append [] ys = omega arith
blocks_of-append ((a, b) ∷ xs) ys = omega (arith, blocks_of-append xs ys)

attempt-sizes :
    (src : Source) (start end : ℕ) (s : Scan)
    → IsRunning src s
    → (length (attempt start end s).requests ≡ s.stats.chunks_attempted + 1)
      × (blocks_of (attempt start end s).requests ≡ s.stats.blocks_scanned + (end - start + 1))
attempt-sizes src start end s run = (
  omega (arith, length-append s.requests ((start, end) ∷ []), run.attempted),
  omega (arith, blocks_of-append s.requests ((start, end) ∷ []), run.scanned),
)

taken : Source → List LogEntry → ℕ → ℕ → Scan → Scan
unfolding take_logs
taken src es start end s = take_logs src.decode es (attempt start end s)

taken-IsRunning :
    (src : Source) (es : List LogEntry) (start end : ℕ) (s : Scan)
    → src.respond start end ≡ some es
    → IsRunning src s
    → IsRunning src (taken src es start end s)
unfolding taken
taken-IsRunning src es start end s got run =
    let (n, b) = attempt-sizes src start end s run in
    record {
      answered =
          All-append (IsReply src) s.requests ((start, end) ∷ []) run.answered ((es, got), tt);
      attempted = sym n;
      scanned = sym b;
      clean = run.clean;
      failed = run.failed;
      succeeded = omega (arith, run.succeeded);
    }

IsRunning-IsAccounted : (src : Source) (s : Scan) → IsRunning src s → IsAccounted src s
IsRunning-IsAccounted src s run = record {
  attempted = run.attempted;
  scanned = run.scanned;
  outcome = inr ((λ e. ground (arith, run.clean)), run.answered, run.failed, run.succeeded);
}

fail_chunk-IsAccounted :
    (src : Source) (start end : ℕ) (s : Scan)
    → src.respond start end ≡ none
    → IsRunning src s
    → IsAccounted src (fail_chunk (attempt start end s))
fail_chunk-IsAccounted src start end s lost run =
    let (n, b) = attempt-sizes src start end s run in
    record {
      attempted = sym n;
      scanned = sym b;
      outcome = inl (
        refl,
        (s.requests, start, end, refl, run.answered, lost),
        omega (arith, run.failed),
        omega (arith, run.succeeded),
      );
    }

-- How a round ends, and what it hands on.
scan_round :
    (src : Source) (chunk to f start : ℕ) (s r : Scan)
    → scan_loop src chunk to (suc f) start s ≡ some r
    → (r ≡ s)
      ⊎ (r ≡ record s { failure = some cancelled })
      ⊎ ((r ≡ fail_chunk (attempt start (chunk_end chunk to start) s))
          × (src.respond start (chunk_end chunk to start) ≡ none))
      ⊎ ((es : List LogEntry) × (src.respond start (chunk_end chunk to start) ≡ some es)
          × ((r ≡ taken src es start (chunk_end chunk to start) s)
              ⊎ (scan_loop src chunk to f
                    (chunk_end chunk to start + 1)
                    (taken src es start (chunk_end chunk to start) s)
                  ≡ some r)))
unfolding scan_loop taken
scan_round src chunk to f start s r e =
    let end = chunk_end chunk to start in
    elim (Bool-cases (ltb to start || src.cancels s.stats.chunks_attempted)) [
      | inl stop ↦ let e' = rw (stop, scan_loop) at e in ground arith
      | inr run ↦ elim (Option-cases (src.respond start end)) [
        | inl lost ↦
            let e' = rw (run, lost, scan_loop) at e in inr (inr (inl (sym (some-inj e'), lost)))
        | inr (es, got) ↦ elim (Bool-cases (end == to)) [
          | inl last ↦
              let e' = rw (run, got, last, scan_loop) at e in
              inr (inr (inr (es, got, inl (sym (some-inj e')))))
          | inr more ↦
              let e' = rw (run, got, more, scan_loop) at e in inr (inr (inr (es, got, inr e')))
        ]
      ]
    ]

scan_loop-IsAccounted :
    (src : Source) (chunk to f start : ℕ) (s r : Scan)
    → IsRunning src s
    → scan_loop src chunk to f start s ≡ some r
    → IsAccounted src r
unfolding scan_loop
scan_loop-IsAccounted src chunk to zero start s r run e = cc
scan_loop-IsAccounted src chunk to (suc f) start s r run e =
    let end = chunk_end chunk to start in
    elim (scan_round src chunk to f start s r e) [
      | inl same ↦ rw same (IsRunning-IsAccounted src s run)
      | inr (inl stopped) ↦ rw stopped (record {
        attempted = run.attempted;
        scanned = run.scanned;
        outcome = inr ((λ q. ground arith), run.answered, run.failed, run.succeeded);
      })
      | inr (inr (inl (failed, lost))) ↦ rw failed (fail_chunk-IsAccounted src start end s lost run)
      | inr (inr (inr (es, got, inl last))) ↦
          rw last (IsRunning-IsAccounted src _ (taken-IsRunning src es start end s got run))
      | inr (inr (inr (es, got, inr more))) ↦
          scan_loop-IsAccounted src chunk to f (end + 1) (taken src es start end s) r
            (taken-IsRunning src es start end s got run) more
    ]

empty_scan-IsRunning : (src : Source) → IsRunning src empty_scan
empty_scan-IsRunning src = record {
  answered = tt;
  attempted = refl;
  scanned = refl;
  clean = refl;
  failed = refl;
  succeeded = refl;
}

unsupported_scan :
    (src : Source) → IsAccounted src (record empty_scan { failure = some unsupported })
unsupported_scan src = record {
  attempted = refl;
  scanned = refl;
  outcome = inr ((λ e. ground arith), tt, refl, refl);
}

result-IsAccounted :
    (src : Source) (supported : Bool) (chunk : ℕ) (addresses : List Text) (from to : ℕ) (r : Scan)
    → changed_pools src supported chunk addresses from to ≡ some r
    → IsAccounted src r
unfolding changed_pools
result-IsAccounted src supported chunk addresses from to r e =
    elim (Bool-cases (length addresses == 0 || to == 0)) [
      | inl nothing ↦
          let e' = rw (nothing, changed_pools) at e in
          rw (← some-inj e') (IsRunning-IsAccounted src empty_scan (empty_scan-IsRunning src))
      | inr asked ↦ elim (Bool-cases supported) [
        | inl known ↦
            let e' = rw (asked, known, changed_pools) at e in
            scan_loop-IsAccounted src _ to (to + 1) _ empty_scan r (empty_scan-IsRunning src) e'
        | inr unknown ↦
            let e' = rw (asked, unknown, changed_pools) at e in
            rw (← some-inj e') (unsupported_scan src)
      ]
    ]

chunk_end_bounds :
    (c to start : ℕ) → start ≤ to → (start ≤ chunk_end c to start) × (chunk_end c to start ≤ to)
unfolding chunk_end
chunk_end_bounds c to start h = ground arith

scan_loop_total :
    (src : Source) (chunk to f start : ℕ) (s : Scan)
    → to + 1 < start + f
    → start ≤ to
    → (r : Scan) × (scan_loop src chunk to f start s ≡ some r)
unfolding scan_loop
scan_loop_total src chunk to zero start s fuel h = absurd (omega arith)
scan_loop_total src chunk to (suc f) start s fuel h =
    let end = chunk_end chunk to start in
    let (low, high) = chunk_end_bounds chunk to start h in
    elim (Bool-cases (ltb to start || src.cancels s.stats.chunks_attempted)) [
      | inl stop ↦ (stopped s, rw (stop, scan_loop) (ground arith))
      | inr run ↦ elim (Option-cases (src.respond start end)) [
        | inl lost ↦ (fail_chunk (attempt start end s), rw (run, lost, scan_loop))
        | inr (es, got) ↦ elim (Bool-cases (end == to)) [
          | inl last ↦
              (take_logs src.decode es (attempt start end s), rw (run, got, last, scan_loop))
          | inr more ↦
              let (r, runs) =
                scan_loop_total src chunk to f (end + 1)
                  (take_logs src.decode es (attempt start end s)) (omega arith) (ground arith) in
              (r, rw (run, got, more, scan_loop) runs)
        ]
      ]
    ]
  where
    stopped : Scan → Scan
    stopped s = record s { failure = some cancelled }

changed_pools_total :
    (src : Source) (supported : Bool) (chunk : ℕ) (addresses : List Text) (from to : ℕ)
    → (r : Scan) × (changed_pools src supported chunk addresses from to ≡ some r)
unfolding changed_pools
changed_pools_total src supported chunk addresses from to =
    elim (Bool-cases (length addresses == 0 || to == 0)) [
      | inl nothing ↦ (empty_scan, rw (nothing, changed_pools))
      | inr asked ↦ elim (Bool-cases supported) [
        | inl known ↦
            let (r, runs) =
              scan_loop_total src (get_logs_chunk_size chunk) to (to + 1) (start_block from to)
                empty_scan (ground arith) (ground arith) in
            (r, rw (asked, known, changed_pools) runs)
        | inr unknown ↦
            (record empty_scan { failure = some unsupported }, rw (asked, unknown, changed_pools))
      ]
    ]

-- Whatever the node answers and whenever the context is cancelled, a log query returns, and its
-- statistics are right: one attempt for each request made, and the blocks of those requests. Either it
-- ends with the error and one failed attempt, and the node answered all its requests but the last one;
-- or it has no such error and no failed attempt, and the node answered all its requests. The other
-- attempts succeeded.
pub changed_pools-IsAccounted :
    (src : Source) (supported : Bool) (chunk : ℕ) (addresses : List Text) (from to : ℕ)
    → (r : Scan) × (changed_pools src supported chunk addresses from to ≡ some r)
      × IsAccounted src r
changed_pools-IsAccounted src supported chunk addresses from to =
    let (r, runs) = changed_pools_total src supported chunk addresses from to in
    (r, runs, result-IsAccounted src supported chunk addresses from to r runs)
