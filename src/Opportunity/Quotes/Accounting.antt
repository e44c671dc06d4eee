-- ===== src/Opportunity/Quotes/Accounting.antt =====
-- How many quotes a cycle fetches, whatever the callers do (engine.go).
use titanarb_engine.Base.{
  ℕ, suc, ◌+◌, ◌≤◌, ◌≡◌, refl, ◌⊎◌, inl, inr, ◌&&◌, List, [], ◌∷◌, Bool, true, false, not, length,
  select, text_mem, Text, arith, Bool-cases, Option-cases, ltb, leb, subst,
}
use titanarb_engine.Base.Dict.{lookup}
use titanarb_engine.Opportunity.Quotes.{
  QuoteRequest, QuoteState, Answer, Begun, cached, joined, dropped, fresh, begin_quote, open_entry,
  finish_quote, reset_quote_cache, prepare_quote_cache, cache_bound, set_quote_budget,
  reset_counters,
}

-- The two sections of quote under the lock, by any caller, and a request with the empty key, which
-- goes to the quoter without them.
pub data QuoteCall : Type 0 where
  bypasses : QuoteRequest → QuoteCall
  begins : Text → QuoteRequest → QuoteCall
  finishes : Text → Answer → QuoteCall

unfoldable pub run_quote_call : QuoteCall → QuoteState → QuoteState
run_quote_call (bypasses req) s = s
run_quote_call (begins key req) s = (begin_quote key req s).1
run_quote_call (finishes key a) s = finish_quote key a s

pub run_quote_calls : List QuoteCall → QuoteState → QuoteState
run_quote_calls [] s = s
run_quote_calls (c ∷ cs) s = run_quote_calls cs (run_quote_call c s)

-- How many calls with a key were made.
unfoldable pub begun_calls : List QuoteCall → ℕ
begun_calls [] = 0
begun_calls (bypasses req ∷ cs) = begun_calls cs
begun_calls (begins key req ∷ cs) = suc (begun_calls cs)
begun_calls (finishes key a ∷ cs) = begun_calls cs

-- How many calls were answered from the cache, joined another one, were dropped or had to be fetched.
pub record Tally : Type 0 where
  pub answered : ℕ
  pub waiting : ℕ
  pub refused : ℕ
  pub fetched : ℕ

abbrev pub no_calls : Tally
no_calls = record { answered = 0; waiting = 0; refused = 0; fetched = 0 }

-- What one call decided, added.
unfoldable pub tally : Begun → Tally → Tally
tally (cached a) t = record t { answered = suc t.answered }
tally joined t = record t { waiting = suc t.waiting }
tally dropped t = record t { refused = suc t.refused }
tally fresh t = record t { fetched = suc t.fetched }

-- What all the calls decided, added.
unfoldable pub tally_calls : List QuoteCall → QuoteState → Tally → Tally
tally_calls [] s t = t
tally_calls (bypasses req ∷ cs) s t = tally_calls cs s t
tally_calls (begins key req ∷ cs) s t =
    tally_calls cs (begin_quote key req s).1 (tally (begin_quote key req s).0 t)
tally_calls (finishes key a ∷ cs) s t = tally_calls cs (finish_quote key a s) t

-- The counters say what the calls decided, each of which is counted once, and the budget is kept.
pub record IsBudgeted (limit made : ℕ) (t : Tally) (s : QuoteState) : Type 0 where
  pub limited : s.budget ≡ limit
  pub kept : (limit ≡ 0) ⊎ (t.fetched ≤ limit)
  pub used : s.budget_used ≡ t.fetched
  pub counted :
      (s.hits ≡ t.answered)
      × (s.dedup ≡ t.waiting)
      × (s.misses ≡ t.fetched)
      × (s.budget_dropped ≡ t.refused)
  pub total : t.answered + t.waiting + t.fetched + t.refused ≡ made

begin_quote-IsBudgeted :
    (limit made : ℕ) (t : Tally) (key : Text) (req : QuoteRequest) (s : QuoteState)
    → IsBudgeted limit made t s
    → IsBudgeted limit (suc made) (tally (begin_quote key req s).0 t) (begin_quote key req s).1
unfolding begin_quote open_entry tally
begin_quote-IsBudgeted limit made t key req s b =
    let (hits, dedup, misses, drops) = b.counted in
    elim (Option-cases (lookup key s.cache)) [
      | inr (entry, e) ↦ elim (Option-cases entry.answer) [
        | inl flying ↦
            rw (e, flying, begin_quote)
              (record {
                limited = b.limited;
                kept = b.kept;
                used = b.used;
                counted = (hits, omega (arith, dedup), misses, drops);
                total = omega (arith, b.total);
              })
        | inr (a, f) ↦
            rw (e, f, begin_quote)
              (record {
                limited = b.limited;
                kept = b.kept;
                used = b.used;
                counted = (omega (arith, hits), dedup, misses, drops);
                total = omega (arith, b.total);
              })
      ]
      | inl missing ↦ elim (Bool-cases (ltb 0 s.budget && leb s.budget s.budget_used)) [
        | inl spent ↦
            rw (missing, spent, begin_quote, open_entry)
              (record {
                limited = b.limited;
                kept = b.kept;
                used = b.used;
                counted = (hits, dedup, misses, omega (arith, drops));
                total = omega (arith, b.total);
              })
        | inr open_budget ↦
            rw (missing, open_budget, begin_quote, open_entry)
              (record {
                limited = b.limited;
                kept = ground (arith, b.limited, b.used, open_budget);
                used = omega (arith, b.used);
                counted = (hits, dedup, omega (arith, misses), drops);
                total = omega (arith, b.total);
              })
      ]
    ]

finish_quote-IsBudgeted :
    (limit made : ℕ) (t : Tally) (key : Text) (a : Answer) (s : QuoteState)
    → IsBudgeted limit made t s
    → IsBudgeted limit made t (finish_quote key a s)
unfolding finish_quote
finish_quote-IsBudgeted limit made t key a s b = elim (Option-cases (lookup key s.cache)) [
  | inl missing ↦ rw (missing, finish_quote) b
  | inr (entry, e) ↦
      rw (e, finish_quote)
        (record {
          limited = b.limited;
          kept = b.kept;
          used = b.used;
          counted = b.counted;
          total = b.total;
        })
]

run_quote_calls-IsBudgeted :
    (limit made : ℕ) (t : Tally) (cs : List QuoteCall) (s : QuoteState)
    → IsBudgeted limit made t s
    → IsBudgeted limit (made + begun_calls cs) (tally_calls cs s t) (run_quote_calls cs s)
unfolding run_quote_calls run_quote_call begun_calls tally_calls
run_quote_calls-IsBudgeted limit made t [] s b =
    let same : made ≡ made + 0 = omega arith in subst (λ n. IsBudgeted limit n t s) same b
run_quote_calls-IsBudgeted limit made t (bypasses req ∷ cs) s b =
    run_quote_calls-IsBudgeted limit made t cs s b
run_quote_calls-IsBudgeted limit made t (begins key req ∷ cs) s b =
    let same : suc made + begun_calls cs ≡ made + suc (begun_calls cs) = omega arith in
    let s' = (begin_quote key req s).1 in
    let t' = tally (begin_quote key req s).0 t in
    subst (λ n. IsBudgeted limit n (tally_calls cs s' t') (run_quote_calls cs s')) same
      (run_quote_calls-IsBudgeted limit (suc made) t' cs s'
        (begin_quote-IsBudgeted limit made t key req s b))
run_quote_calls-IsBudgeted limit made t (finishes key a ∷ cs) s b =
    run_quote_calls-IsBudgeted limit made t cs (finish_quote key a s)
      (finish_quote-IsBudgeted limit made t key a s b)

-- How a cycle starts: with an empty cache, or with the entries that stay.
pub data CycleStart : Type 0 where
  resets : (block : ℕ) → CycleStart
  prepares : (block : ℕ) (dirty : List Text) (persistent : Bool) → CycleStart

-- The start of a cycle, and the budget for it.
unfoldable pub start_cycle : CycleStart → ℕ → QuoteState → QuoteState
start_cycle (resets block) limit s = set_quote_budget limit (reset_quote_cache block s)
start_cycle (prepares block dirty persistent) limit s =
    set_quote_budget limit (prepare_quote_cache block dirty persistent s)

start_cycle-IsBudgeted :
    (start : CycleStart) (limit : ℕ) (s : QuoteState)
    → IsBudgeted limit 0 no_calls (start_cycle start limit s)
unfolding start_cycle set_quote_budget reset_quote_cache reset_counters prepare_quote_cache
start_cycle-IsBudgeted (resets block) limit s = record {
  limited = refl;
  kept = inr (omega arith);
  used = refl;
  counted = (refl, refl, refl, refl);
  total = refl;
}
start_cycle-IsBudgeted (prepares block dirty false) limit s = record {
  limited = refl;
  kept = inr (omega arith);
  used = refl;
  counted = (refl, refl, refl, refl);
  total = refl;
}
start_cycle-IsBudgeted (prepares block dirty true) limit s =
    let kept = select (λ e. not (text_mem e.1.pool dirty)) s.cache in
    elim (Bool-cases (ltb cache_bound (length kept))) [
      | inl large ↦
          rw (large, start_cycle, prepare_quote_cache)
            (record {
              limited = refl;
              kept = inr (omega arith);
              used = refl;
              counted = (refl, refl, refl, refl);
              total = refl;
            })
      | inr small ↦
          rw (small, start_cycle, prepare_quote_cache)
            (record {
              limited = refl;
              kept = inr (omega arith);
              used = refl;
              counted = (refl, refl, refl, refl);
              total = refl;
            })
    ]

-- From the start of a cycle on, however the sections of the callers interleave: each call with a key
-- has one of four outcomes, which the counters count once, a hit, a call that joins another one, a
-- fetch or a call that is dropped; and with a budget there are at most as many fetches of calls with
-- a key. Calls with the empty key go to the quoter uncounted and whatever the budget is.
pub cycle-IsBudgeted :
    (start : CycleStart) (limit : ℕ) (cs : List QuoteCall) (s : QuoteState)
    → IsBudgeted limit
        (begun_calls cs)
        (tally_calls cs (start_cycle start limit s) no_calls)
        (run_quote_calls cs (start_cycle start limit s))
cycle-IsBudgeted start limit cs s =
    let first = start_cycle start limit s in
    let same : 0 + begun_calls cs ≡ begun_calls cs = omega arith in
    subst (λ n. IsBudgeted limit n (tally_calls cs first no_calls) (run_quote_calls cs first)) same
      (run_quote_calls-IsBudgeted limit 0 no_calls cs first (start_cycle-IsBudgeted start limit s))
