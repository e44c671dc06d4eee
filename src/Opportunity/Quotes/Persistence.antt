-- ===== src/Opportunity/Quotes/Persistence.antt =====
-- How long an answer of a quoter is used (engine.go).
use titanarb_engine.Base.{
  ℕ, ◌+◌, ◌≤◌, ◌<◌, ◌≡◌, refl, sym, ◌∙◌, ap, inl, inr, true, false, not, ◌&&◌, none, some, List, [],
  ◌∷◌, Text, to_lower, text_eq, text_mem, select, length, Bool-cases, ltb, leb, text_eq_iff,
  none-ne-some, Option-cases,
}
use titanarb_engine.Base.Dict.{lookup, insert, lookup-insert}
use titanarb_engine.Opportunity.Quotes.{
  QuoteRequest, QuoteEntry, QuoteState, Answer, begin_quote, open_entry, finish_quote, quote,
  quote_key, cache_bound, set_quote_budget,
}
use titanarb_engine.Opportunity.Quotes.Accounting.{
  QuoteCall, begins, finishes, bypasses, prepares, run_quote_call, start_cycle,
}
use titanarb_engine.Opportunity.Quotes.Cached.{
  IsFetched, lookup-select, quote-fetched, quote_cached, quote_key-version, state_version-same,
  state_version-persistent, prepared_lem,
}

-- The answer is in the cache, under the key that the request has now.
record Holds (req : QuoteRequest) (key : Text) (a : Answer) (s : QuoteState) : Type 0 where
  keyed : quote_key s req ≡ some key
  found : lookup key s.cache ≡ some (record { answer = some a; pool = to_lower req.pool.address })

-- What happens between two requests: a section of some caller, or the start of the next cycle.
pub data Turn : Type 0 where
  calls : QuoteCall → Turn
  next_cycle : (block : ℕ) (dirty : List Text) (limit : ℕ) → Turn

unfoldable pub run_turn : Turn → QuoteState → QuoteState
run_turn (calls c) s = run_quote_call c s
run_turn (next_cycle block dirty limit) s = start_cycle (prepares block dirty true) limit s

unfoldable pub run_turns : List Turn → QuoteState → QuoteState
run_turns [] s = s
run_turns (t ∷ ts) s = run_turns ts (run_turn t s)

-- The next cycle takes over the entries of a pool: the cache was and is persistent, the pool has a
-- block and is not among the dirty ones, and the cache is not too large.
pub record IsRetained (req : QuoteRequest) (dirty : List Text) (s : QuoteState) : Type 0 where
  pub persists : s.persistent ≡ true
  pub dated : 0 < req.pool.last_updated_block
  pub clean : text_mem (to_lower req.pool.address) dirty ≡ false
  pub few : length (select (λ e. not (text_mem e.1.pool dirty)) s.cache) ≤ cache_bound

-- No other caller fetches for the key, and each next cycle takes over its entry.
abbrev pub Keeps : QuoteRequest → Text → List Turn → QuoteState → Type 0
Keeps req key [] s = Unit
Keeps req key (calls (finishes k a) ∷ ts) s =
    (text_eq k key ≡ false) × Keeps req key ts (run_quote_call (finishes k a) s)
Keeps req key (calls c ∷ ts) s = Keeps req key ts (run_quote_call c s)
Keeps req key (next_cycle block dirty limit ∷ ts) s =
    IsRetained req dirty s × Keeps req key ts (start_cycle (prepares block dirty true) limit s)

module _ (req : QuoteRequest) (key : Text) (a : Answer) where
  begin_quote-Holds :
      (k : Text) (r : QuoteRequest) (s : QuoteState)
      → Holds req key a s
      → Holds req key a (begin_quote k r s).1
  unfolding begin_quote open_entry
  begin_quote-Holds k r s h = elim (Option-cases (lookup k s.cache)) [
    | inr (entry, e) ↦ elim (Option-cases entry.answer) [
      | inl flying ↦
          rw (e, flying, begin_quote) (same_cache (record s { dedup = s.dedup + 1 }) refl refl refl)
      | inr (b, f) ↦
          rw (e, f, begin_quote) (same_cache (record s { hits = s.hits + 1 }) refl refl refl)
    ]
    | inl missing ↦ elim (Bool-cases (ltb 0 s.budget && leb s.budget s.budget_used)) [
      | inl spent ↦
          rw (missing, spent, begin_quote, open_entry)
            (same_cache (record s { budget_dropped = s.budget_dropped + 1 }) refl refl refl)
      | inr open_budget ↦
          rw (missing, open_budget, begin_quote, open_entry)
            (same_cache
              (record s {
                budget_used = s.budget_used + 1;
                cache = insert k (record { answer = none; pool = to_lower r.pool.address }) s.cache;
                misses = s.misses + 1;
              })
              refl refl
              (lookup-insert k key (record { answer = none; pool = to_lower r.pool.address })
                  s.cache
                ∙ rw (other missing) refl))
    ]
  ]
    where
      same_cache :
          (t : QuoteState)
          → t.persistent ≡ s.persistent
          → t.block ≡ s.block
          → lookup key t.cache ≡ lookup key s.cache
          → Holds req key a t
      same_cache t p b c = record {
        keyed = quote_key-version req t s (state_version-same req.pool t s p b) ∙ h.keyed;
        found = c ∙ h.found;
      }

      other : lookup k s.cache ≡ none → text_eq k key ≡ false
      other missing = elim (Bool-cases (text_eq k key)) [
        | inr apart ↦ apart
        | inl same ↦ absurd (
            none-ne-some
              (sym missing ∙ ap (λ k. lookup k s.cache) ((text_eq_iff k key).0 same) ∙ h.found))
      ]

  finish_quote-Holds :
      (k : Text) (b : Answer) (s : QuoteState)
      → text_eq k key ≡ false
      → Holds req key a s
      → Holds req key a (finish_quote k b s)
  unfolding finish_quote
  finish_quote-Holds k b s apart h = elim (Option-cases (lookup k s.cache)) [
    | inl missing ↦ rw (missing, finish_quote) h
    | inr (entry, e) ↦
        let t : QuoteState = record s {
          cache = insert k (record entry { answer = some b }) s.cache;
        } in
        rw (e, finish_quote)
          (record {
            keyed = quote_key-version req t s (state_version-same req.pool t s refl refl) ∙ h.keyed;
            found =
                lookup-insert k key (record entry { answer = some b }) s.cache ∙ rw apart h.found;
          })
  ]

  next_cycle-Holds :
      (block : ℕ) (dirty : List Text) (limit : ℕ) (s : QuoteState)
      → IsRetained req dirty s
      → Holds req key a s
      → Holds req key a (start_cycle (prepares block dirty true) limit s)
  unfolding start_cycle set_quote_budget
  next_cycle-Holds block dirty limit s r h =
      let next = start_cycle (prepares block dirty true) limit s in
      let (persists, prepared) = prepared_lem block dirty s r.few in
      let entry : QuoteEntry = record { answer = some a; pool = to_lower req.pool.address } in
      let survives =
        lookup-select (λ e. not (text_mem e.1.pool dirty)) key s.cache entry h.found
          (λ j. rw r.clean refl) in
      record {
        keyed =
            quote_key-version req next s (
              state_version-persistent req.pool next persists r.dated
              ∙ sym (state_version-persistent req.pool s r.persists r.dated))
            ∙ h.keyed;
        found = ap (lookup key) prepared ∙ survives;
      }

  run_turns-Holds :
      (ts : List Turn) (s : QuoteState)
      → Keeps req key ts s
      → Holds req key a s
      → Holds req key a (run_turns ts s)
  unfolding run_turns run_turn run_quote_call
  run_turns-Holds [] s k h = h
  run_turns-Holds (calls (bypasses r) ∷ ts) s k h = run_turns-Holds ts s k h
  run_turns-Holds (calls (begins j r) ∷ ts) s k h =
      run_turns-Holds ts (begin_quote j r s).1 k (begin_quote-Holds j r s h)
  run_turns-Holds (calls (finishes j b) ∷ ts) s k h =
      run_turns-Holds ts (finish_quote j b s) k.1 (finish_quote-Holds j b s k.0 h)
  run_turns-Holds (next_cycle block dirty limit ∷ ts) s k h =
      run_turns-Holds ts (start_cycle (prepares block dirty true) limit s) k.1
        (next_cycle-Holds block dirty limit s k.0 h)

-- What a quoter answers to a request that is fetched, an error included, is the answer to each later
-- request like it, whatever it would be answered then: in the same cycle after any calls of any callers
-- that do not write this entry, and also in later ones, as long as at the start of each of them
-- the cache is persistent, the pool has a block, is not among the dirty ones, and the cache is not too
-- large.
pub quote_kept :
    (ask later : QuoteRequest → Answer) (req : QuoteRequest) (key : Text) (s : QuoteState)
    (turns : List Turn)
    → IsFetched s req key
    → Keeps req key turns (quote ask req s).1
    → ((quote ask req s).0 ≡ ask req)
      × ((quote later req (run_turns turns (quote ask req s).1)).0 ≡ ask req)
quote_kept ask later req key s turns f keeps =
    let (answered, found, p, b) = quote-fetched ask req key s f in
    let after = (quote ask req s).1 in
    let start : Holds req key (ask req) after = record {
      keyed = quote_key-version req after s (state_version-same req.pool after s p b) ∙ f.keyed;
      found = found;
    } in
    let held = run_turns-Holds req key (ask req) turns after keeps start in
    (
      answered,
      quote_cached later req key (run_turns turns after) (ask req) (to_lower req.pool.address)
          held.keyed held.found,
    )
