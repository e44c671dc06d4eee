-- ===== src/Opportunity/Quotes/Cached.antt =====
-- What one request leaves in the cache of quotes, and what the next cycle takes over (engine.go).
use titanarb_engine.Base.{
  ℕ, ◌+◌, ◌≤◌, ◌<◌, ◌≡◌, refl, ◌∙◌, ap, inl, inr, Bool, true, false, not, ◌&&◌, none, some, List,
  [], ◌∷◌, Text, to_lower, text_eq, text_mem, select, length, arith, Bool-cases, ltb, leb,
  text_eq_refl, some-inj,
}
use titanarb_engine.Base.Dict.{lookup, insert, lookup-insert}
use titanarb_engine.Pools.{Pool}
use titanarb_engine.Opportunity.Quotes.{
  QuoteRequest, QuoteEntry, QuoteState, Answer, fresh, begin_quote, open_entry, finish_quote, quote,
  quote_key, key_of, state_version, prepare_quote_cache, reset_counters, cache_bound,
}

pub lookup-select :
    {V : Type 0} (p : Text × V → Bool) (k : Text) (m : List (Text × V)) (v : V)
    → lookup k m ≡ some v
    → ((j : Text) → p (j, v) ≡ true)
    → lookup k (select p m) ≡ some v
unfolding lookup select
lookup-select p k [] v e h = absurd (ground (arith, e))
lookup-select p k ((j, w) ∷ m) v e h = elim (Bool-cases (text_eq j k)) [
  | inl here ↦
      let same : w ≡ v = some-inj (rw (here, lookup) at e) in
      let keep : p (j, w) ≡ true = rw same (h j) in rw (keep, here, lookup, select) (rw same refl)
  | inr there ↦
      let rest = lookup-select p k m v (rw (there, lookup) at e) h in
      elim (Bool-cases (p (j, w))) [
        | inl keep ↦ rw (keep, there, lookup, select) rest
        | inr drop ↦ rw (drop, select) rest
      ]
]

-- A request is not answered from the cache, and the budget is open.
pub record IsFetched (s : QuoteState) (req : QuoteRequest) (key : Text) : Type 0 where
  pub keyed : quote_key s req ≡ some key
  pub missing : lookup key s.cache ≡ none
  pub allowed : (ltb 0 s.budget && leb s.budget s.budget_used) ≡ false

module _ (ask : QuoteRequest → Answer) (req : QuoteRequest) (key : Text) (s : QuoteState) where
  opened : QuoteState
  opened = record s {
    budget_used = s.budget_used + 1;
    cache = insert key (record { answer = none; pool = to_lower req.pool.address }) s.cache;
    misses = s.misses + 1;
  }

  begin_quote-fresh : IsFetched s req key → begin_quote key req s ≡ (fresh, opened)
  unfolding begin_quote open_entry opened
  begin_quote-fresh f = rw (f.missing, f.allowed, begin_quote, open_entry) refl

  pub quote-fetched :
      IsFetched s req key
      → ((quote ask req s).0 ≡ ask req)
        × (lookup key (quote ask req s).1.cache
            ≡ some (record { answer = some (ask req); pool = to_lower req.pool.address }))
        × ((quote ask req s).1.persistent ≡ s.persistent)
        × ((quote ask req s).1.block ≡ s.block)
  unfolding quote finish_quote opened
  quote-fetched f =
      let flying : QuoteEntry = record { answer = none; pool = to_lower req.pool.address } in
      let done : QuoteEntry = record {
        answer = some (ask req);
        pool = to_lower req.pool.address;
      } in
      let own : lookup key opened.cache ≡ some flying =
        lookup-insert key key flying s.cache ∙ rw (text_eq_refl key) refl in
      let found : lookup key (insert key done opened.cache) ≡ some done =
        lookup-insert key key done opened.cache ∙ rw (text_eq_refl key) refl in
      let finished : finish_quote key (ask req) opened
          ≡ record opened { cache = insert key done opened.cache } =
        rw (own, finish_quote) refl in
      rw (f.keyed, begin_quote-fresh f, quote)
        (rw (begin_quote-fresh f, finished) (refl, found, refl, refl))

  -- A request whose answer is in the cache gets that answer.
  pub quote_cached :
      (a : Answer) (pool : Text)
      → quote_key s req ≡ some key
      → lookup key s.cache ≡ some (record { answer = some a; pool = pool })
      → (quote ask req s).0 ≡ a
  unfolding quote begin_quote
  quote_cached a pool k e = rw (k, e, quote, begin_quote) refl

-- The key depends on the block or, with a persistent cache, on the last update of the pool.
pub quote_key-version :
    (req : QuoteRequest) (s t : QuoteState)
    → state_version s req.pool ≡ state_version t req.pool
    → quote_key s req ≡ quote_key t req
unfolding quote_key
quote_key-version req s t e = ap (λ v. key_of v req) e

pub state_version-same :
    (p : Pool) (s t : QuoteState)
    → s.persistent ≡ t.persistent
    → s.block ≡ t.block
    → state_version s p ≡ state_version t p
unfolding state_version
state_version-same p s t e b = ground (arith, e, b)

pub state_version-persistent :
    (p : Pool) (s : QuoteState)
    → s.persistent ≡ true
    → 0 < p.last_updated_block
    → state_version s p ≡ p.last_updated_block
unfolding state_version
state_version-persistent p s e h = ground (arith, e)

pub prepared_lem :
    (block : ℕ) (dirty : List Text) (s : QuoteState)
    → length (select (λ e. not (text_mem e.1.pool dirty)) s.cache) ≤ cache_bound
    → ((prepare_quote_cache block dirty true s).persistent ≡ true)
      × ((prepare_quote_cache block dirty true s).cache
          ≡ select (λ e. not (text_mem e.1.pool dirty)) s.cache)
unfolding prepare_quote_cache reset_counters
prepared_lem block dirty s few =
    let kept = select (λ e. not (text_mem e.1.pool dirty)) s.cache in
    let small : ltb cache_bound (length kept) ≡ false = ground arith in
    rw (small, prepare_quote_cache) (refl, refl)
