-- ===== src/Opportunity/Quotes.antt =====
-- go/internal/opportunity/engine.go: the quote cache and its budget. Sections under the lock are single
-- steps; the call of the quoter lies between `begin_quote` and `finish_quote`.
pub mod Accounting
pub mod Cached
pub mod Persistence
use titanarb_engine.Base.{
  ℕ, zero, suc, ◌+◌, Bool, true, false, not, ◌&&◌, ◌||◌, Option, none, some, ◌⊎◌, inl, inr, List,
  [], ◌∷◌, ◌++◌, length, select, Text, bytes, text_mem, to_lower, trim_space, decimal, ltb, leb,
  ◌==◌, if◌then◌else◌,
}
use titanarb_engine.Base.Int.{ℤ, pos, negsuc}
use titanarb_engine.Base.Dict.{lookup, insert}
use titanarb_engine.Pools.{Pool}

-- quotes.Request
pub record QuoteRequest : Type 0 where
  pub token_in : Text
  pub token_out : Text
  pub amount_in : Option ℤ
  pub pool : Pool

-- quotes.Result of a quote that succeeded.
pub record QuoteResult : Type 0 where
  pub amount_out : ℤ
  pub estimated_gas : ℕ
  pub fee : ℕ

-- What a quoter answers: an error, or a result.
abbrev pub Answer : Type 0
Answer = Text ⊎ QuoteResult

-- quoteCacheEntry; its answer is missing while the call is in flight.
pub record QuoteEntry : Type 0 where
  pub answer : Option Answer
  pub pool : Text

-- The fields of Engine for its quotes. A budget of 0 stands for every non-positive one.
pub record QuoteState : Type 0 where
  pub block : ℕ
  pub cache : List (Text × QuoteEntry)
  pub persistent : Bool
  pub hits : ℕ
  pub dedup : ℕ
  pub misses : ℕ
  pub invalidations : ℕ
  pub budget : ℕ
  pub budget_used : ℕ
  pub budget_dropped : ℕ

-- big.Int.String
unfoldable pub signed_decimal : ℤ → Text
signed_decimal (pos n) = decimal n
signed_decimal (negsuc n) = bytes "-" ++ decimal (n + 1)

-- strings.Join(parts, "|")
unfoldable pub join_bars : List Text → Text
join_bars [] = []
join_bars (x ∷ []) = x
join_bars (x ∷ y ∷ xs) = x ++ (bytes "|" ++ join_bars (y ∷ xs))

-- The block that the state of a pool belongs to.
unfoldable pub state_version : QuoteState → Pool → ℕ
state_version s p =
    if s.persistent && ltb 0 p.last_updated_block then p.last_updated_block else s.block

-- The key of a request for the state at a block; `none` for the empty key.
unfoldable pub key_of : ℕ → QuoteRequest → Option Text
key_of version req = elim req.amount_in [
  | none ↦ none
  | some amount ↦ elim (trim_space req.pool.address) [
    | [] ↦ none
    | _ ∷ _ ↦ some (
        join_bars (
          decimal version
          ∷ to_lower req.pool.address
          ∷ req.pool.dex
          ∷ decimal req.pool.fee
          ∷ to_lower req.token_in
          ∷ to_lower req.token_out
          ∷ signed_decimal amount
          ∷ []))
  ]
]

-- quoteKey
unfoldable pub quote_key : QuoteState → QuoteRequest → Option Text
quote_key s req = key_of (state_version s req.pool) req

-- What the section before the call decides: the answer is in the cache, another caller is fetching
-- it, the budget is spent, or it has to be fetched.
pub data Begun : Type 0 where
  cached : Answer → Begun
  joined dropped fresh : Begun

-- The budget test of a key that is not in the cache.
unfoldable pub open_entry : Text → Text → QuoteState → Begun × QuoteState
open_entry key pool s =
    if ltb 0 s.budget && leb s.budget s.budget_used
    then (dropped, record s { budget_dropped = s.budget_dropped + 1 })
    else (
      fresh,
      record s {
        budget_used = s.budget_used + 1;
        cache = insert key (record { answer = none; pool = pool }) s.cache;
        misses = s.misses + 1;
      },
    )

-- The section of quote before the call.
unfoldable pub begin_quote : Text → QuoteRequest → QuoteState → Begun × QuoteState
begin_quote key req s = elim (lookup key s.cache) [
  | none ↦ open_entry key (to_lower req.pool.address) s
  | some entry ↦ elim entry.answer [
    | none ↦ (joined, record s { dedup = s.dedup + 1 })
    | some a ↦ (cached a, record s { hits = s.hits + 1 })
  ]
]

-- The section after the call. The entry that the caller made is the one under its key as long as no
-- cycle starts during the call; if one has started, the entry is not in the cache.
unfoldable pub finish_quote : Text → Answer → QuoteState → QuoteState
finish_quote key a s = elim (lookup key s.cache) [
  | none ↦ s
  | some entry ↦ record s { cache = insert key (record entry { answer = some a }) s.cache }
]

-- quote by a single caller, with what the quoter would answer. No other caller is in flight, so that
-- `joined` does not occur.
unfoldable pub quote : (QuoteRequest → Answer) → QuoteRequest → QuoteState → Answer × QuoteState
quote ask req s = elim (quote_key s req) [
  | none ↦ (ask req, s)
  | some key ↦
      let (begun, s') = begin_quote key req s in
      elim begun [
        | cached a ↦ (a, s')
        | joined ↦ (inl (bytes "in flight"), s')
        | dropped ↦ (inl (bytes "fresh quote budget exhausted"), s')
        | fresh ↦ (ask req, finish_quote key (ask req) s')
      ]
]

-- The counters that each cycle starts from.
unfoldable pub reset_counters : QuoteState → QuoteState
reset_counters s = record s {
  hits = 0;
  dedup = 0;
  misses = 0;
  invalidations = 0;
  budget_used = 0;
  budget_dropped = 0;
}

-- ResetQuoteCache
unfoldable pub reset_quote_cache : ℕ → QuoteState → QuoteState
reset_quote_cache block s = record (reset_counters s) { block = block; cache = [] }

abbrev pub cache_bound : ℕ
cache_bound = 32768

-- PrepareQuoteCache
unfoldable pub prepare_quote_cache : ℕ → List Text → Bool → QuoteState → QuoteState
prepare_quote_cache block dirty persistent s =
    let kept = select (λ e. not (text_mem e.1.pool dirty)) s.cache in
    let gone = select (λ e. text_mem e.1.pool dirty) s.cache in
    let s' = record (reset_counters s) { block = block; persistent = persistent } in
    if not persistent
    then record s' { cache = [] }
    else if ltb cache_bound (length kept)
    then record s' { cache = []; invalidations = length gone + length kept }
    else record s' { cache = kept; invalidations = length gone }

-- SetQuoteBudget
unfoldable pub set_quote_budget : ℕ → QuoteState → QuoteState
set_quote_budget limit s = record s { budget = limit; budget_used = 0; budget_dropped = 0 }
