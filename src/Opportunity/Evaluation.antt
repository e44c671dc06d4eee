-- ===== src/Opportunity/Evaluation.antt =====
-- go/internal/opportunity/engine.go: Evaluate and EvaluateSilent by a single caller, and their events.
pub mod Sampled
pub mod Verdict
pub mod Block
use titanarb_engine.Base.{
  ℕ, suc, ◌+◌, ◌*◌, Bool, true, false, not, ◌&&◌, ◌||◌, Option, none, some, ◌⊎◌, inl, inr, List, [],
  ◌∷◌, ◌++◌, length, Text, bytes, text_eq, ltb, leb, ◌==◌, if◌then◌else◌,
}
use titanarb_engine.Base.Int.{ℤ, pos, ◌*ℤ◌}
use titanarb_engine.Base.Dict.{lookup}
use titanarb_engine.Dex.{decode_words, word_uint}
use titanarb_engine.Pools.{Pool, supports, uniswap_v3, camelot_v3}
use titanarb_engine.Routes.{Route}
use titanarb_engine.Pricing.{Result, evaluate}
use titanarb_engine.Opportunity.{Hop, Opportunity}
use titanarb_engine.Opportunity.Quotes.{QuoteRequest, QuoteState, Answer, quote}
use titanarb_engine.Execution.Build.{Token, first_symbol, last_symbol, div_floor}
use titanarb_engine.Opportunity.Sampling.{
  Engine, EvalError, quoter_of, quoted_hop, quote_hop, cons_hop, quote_hops, PremiumState,
  premium_lifetime, fetch_premium, aave_premium_bps, is_bounded, Sample, Moment, assess,
  invalid_route, not_loan_asset, unsupported_pool, unsupported_dex, unknown_token, quoter_error,
  premium_failed, cost_failed,
}

pub data EventType : Type 0 where
  found rejected quote_failed pool_updated : EventType

pub record EngineEvent : Type 0 where
  pub type : EventType
  pub opportunity : Option Opportunity
  pub reason : Text
  pub timestamp : ℕ

-- The counters of the metrics that an evaluation increments.
pub record Counters : Type 0 where
  pub routes_evaluated : ℕ
  pub opportunities : ℕ

-- The fields of Engine that an evaluation changes.
pub record EvalState : Type 0 where
  pub quotes : QuoteState
  pub premium : PremiumState
  pub events : List EngineEvent
  pub metrics : Option Counters

-- The capacity of the channel Events.
abbrev pub event_capacity : ℕ
event_capacity = 4096

-- emit
unfoldable pub emit : EngineEvent → List EngineEvent → List EngineEvent
emit event events = if ltb (length events) event_capacity then events ++ event ∷ [] else events

-- The part that Evaluate and EvaluateSilent share.
unfoldable pub appraise : Engine → Moment → Route → ℤ → EvalState → (EvalError ⊎ Sample) × EvalState
appraise e t route amount s =
    if not (is_bounded route)
    then (inl invalid_route, s)
    else elim (lookup (first_symbol route.symbols) e.tokens) [
      | none ↦ (inl not_loan_asset, s)
      | some asset ↦
          if not (text_eq (last_symbol route.symbols) (first_symbol route.symbols))
          then (inl not_loan_asset, s)
          else (let (quoted, q) = quote_hops e route.symbols route.hops amount s.quotes in
              elim quoted [
                | inl failed ↦ (inl failed, record s { quotes = q })
                | inr (hops, out) ↦
                    let (answer, p) = assess e t asset route amount hops out s.premium in
                    (answer, record s { quotes = q; premium = p })
              ])
    ]

unfoldable pub priced : Engine → ℤ → Sample → Result
priced e amount x = evaluate (record {
  amount_in = some amount;
  amount_out = some x.out;
  aave_premium = some x.premium;
  l2_fee = some x.l2;
  l1_data_fee = some x.l1;
  min_profit = some e.min_profit;
})

unfoldable pub opportunity_of : Engine → Moment → Route → ℤ → ℕ → Text → Sample → Opportunity
opportunity_of e t route amount source confidence x = record {
  route = route;
  amount_in = amount;
  amount_out = some x.out;
  hops = x.hops;
  source_block = source;
  gross_profit = some (priced e amount x).gross_profit;
  aave_premium = some x.premium;
  expected_profit = some (priced e amount x).expected_profit;
  gas_estimate = some x.l2;
  l1_data_fee = some x.l1;
  min_profit = some e.min_profit;
  confidence = confidence;
  timestamp = t.timestamp;
}

-- EvaluateSilent
pub evaluate_silent :
    Engine → Moment → Route → ℤ → EvalState → (EvalError ⊎ Opportunity) × EvalState
evaluate_silent e t route amount s =
    let (answer, s') = appraise e t route amount s in
    elim answer [
      | inl failed ↦ (inl failed, s')
      | inr x ↦ (inr (opportunity_of e t route amount 0 (bytes "optimizer_sample") x), s')
    ]

-- One round of the loop of routeSourceBlock.
unfoldable pub older_block : ℕ → ℕ → ℕ
older_block source block =
    if block == 0 then source else if source == 0 || ltb block source then block else source

-- The loop of routeSourceBlock.
unfoldable pub source_block_from : ℕ → List Pool → ℕ
source_block_from source [] = source
source_block_from source (p ∷ ps) = source_block_from (older_block source p.last_updated_block) ps

-- routeSourceBlock
unfoldable pub route_source_block : Route → ℕ
route_source_block route = source_block_from 0 route.hops

-- The metrics for an evaluated route.
unfoldable pub count_route : Bool → Counters → Counters
count_route profitable c = record {
  routes_evaluated = c.routes_evaluated + 1;
  opportunities = if profitable then c.opportunities + 1 else c.opportunities;
}

abbrev pub count_metrics : Bool → Option Counters → Option Counters
count_metrics profitable none = none
count_metrics profitable (some c) = some (count_route profitable c)

-- The event of an evaluated route.
unfoldable pub verdict : Bool → Opportunity → EngineEvent
verdict profitable o = record {
  type = if profitable then found else rejected;
  opportunity = some o;
  reason = if profitable then [] else bytes "profitability threshold not met";
  timestamp = o.timestamp;
}

-- The event of a quote that failed; other errors have none.
pub after_error : Moment → EvalError → List EngineEvent → List EngineEvent
after_error t (quoter_error m) events =
    emit (record { type = quote_failed; opportunity = none; reason = m; timestamp = t.timestamp })
      events
after_error t _ events = events

-- Evaluate
unfoldable pub evaluate_route :
    Engine → Moment → Route → ℤ → EvalState → (EvalError ⊎ Opportunity) × EvalState
evaluate_route e t route amount s =
    let (answer, s') = appraise e t route amount s in
    elim answer [
      | inl failed ↦ (inl failed, record s' { events = after_error t failed s'.events })
      | inr x ↦
          let o =
            opportunity_of e t route amount (route_source_block route) (bytes "pre_simulation") x in
          let profitable = (priced e amount x).profitable in
          (
            inr o,
            record s' {
              events = emit (verdict profitable o) s'.events;
              metrics = count_metrics profitable s'.metrics;
            },
          )
    ]
