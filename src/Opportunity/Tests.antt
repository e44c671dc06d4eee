-- ===== src/Opportunity/Tests.antt =====
-- A route of two hops through the engine, with its quotes and its costs.
use titanarb_engine.Base.{
  List, ◌≡◌, refl, inl, inr, true, none, some, [], ◌∷◌, Text, bytes, arith, text_eq, text_mem,
  to_lower, lower_byte, equal_fold, trim_space, decimal, select,
}
use titanarb_engine.Base.Int.{pos, ◌+ℤ◌, ◌-ℤ◌, ◌*ℤ◌}
use titanarb_engine.Base.Dict.{lookup, insert}
use titanarb_engine.Pools.{Pool, supports, uniswap_v3, camelot_v3}
use titanarb_engine.Routes.{Route}
use titanarb_engine.Pricing.{evaluate}
use titanarb_engine.Opportunity.{Opportunity}
use titanarb_engine.Opportunity.Quotes.{
  QuoteRequest, QuoteState, Answer, quote, quote_key, key_of, state_version, signed_decimal,
  join_bars, begin_quote, open_entry, finish_quote, set_quote_budget, prepare_quote_cache,
  reset_counters,
}
use titanarb_engine.Opportunity.Quotes.Accounting.{
  begins, finishes, bypasses, prepares, run_quote_call, run_quote_calls, begun_calls, start_cycle,
  tally, tally_calls, QuoteCall, IsBudgeted, cycle-IsBudgeted,
}
use titanarb_engine.Opportunity.Quotes.Persistence.{
  Turn, calls, next_cycle, run_turn, run_turns, quote_kept,
}
use titanarb_engine.Execution.Build.{Token}
use titanarb_engine.Opportunity.Costs.{CostModel, CostCache, cached_estimate, static_estimate}
use titanarb_engine.Opportunity.Costs.Kept.{Answers, IsKept, IsRecent, cached_estimate-IsRecent}
use titanarb_engine.Opportunity.Sampling.{
  Engine, Moment, quote_hops, quote_hop, quoted_hop, quoter_of, assess, aave_premium_bps,
}
use titanarb_engine.Opportunity.Evaluation.{
  EvalState, evaluate_route, appraise, opportunity_of, priced, route_source_block,
  source_block_from, older_block,
}
use titanarb_engine.Opportunity.Evaluation.Verdict.{
  IsAppraised, Announced, evaluate-IsAppraised, evaluate_route-Announced,
}

abbrev pool_a : Pool
pool_a = record {
  address = bytes "0xP1";
  token0 = bytes "0xa";
  token1 = bytes "0xb";
  dex = uniswap_v3;
  fee = 500;
  liquidity = none;
  sqrt_price_x96 = none;
  last_updated_block = 8;
}

abbrev pool_b : Pool
pool_b = record pool_a { address = bytes "0xP2"; dex = camelot_v3; last_updated_block = 7 }

abbrev loop_route : Route
loop_route = record {
  symbols = bytes "A" ∷ bytes "B" ∷ bytes "A" ∷ [];
  hops = pool_a ∷ pool_b ∷ [];
}

abbrev doubles : QuoteRequest → Answer
doubles req = inr (record { amount_out = pos 2000; estimated_gas = 90; fee = 500 })

abbrev gains : QuoteRequest → Answer
gains req = inr (record { amount_out = pos 1100; estimated_gas = 0; fee = 300 })

abbrev fails : QuoteRequest → Answer
fails req = inl (bytes "timeout")

abbrev engine : Engine
engine = record {
  tokens =
      (bytes "A", record { address = bytes "0xa"; decimals = 6 })
      ∷ (bytes "B", record { address = bytes "0xb"; decimals = 18 })
      ∷ [];
  uni = doubles;
  camelot = gains;
  cost = static_estimate (some (pos 3)) (some (pos 2));
  min_profit = pos 5;
}

abbrev no_quotes : QuoteState
no_quotes = record {
  block = 9;
  cache = [];
  persistent = true;
  hits = 0;
  dedup = 0;
  misses = 0;
  invalidations = 0;
  budget = 0;
  budget_used = 0;
  budget_dropped = 0;
}

abbrev idle_state : EvalState
idle_state = record {
  quotes = no_quotes;
  premium = record { bps = some 5; expiry = 100 };
  events = [];
  metrics = some (record { routes_evaluated = 0; opportunities = 0 });
}

abbrev moment : Moment
moment = record { premium_raw = inl (bytes "unused"); now = 50; later = 60; timestamp = 70 }

abbrev request : QuoteRequest
request = record {
  token_in = bytes "0xa";
  token_out = bytes "0xb";
  amount_in = some (pos 1000);
  pool = pool_a;
}

abbrev request_key : Text
request_key = bytes "8|0xp1|uniswap_v3|500|0xa|0xb|1000"

request_key_lem : quote_key no_quotes request ≡ some request_key
unfolding quote_key key_of state_version join_bars signed_decimal decimal to_lower trim_space
    lower_byte
request_key_lem = refl

-- Another caller fetches, then the next cycle starts, in which the other pool is dirty.
abbrev later_turns : List Turn
later_turns =
    calls (begins (bytes "other") request)
    ∷ calls (begins request_key request)
    ∷ calls (finishes (bytes "other") (doubles request))
    ∷ next_cycle 10 (bytes "0xp2" ∷ []) 1
    ∷ []

quote_kept_example :
    ((quote fails request no_quotes).0 ≡ fails request)
    × ((quote gains request (run_turns later_turns (quote fails request no_quotes).1)).0
        ≡ fails request)
unfolding quote quote_key key_of state_version join_bars signed_decimal decimal to_lower trim_space
    lower_byte begin_quote open_entry finish_quote lookup insert select text_mem text_eq
    run_quote_call run_turn
quote_kept_example =
    quote_kept fails gains request request_key no_quotes later_turns
      (record { keyed = request_key_lem; missing = refl; allowed = refl })
      (refl, (record { persists = refl; dated = omega arith; clean = refl; few = omega arith }, tt))

-- Of two calls with a key the second one is over the budget.
abbrev two_calls : List QuoteCall
two_calls =
    begins request_key request
    ∷ bypasses (record request { amount_in = none })
    ∷ begins (bytes "other") request
    ∷ finishes request_key (doubles request)
    ∷ []

cycle-IsBudgeted_example :
    IsBudgeted 1 2
      (record { answered = 0; waiting = 0; refused = 1; fetched = 1 })
      (run_quote_calls two_calls (start_cycle (prepares 9 (bytes "0xp2" ∷ []) true) 1 no_quotes))
unfolding begun_calls tally tally_calls start_cycle set_quote_budget prepare_quote_cache
    reset_counters begin_quote open_entry finish_quote lookup insert text_eq select
cycle-IsBudgeted_example =
    cycle-IsBudgeted (prepares 9 (bytes "0xp2" ∷ []) true) 1 two_calls no_quotes

abbrev empty_costs : CostCache
empty_costs = record { ttl = 10; entries = [] }

-- Fees of 3 and 2 for the asset `0xa` and no hops, at the time 20.
abbrev Known : Answers
Known address decimals n t l =
    (address ≡ bytes "0xa") × (decimals ≡ 6) × (n ≡ 0) × (t ≡ 20) × (l ≡ (pos 3, pos 2))

abbrev fixed : CostModel
fixed = static_estimate (some (pos 3)) (some (pos 2))

abbrev asset_a : Token
asset_a = record { address = bytes "0xa"; decimals = 6 }

cached_estimate-IsRecent_example :
    IsKept Known (cached_estimate fixed 15 20 asset_a loop_route [] empty_costs).1
    × IsRecent Known asset_a 0 15 20 10
        (cached_estimate fixed 15 20 asset_a loop_route [] empty_costs).0
unfolding static_estimate lookup
cached_estimate-IsRecent_example =
    cached_estimate-IsRecent Known fixed 15 20 asset_a loop_route [] empty_costs
      (refl, refl, refl, refl, refl) tt

evaluate_route-Announced_example :
    Announced engine moment loop_route
      (pos 1000)
      idle_state
      (evaluate_route engine moment loop_route (pos 1000) idle_state)
evaluate_route-Announced_example =
    evaluate_route-Announced engine moment loop_route (pos 1000) idle_state

abbrev profit : Opportunity
profit = record {
  route = loop_route;
  amount_in = pos 1000;
  amount_out = some (pos 1100);
  hops =
      (record {
        pool = pool_a;
        amount_in = pos 1000;
        amount_out = pos 2000;
        quote_gas = 90;
        fee = 500;
      })
      ∷ (record {
        pool = pool_b;
        amount_in = pos 2000;
        amount_out = pos 1100;
        quote_gas = 0;
        fee = 300;
      })
      ∷ [];
  source_block = 7;
  gross_profit = some (pos 100);
  aave_premium = some (pos 0);
  expected_profit = some (pos 95);
  gas_estimate = some (pos 3);
  l1_data_fee = some (pos 2);
  min_profit = some (pos 5);
  confidence = bytes "pre_simulation";
  timestamp = 70;
}

evaluate_route-profit :
    (evaluate_route engine moment loop_route (pos 1000) idle_state).0 ≡ inr profit
unfolding evaluate_route appraise quote_hops quote_hop quoted_hop quoter_of assess aave_premium_bps
    opportunity_of priced evaluate route_source_block source_block_from older_block static_estimate
    supports equal_fold quote quote_key key_of state_version join_bars signed_decimal decimal
    to_lower trim_space lower_byte begin_quote open_entry finish_quote lookup insert text_eq ◌-ℤ◌
    ◌*ℤ◌ ◌+ℤ◌
evaluate_route-profit = refl

evaluate-IsAppraised_example : IsAppraised engine moment loop_route (pos 1000) idle_state profit
evaluate-IsAppraised_example =
    evaluate-IsAppraised engine moment loop_route (pos 1000) idle_state profit
      (inl evaluate_route-profit)
