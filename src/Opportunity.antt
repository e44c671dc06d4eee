-- ===== src/Opportunity.antt =====
-- go/internal/opportunity/engine.go: the engine that evaluates routes, and the candidate that it hands
-- to the execution pipeline.
pub mod Quotes
pub mod Quoters
pub mod Costs
pub mod Sampling
pub mod Evaluation
mod Tests
use titanarb_engine.Base.{ℕ, Option, List, Text}
use titanarb_engine.Base.Int.{ℤ}
use titanarb_engine.Pools.{Pool}
use titanarb_engine.Routes.{Route}

-- The amounts of a quoted hop and the loan of an opportunity are set.
pub record Hop : Type 0 where
  pub pool : Pool
  pub amount_in : ℤ
  pub amount_out : ℤ
  pub quote_gas : ℕ
  pub fee : ℕ

pub record Opportunity : Type 0 where
  pub route : Route
  pub amount_in : ℤ
  pub amount_out : Option ℤ
  pub hops : List Hop
  pub source_block : ℕ
  pub gross_profit : Option ℤ
  pub aave_premium : Option ℤ
  pub expected_profit : Option ℤ
  pub gas_estimate : Option ℤ
  pub l1_data_fee : Option ℤ
  pub min_profit : Option ℤ
  pub confidence : Text
  pub timestamp : ℕ
