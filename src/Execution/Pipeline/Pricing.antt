-- ===== src/Execution/Pipeline/Pricing.antt =====
-- go/internal/execution/pipeline.go: simulation and the final repricing of a prepared request.
use titanarb_engine.Base.{
  ℕ, ◌+◌, ◌-◌, ◌*◌, ◌/◌, ◌^◌, Bool, true, false, not, ◌&&◌, ◌||◌, Option, none, some, List, [], ◌∷◌,
  Text, bytes, ltb, ◌==◌, if◌then◌else◌, length,
}
use titanarb_engine.Base.Int.{ℤ, pos, negsuc, ◌*ℤ◌, pos_part, neg_part}
use titanarb_engine.Base.Dict.{lookup}
use titanarb_engine.Dex.{word_uint}
use titanarb_engine.Pricing.{Inputs, value, evaluate}
use titanarb_engine.Fees.{Rat, response_words}
use titanarb_engine.Opportunity.{Hop}
use titanarb_engine.Execution.Build.{Config, Token, first_symbol, div_floor}
use titanarb_engine.Execution.Pipeline.{
  Rat, Simulation, Environment, Stage, stopped, passed, Prepared, rejects, simulation_attempted,
  simulation_failed, post_gas_rejected, recorded, simulation_error, premium_error, asset_missing,
  unprofitable,
}

-- simulation.Simulate: eth_call, gas estimate, fee.
unfoldable pub simulate : Environment → List ℕ → Option Simulation
simulate env calldata =
    if ltb (length calldata) 4 || not (env.eth_call calldata)
    then none
    else elim (env.estimate_gas calldata) [
      | none ↦ none
      | some gas ↦ elim (env.estimate_fee gas calldata) [
        | none ↦ none
        | some fee ↦ some (record { gas_estimate = gas; fee = fee })
      ]
    ]

abbrev first_word : Option (List (List ℕ)) → Option (List ℕ)
first_word (some (w ∷ ws)) = some w
first_word _ = none

-- aavePremium: basis points of the amount.
unfoldable pub aave_premium : Option Text → ℤ → Option ℤ
aave_premium response amount = elim (first_word (response_words response)) [
  | none ↦ none
  | some w ↦ some (div_floor (amount *ℤ pos (word_uint w)) 10000)
]

-- big.Int.Quo, which rounds towards 0, of a product's sign and size.
abbrev signed : Bool → ℕ → ℤ
signed true n = pos n
signed false n = if n == 0 then pos 0 else negsuc (n - 1)

abbrev size : ℤ → ℕ
size z = pos_part z + neg_part z

abbrev same_sign : ℤ → ℤ → Bool
same_sign a b =
    not (ltb 0 (neg_part a)) && not (ltb 0 (neg_part b)) || ltb 0 (neg_part a) && ltb 0 (neg_part b)

abbrev quo_ℤ : ℤ → ℤ → ℤ
quo_ℤ a b = signed (same_sign a b) (size a / size b)

-- feeToBaseRaw: component / 10^18 * (total_usd / total_eth) * 10^decimals, rounded towards 0.
unfoldable pub fee_to_base_raw : Option ℤ → Rat → Option Rat → ℕ → ℤ
fee_to_base_raw none usd eth decimals = pos 0
fee_to_base_raw (some component) usd none decimals = pos 0
fee_to_base_raw (some component) usd (some eth) decimals =
    if size component == 0 || size eth.num == 0
    then pos 0
    else quo_ℤ (component *ℤ usd.num *ℤ pos (eth.den * 10 ^ decimals))
        (eth.num *ℤ pos (usd.den * 10 ^ 18))

abbrev pub last_amount : List Hop → ℤ
last_amount [] = pos 0
last_amount (h ∷ []) = h.amount_out
last_amount (h ∷ k ∷ hs) = last_amount (k ∷ hs)

-- What the economics are computed from.
abbrev pub inputs_of : Prepared → Simulation → ℤ → Token → Inputs
inputs_of p sim premium asset = record {
  amount_in = p.request.amount;
  amount_out = some (last_amount p.opportunity.hops);
  aave_premium = some premium;
  l2_fee =
      some (fee_to_base_raw sim.fee.l2_cost sim.fee.total_usd sim.fee.total_eth asset.decimals);
  l1_data_fee =
      some (fee_to_base_raw sim.fee.l1_cost sim.fee.total_usd sim.fee.total_eth asset.decimals);
  min_profit = p.request.min_profit;
}

pub record Priced : Type 0 where
  pub prepared : Prepared
  pub simulation : Simulation
  pub premium : ℤ
  pub asset : Token

unfoldable pub price : Environment → Config → Prepared → Stage Priced
price env cfg p = elim (simulate env p.calldata) [
  | none ↦
      stopped (rejects simulation_error)
        (simulation_attempted ∷ simulation_failed ∷ recorded (bytes "trade_failed") ∷ [])
  | some sim ↦ elim (aave_premium env.premium (value p.request.amount)) [
    | none ↦ stopped (rejects premium_error) (simulation_attempted ∷ [])
    | some premium ↦ elim (lookup (first_symbol p.opportunity.route.symbols) cfg.tokens) [
      | none ↦ stopped (rejects asset_missing) (simulation_attempted ∷ [])
      | some asset ↦
          if (evaluate (inputs_of p sim premium asset)).profitable
          then passed (record { prepared = p; simulation = sim; premium = premium; asset = asset })
              (simulation_attempted ∷ [])
          else stopped (rejects unprofitable)
              (simulation_attempted ∷ post_gas_rejected ∷ recorded (bytes "post_gas_rejected") ∷ [])
    ]
  ]
]
