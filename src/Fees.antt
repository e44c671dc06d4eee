-- ===== src/Fees.antt =====
-- go/internal/fees/arbitrum.go: the fee of a transaction from the responses of ArbGasInfo, NodeInterface
-- and the price feed, which are arguments; `none` is a failed call.
pub mod Totals
mod Tests
use titanarb_engine.Base.{
  ℕ, ◌+◌, ◌*◌, ◌/◌, ◌^◌, ◌==◌, Bool, true, false, not, Option, none, some, List, [], ◌∷◌, Text,
  if◌then◌else◌,
}
use titanarb_engine.Base.Int.{ℤ, pos, negsuc, ◌*ℤ◌}
use titanarb_engine.Dex.{decode_words, word_uint, word_int}

-- big.Rat: a fraction, whose denominator is positive.
pub record Rat : Type 0 where
  pub num : ℤ
  pub den : ℕ

pub record FeeEstimate : Type 0 where
  pub l2_cost : Option ℤ
  pub l1_cost : Option ℤ
  pub total_wei : ℤ
  pub total_eth : Option Rat
  pub total_usd : Rat
  pub safety_margin_wei : ℤ
  pub timestamp : ℕ

abbrev pub response_words : Option Text → Option (List (List ℕ))
response_words none = none
response_words (some raw) = decode_words raw

-- perL2Tx and perArbGas of getPricesInWei: the words 0 and 5.
abbrev pub prices_of : Option (List (List ℕ)) → Option (ℕ × ℕ)
prices_of (some (a ∷ b ∷ c ∷ d ∷ e ∷ f ∷ ws)) = some (word_uint a, word_uint f)
prices_of _ = none

-- The product of the words 1 and 2 of gasEstimateComponents.
abbrev pub l1_of : Option (List (List ℕ)) → Option ℕ
l1_of (some (a ∷ b ∷ c ∷ d ∷ ws)) = some (word_uint b * word_uint c)
l1_of _ = none

abbrev decimals_of : Option (List (List ℕ)) → Option ℕ
decimals_of (some (a ∷ ws)) = some (word_uint a)
decimals_of _ = none

-- A positive answer, in word 1 of latestRoundData.
abbrev answer_of : Option (List (List ℕ)) → Option ℕ
answer_of (some (a ∷ b ∷ c ∷ d ∷ e ∷ ws)) = elim (word_int b) [
  | pos n ↦ if n == 0 then none else some n
  | negsuc n ↦ none
]
answer_of _ = none

-- ethUSD, for the responses to decimals() and latestRoundData().
pub eth_usd : Option Text → Option Text → Option Rat
eth_usd decimals_response round_response = elim (decimals_of (response_words decimals_response)) [
  | none ↦ none
  | some decimals ↦ elim (answer_of (response_words round_response)) [
    | none ↦ none
    | some answer ↦ some (record { num = pos answer; den = 10 ^ decimals })
  ]
]

abbrev pub times : Rat → Rat → Rat
times a b = record { num = a.num *ℤ b.num; den = a.den * b.den }

pub record FeeResponses : Type 0 where
  pub prices : Option Text
  pub node : Option Text
  pub decimals : Option Text
  pub round : Option Text

-- The fee from the parts that were read.
pub fee_from : ℕ → ℕ → ℕ → ℕ → ℕ → ℕ → Rat → FeeEstimate
fee_from now safety_bps gas_limit per_tx per_gas l1 price =
    let l2 = per_tx + gas_limit * per_gas in
    let raw = l2 + l1 in
    let margin = raw * safety_bps / 10000 in
    let eth : Rat = record { num = pos (raw + margin); den = 10 ^ 18 } in
    record {
      l2_cost = some (pos l2);
      l1_cost = some (pos l1);
      total_wei = pos (raw + margin);
      total_eth = some eth;
      total_usd = times eth price;
      safety_margin_wei = pos margin;
      timestamp = now;
    }

-- Estimate, at the time `now`.
pub estimate_fee : ℕ → ℕ → ℕ → FeeResponses → Option FeeEstimate
unfolding fee_from eth_usd
estimate_fee now safety_bps gas_limit r = elim (prices_of (response_words r.prices)) [
  | none ↦ none
  | some (per_tx, per_gas) ↦ elim (l1_of (response_words r.node)) [
    | none ↦ none
    | some l1 ↦ elim (eth_usd r.decimals r.round) [
      | none ↦ none
      | some price ↦ some (fee_from now safety_bps gas_limit per_tx per_gas l1 price)
    ]
  ]
]
