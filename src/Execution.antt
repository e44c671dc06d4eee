-- ===== src/Execution.antt =====
-- go/internal/execution/builder.go and the freshness test of pipeline.go. An address of go-ethereum is
-- a number, 0 for the zero address.
pub mod Validation
pub mod Encoding
pub mod Build
pub mod Requests
pub mod Pipeline
pub mod Gates
mod Tests
use titanarb_engine.Base.{
  ℕ, zero, suc, ◌+◌, ◌-◌, ◌/◌, ◌%◌, ◌≡◌, Bool, true, false, not, ◌&&◌, ◌||◌, Option, none, some,
  List, [], ◌∷◌, ◌++◌, ltb, leb, ◌==◌, if◌then◌else◌, length, replicate,
}
use titanarb_engine.Base.Int.{ℤ}
use titanarb_engine.Pools.{is_positive}

abbrev pub Address : Type 0
Address = ℕ

pub record SwapStep : Type 0 where
  pub adapter : Address
  pub token_in : Address
  pub token_out : Address
  pub amount_out_minimum : Option ℤ
  pub payload : List ℕ

pub record Request : Type 0 where
  pub asset : Address
  pub amount : Option ℤ
  pub steps : List SwapStep
  pub deadline : Option ℤ
  pub min_profit : Option ℤ

pub data RequestError : Type 0 where
  no_asset_or_amount wrong_hop_count no_deadline_or_profit wrong_endpoints : RequestError
  invalid_step : ℕ → RequestError
  token_discontinuity : ℕ → RequestError

abbrev pub first_in : List SwapStep → Address
first_in [] = 0
first_in (s ∷ ss) = s.token_in

abbrev pub last_out : List SwapStep → Address
last_out [] = 0
last_out (s ∷ []) = s.token_out
last_out (s ∷ t ∷ ss) = last_out (t ∷ ss)

abbrev pub is_valid_step : SwapStep → Bool
is_valid_step s = not (
    s.adapter == 0 || s.token_in == 0 || s.token_out == 0 || not (is_positive s.amount_out_minimum))

-- The token that a step has to continue with: that of the step before, if there is one.
abbrev pub continues : Option Address → SwapStep → Bool
continues none s = true
continues (some out) s = s.token_in == out

pub check_steps : ℕ → Option Address → List SwapStep → Option RequestError
check_steps i previous [] = none
check_steps i previous (s ∷ ss) =
    let rest = check_steps (suc i) (some s.token_out) ss in
    if not (is_valid_step s)
    then some (invalid_step i)
    else if not (continues previous s)
    then some (token_discontinuity i)
    else rest

-- Validate; `none` for no error.
pub validate : Request → Option RequestError
unfolding check_steps
validate r =
    if r.asset == 0 || not (is_positive r.amount)
    then some no_asset_or_amount
    else if ltb (length r.steps) 2 || ltb 4 (length r.steps)
    then some wrong_hop_count
    else if not (is_positive r.deadline) || not (is_positive r.min_profit)
    then some no_deadline_or_profit
    else if not (first_in r.steps == r.asset) || not (last_out r.steps == r.asset)
    then some wrong_endpoints
    else check_steps 0 none r.steps

-- EncodeUniswapFee
pub encode_uniswap_fee : ℕ → Option (List ℕ)
encode_uniswap_fee fee =
    if ltb 16777215 fee
    then none
    else some (replicate 29 0 ++ (fee / 65536 % 256) ∷ (fee / 256 % 256) ∷ (fee % 256) ∷ [])

pub candidate_block_lag : ℕ → ℕ → ℕ
candidate_block_lag source observed =
    if source == 0 || leb observed source then 0 else observed - source

pub candidate_is_fresh : ℕ → ℕ → ℕ → Bool
unfolding candidate_block_lag
candidate_is_fresh source observed staleness =
    source == 0 || leb (candidate_block_lag source observed) staleness
