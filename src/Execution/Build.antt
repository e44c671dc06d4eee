-- ===== src/Execution/Build.antt =====
-- go/internal/execution/pipeline.go, BuildRequest: from a quoted opportunity to a request. The parser of
-- addresses is go-ethereum's, the timestamp is that of the latest block, as the node gives it.
use titanarb_engine.Base.{
  ℕ, suc, ◌+◌, ◌-◌, ◌*◌, ◌/◌, ◌%◌, ◌⊎◌, inl, inr, Bool, not, ◌||◌, Option, none, some, List, [],
  ◌∷◌, Text, ltb, ◌==◌, if◌then◌else◌, length, text_eq, u64,
}
use titanarb_engine.Base.Int.{ℤ, pos, negsuc, ◌*ℤ◌}
use titanarb_engine.Base.Dict.{lookup}
use titanarb_engine.Dex.{trim_0x, hex_value}
use titanarb_engine.Pools.{positive, camelot_v3}
use titanarb_engine.Opportunity.{Hop, Opportunity}
use titanarb_engine.Execution.{Address, SwapStep, Request, encode_uniswap_fee}

pub record Token : Type 0 where
  pub address : Text
  pub decimals : ℕ

-- The settings that the pipeline reads, those of the market included.
pub record Config : Type 0 where
  pub tokens : List (Text × Token)
  pub uniswap_v3_adapter : Text
  pub camelot_v3_adapter : Text
  pub slippage_bps : ℕ
  pub deadline_seconds : ℕ
  pub gas_limit_multiplier_bps : ℕ
  pub dry_run : Bool
  pub execution_mode : Text
  pub broadcast_enabled : Bool
  pub max_candidate_staleness_blocks : ℕ
  pub min_profit : ℤ

-- common.IsHexAddress and common.HexToAddress.
pub record AddressParser : Type 0 where
  pub is_hex_address : Text → Bool
  pub hex_to_address : Text → Address

pub data BuildError : Type 0 where
  invalid_opportunity asset_not_configured does_not_return fee_out_of_range invalid_address
        no_timestamp :
      BuildError
  zero_minimum : ℕ → BuildError

-- A missing token is the zero Token, with no address.
abbrev pub token_or_zero : Option Token → Token
token_or_zero none = record { address = []; decimals = 0 }
token_or_zero (some t) = t

abbrev pub token_of : Config → Text → Token
token_of cfg symbol = token_or_zero (lookup symbol cfg.tokens)

-- 10_000 - SlippageBPS in 64 bits.
abbrev pub kept_bps : Config → ℕ
kept_bps cfg = (10000 + u64 - cfg.slippage_bps) % u64

-- big.Int.Div by a positive number rounds down.
abbrev pub div_floor : ℤ → ℕ → ℤ
div_floor (pos n) d = pos (n / d)
div_floor (negsuc n) d = negsuc (n / d)

abbrev pub minimum_out : Config → Hop → ℤ
minimum_out cfg hop = div_floor (hop.amount_out *ℤ pos (kept_bps cfg)) 10000

-- The adapter of a hop, with the data for it.
abbrev pub adapter_of : Config → Hop → Text × Option (List ℕ)
adapter_of cfg hop =
    if text_eq hop.pool.dex camelot_v3
    then (cfg.camelot_v3_adapter, some [])
    else (cfg.uniswap_v3_adapter, encode_uniswap_fee hop.fee)

unfoldable pub build_step : AddressParser → Config → ℕ → Text → Text → Hop → BuildError ⊎ SwapStep
build_step parser cfg i symbol_in symbol_out hop =
    let token_in = token_of cfg symbol_in in
    let token_out = token_of cfg symbol_out in
    let (adapter, payload) = adapter_of cfg hop in
    elim payload [
      | none ↦ inl fee_out_of_range
      | some payload ↦
          if not (parser.is_hex_address adapter)
            || not (parser.is_hex_address token_in.address)
            || not (parser.is_hex_address token_out.address)
          then inl invalid_address
          else if not (positive (minimum_out cfg hop))
          then inl (zero_minimum i)
          else inr (record {
            adapter = parser.hex_to_address adapter;
            token_in = parser.hex_to_address token_in.address;
            token_out = parser.hex_to_address token_out.address;
            amount_out_minimum = some (minimum_out cfg hop);
            payload = payload;
          })
    ]

abbrev pub cons_step : SwapStep → BuildError ⊎ List SwapStep → BuildError ⊎ List SwapStep
cons_step s (inl e) = inl e
cons_step s (inr ss) = inr (s ∷ ss)

-- The loop over the hops; there is one more symbol than hops.
unfoldable pub build_steps :
    AddressParser → Config → ℕ → List Text → List Hop → BuildError ⊎ List SwapStep
unfolding build_step
build_steps parser cfg i (a ∷ b ∷ symbols) (hop ∷ hops) = elim (build_step parser cfg i a b hop) [
  | inl e ↦ inl e
  | inr s ↦ cons_step s (build_steps parser cfg (suc i) (b ∷ symbols) hops)
]
build_steps parser cfg i _ _ = inr []

abbrev pub first_symbol : List Text → Text
first_symbol [] = []
first_symbol (a ∷ symbols) = a

abbrev pub last_symbol : List Text → Text
last_symbol [] = []
last_symbol (a ∷ []) = a
last_symbol (a ∷ b ∷ symbols) = last_symbol (b ∷ symbols)

-- big.Int.SetString(s, 16): a sign or none, and digits, one at least.
parse_hex_digits : ℕ → Text → Option ℕ
parse_hex_digits acc [] = some acc
parse_hex_digits acc (c ∷ s) = elim (hex_value c) [
  | none ↦ none
  | some d ↦ parse_hex_digits (acc * 16 + d) s
]

parse_magnitude : Text → Option ℕ
unfolding parse_hex_digits
parse_magnitude [] = none
parse_magnitude (c ∷ s) = parse_hex_digits 0 (c ∷ s)

without_sign : Text → Text
without_sign [] = []
without_sign (c ∷ s) = if c == b'-' || c == b'+' then s else c ∷ s

abbrev wrap : Option ℕ → Option ℕ
wrap none = none
wrap (some n) = some (n % u64)

-- latestTimestamp, for the block's timestamp: the low 64 bits of the absolute value.
unfoldable pub latest_timestamp : Option Text → Option ℕ
unfolding parse_magnitude without_sign
latest_timestamp none = none
latest_timestamp (some raw) = wrap (parse_magnitude (without_sign (trim_0x raw)))

unfoldable pub build_request :
    AddressParser → Config → Option Text → Option Opportunity → BuildError ⊎ Request
unfolding build_steps latest_timestamp
build_request parser cfg timestamp none = inl invalid_opportunity
build_request parser cfg timestamp (some opp) =
    let symbols = opp.route.symbols in
    let hops = length opp.hops in
    if ltb hops 2 || ltb 4 hops || not (length symbols == hops + 1)
    then inl invalid_opportunity
    else elim (lookup (first_symbol symbols) cfg.tokens) [
      | none ↦ inl asset_not_configured
      | some asset ↦
          if not (text_eq (last_symbol symbols) (first_symbol symbols))
          then inl does_not_return
          else elim (build_steps parser cfg 0 symbols opp.hops) [
            | inl e ↦ inl e
            | inr steps ↦ elim (latest_timestamp timestamp) [
              | none ↦ inl no_timestamp
              | some block ↦ inr (record {
                asset = parser.hex_to_address asset.address;
                amount = some opp.amount_in;
                steps = steps;
                deadline = some (pos ((block + cfg.deadline_seconds) % u64));
                min_profit = some cfg.min_profit;
              })
            ]
          ]
    ]
