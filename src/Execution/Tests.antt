-- ===== src/Execution/Tests.antt =====
-- A candidate of two hops through the pipeline.
use titanarb_engine.Base.{
  ℕ, suc, ◌+◌, ◌*◌, ◌/◌, ◌^◌, ◌<◌, ◌≡◌, ◌⊎◌, ◌↔◌, refl, inr, true, false, none, some, [], ◌∷◌, ◌++◌,
  Text, bytes, arith, length, ltb, u64, replicate, text_eq,
}
use titanarb_engine.Base.Int.{pos, ◌+ℤ◌, ◌-ℤ◌, ◌*ℤ◌}
use titanarb_engine.Base.Dict.{lookup}
use titanarb_engine.Dex.{fill_bytes, word_uint, encode_hex, decode_words, trim_0x, hex_value}
use titanarb_engine.Pools.{Pool, uniswap_v3, camelot_v3}
use titanarb_engine.Pricing.{evaluate}
use titanarb_engine.Wallet.{next_nonce}
use titanarb_engine.Fees.{times}
use titanarb_engine.Opportunity.{Opportunity}
use titanarb_engine.Execution.{
  Request, validate, encode_uniswap_fee, candidate_is_fresh, candidate_block_lag,
}
use titanarb_engine.Execution.Validation.{IsExecutable, validate_iff}
use titanarb_engine.Execution.Build.{
  Config, AddressParser, build_step, build_steps, build_request, latest_timestamp,
}
use titanarb_engine.Execution.Requests.{IsConfigured, AreStepsOf}
use titanarb_engine.Execution.Requests.Whole.{build_request-IsExecutable}
use titanarb_engine.Execution.Pipeline.{Environment, admit, prepare, confirmed}
use titanarb_engine.Execution.Pipeline.Pricing.{simulate, aave_premium, fee_to_base_raw, price}
use titanarb_engine.Execution.Pipeline.Conversion.{fee_to_base_raw_lem}
use titanarb_engine.Execution.Pipeline.Broadcast.{broadcast, transact, finish, process}
use titanarb_engine.Execution.Gates.{sends_of}
use titanarb_engine.Execution.Gates.Cleared.{IsCleared, process-IsCleared}
use titanarb_engine.Execution.Gates.Nonce.{is_sent, process-next_nonce}

abbrev parser : AddressParser
parser = record { is_hex_address = λ t. ltb 0 (length t); hex_to_address = λ t. suc (length t) }

abbrev cfg : Config
cfg = record {
  tokens =
      (bytes "A", record { address = bytes "0xa"; decimals = 6 })
      ∷ (bytes "B", record { address = bytes "0xbb"; decimals = 18 })
      ∷ [];
  uniswap_v3_adapter = bytes "0xu";
  camelot_v3_adapter = bytes "0xcc";
  slippage_bps = 50;
  deadline_seconds = 120;
  gas_limit_multiplier_bps = 12000;
  dry_run = false;
  execution_mode = bytes "live";
  broadcast_enabled = true;
  max_candidate_staleness_blocks = 2;
  min_profit = pos 5;
}

abbrev pool_on : Text → Pool
pool_on dex = record {
  address = bytes "0xp";
  token0 = bytes "0xa";
  token1 = bytes "0xbb";
  dex = dex;
  fee = 500;
  liquidity = none;
  sqrt_price_x96 = none;
  last_updated_block = 7;
}

abbrev candidate : Opportunity
candidate = record {
  route = record { symbols = bytes "A" ∷ bytes "B" ∷ bytes "A" ∷ []; hops = [] };
  amount_in = pos 100000;
  amount_out = none;
  hops =
      record {
        pool = pool_on uniswap_v3;
        amount_in = pos 100000;
        amount_out = pos 90000;
        quote_gas = 1;
        fee = 500;
      }
      ∷ record {
        pool = pool_on camelot_v3;
        amount_in = pos 90000;
        amount_out = pos 101000;
        quote_gas = 1;
        fee = 0;
      }
      ∷ [];
  source_block = 7;
  gross_profit = none;
  aave_premium = none;
  expected_profit = none;
  gas_estimate = none;
  l1_data_fee = none;
  min_profit = none;
  confidence = [];
  timestamp = 0;
}

abbrev env : Environment
env = record {
  parser = parser;
  observed = some 8;
  is_safe = true;
  timestamp = some (bytes "0x64");
  pack = λ r. some (1 ∷ 2 ∷ 3 ∷ 4 ∷ []);
  eth_call = λ d. true;
  estimate_gas = λ d. some 1000;
  estimate_fee = λ g d. some (record {
    l2_cost = some (pos 1000000000);
    l1_cost = none;
    total_wei = pos 1000000000;
    safety_margin_wei = pos 0;
    timestamp = 0;
    total_eth = some (record { num = pos 1; den = 1000 });
    total_usd = record { num = pos 2; den = 1 };
  });
  premium = some (bytes "0x" ++ encode_hex (fill_bytes 32 5));
  pending = some 3;
  gas_price = some (pos 10);
  priority_fee = none;
  send = λ n gas fee tip d. some (bytes "0xhash");
  confirms = λ h. true;
}

abbrev one_step : Request
one_step = record {
  asset = 4;
  amount = some (pos 1);
  steps =
      record {
        adapter = 4;
        token_in = 4;
        token_out = 4;
        amount_out_minimum = some (pos 1);
        payload = [];
      }
      ∷ [];
  deadline = some (pos 220);
  min_profit = some (pos 5);
}

-- The run reserves nonce 3, sends, and is confirmed.
process_runs :
    ((process env cfg (some candidate) none).decision ≡ confirmed (bytes "0xhash"))
    × (sends_of (process env cfg (some candidate) none).events ≡ 3 ∷ [])
unfolding process admit candidate_is_fresh candidate_block_lag prepare build_request build_steps
    build_step lookup text_eq encode_uniswap_fee latest_timestamp trim_0x hex_value validate price
    simulate aave_premium decode_words word_uint encode_hex fill_bytes fee_to_base_raw evaluate ◌+ℤ◌
    ◌-ℤ◌ ◌*ℤ◌ finish next_nonce transact broadcast
process_runs = (refl, refl)

validate_iff_example : (validate one_step ≡ none) ↔ IsExecutable one_step
validate_iff_example = validate_iff one_step

process-IsCleared_example :
    (sends_of (process env cfg (some candidate) none).events ≡ [])
    ⊎ ((n : ℕ) × (sends_of (process env cfg (some candidate) none).events ≡ n ∷ [])
        × IsCleared env cfg (some candidate) none n)
process-IsCleared_example = process-IsCleared env cfg (some candidate) none

-- The same without a gas price.
abbrev priceless : Environment
priceless = record env { gas_price = none }

priceless_rejects : is_sent (process priceless cfg (some candidate) none).decision ≡ false
unfolding process admit candidate_is_fresh candidate_block_lag prepare build_request build_steps
    build_step lookup text_eq encode_uniswap_fee latest_timestamp trim_0x hex_value validate price
    simulate aave_premium decode_words word_uint encode_hex fill_bytes fee_to_base_raw evaluate ◌+ℤ◌
    ◌-ℤ◌ ◌*ℤ◌ finish next_nonce transact broadcast
priceless_rejects = refl

pending-small : (n : ℕ) → (next_nonce (some 3) none).0 ≡ some n → n + 1 < u64
unfolding next_nonce
pending-small n e = ground arith

process-next_nonce_example :
    (next_nonce (some 3) (process priceless cfg (some candidate) none).manager).0
    ≡ (next_nonce (some 3) none).0
process-next_nonce_example =
    process-next_nonce priceless cfg (some candidate) none pending-small priceless_rejects

cfg-IsConfigured : IsConfigured parser cfg
cfg-IsConfigured = record {
  empty = refl;
  uniswap = λ e. ground arith;
  camelot = λ e. ground arith;
  tokens = λ symbol t e z. ground arith;
}

timestamp-small :
    (block : ℕ) → latest_timestamp (some (bytes "0x64")) ≡ some block → block + 120 < u64
unfolding latest_timestamp trim_0x hex_value
timestamp-small block e = ground arith

abbrev built : Request
built = record {
  asset = 4;
  amount = some (pos 100000);
  steps =
      record {
        adapter = 4;
        token_in = 4;
        token_out = 5;
        amount_out_minimum = some (pos 89550);
        payload = replicate 30 0 ++ 1 ∷ 244 ∷ [];
      }
      ∷ record {
        adapter = 5;
        token_in = 5;
        token_out = 4;
        amount_out_minimum = some (pos 100495);
        payload = [];
      }
      ∷ [];
  deadline = some (pos 220);
  min_profit = some (pos 5);
}

candidate-built : build_request parser cfg (some (bytes "0x64")) (some candidate) ≡ inr built
unfolding build_request build_steps build_step lookup text_eq encode_uniswap_fee latest_timestamp
    trim_0x hex_value ◌*ℤ◌
candidate-built = refl

build_request-IsExecutable_example :
    IsExecutable built × AreStepsOf parser cfg candidate.route.symbols candidate.hops built.steps
build_request-IsExecutable_example =
    build_request-IsExecutable parser cfg (some (bytes "0x64")) candidate built cfg-IsConfigured
      (omega arith) refl refl (omega arith) timestamp-small candidate-built

fee_to_base_raw_lem_example :
    fee_to_base_raw
      (some (pos 5))
      (times (record { num = pos 7; den = 10 ^ 18 }) (record { num = pos 2000; den = 1 }))
      (some (record { num = pos 7; den = 10 ^ 18 }))
      6
    ≡ pos (5 * 2000 * 10 ^ 6 / (1 * 10 ^ 18))
fee_to_base_raw_lem_example = fee_to_base_raw_lem 5 7 2000 1 6 (omega arith) (omega arith)
