-- ===== src/Pools/Tests.antt =====
-- Log scans over a small range.
use titanarb_engine.Base.{
  In, ◌↔◌, Text, equal_fold, to_lower, lower_byte, trim_space, text_eq, All, ◌⊎◌, inr, ℕ, ◌+◌, ◌-◌,
  ◌≡◌, refl, true, false, Option, none, some, List, [], ◌∷◌, bytes, arith,
}
use titanarb_engine.Pools.Discovery.{
  Discoverer, ◌>>=◌, discover_pair_at, discover_fees, uniswap_pool, camelot_pool, pool_from,
  uniswap_state, camelot_state, core_pool_state, ask_for, ask, word_or_fail, first_word_of,
  is_zero_address, liquid_only, refresh_pool_at, state_call,
}
use titanarb_engine.Pools.Discovery.Pairs.{IsDiscovered, discover_pair_at-IsDiscovered}
use titanarb_engine.Pools.Discovery.Refreshed.{IsRefreshed, refresh_pool_at-IsRefreshed}
use titanarb_engine.Pools.{Pool, uniswap_v3, camelot_v3}
use titanarb_engine.Dex.{
  static_call, address_word, decode_words, word_address, word_uint, fill_bytes, encode_hex, trim_0x,
  decode_hex,
}
use titanarb_engine.Base.Int.{pos}
use titanarb_engine.Pools.Logs.{
  LogEntry, Source, Scan, changed_pools, get_logs_chunk_size, chunk_total, chunk_end, start_block,
  decode_swap_log,
}
use titanarb_engine.Pools.Logs.Reported.{Reported}
use titanarb_engine.Pools.Logs.Tiling.{IsTiling, IsAnswered, changed_pools_tiles}
use titanarb_engine.Pools.Logs.Accounting.{IsAccounted, changed_pools-IsAccounted}

abbrev entry : LogEntry
entry = record {
  address = bytes "0xAB";
  payload = bytes "0x";
  topics = [];
  block_number = bytes "0x7";
}

abbrev answering : Source
answering = record {
  cancels = λ _. false;
  respond = λ a b. some (entry ∷ []);
  decode = decode_swap_log (bytes "0xc4");
}

abbrev failing : Source
failing = record answering { respond = λ a b. none }

answering-IsAnswered : IsAnswered answering
answering-IsAnswered = record { running = λ n. refl; answers = λ a b. (entry ∷ [], refl) }

abbrev ranges : Option Scan → List (ℕ × ℕ)
ranges none = []
ranges (some r) = r.requests

scan_runs :
    ranges (changed_pools answering true 4 (bytes "0xab" ∷ []) 3 12)
    ≡ (3, 6) ∷ (7, 10) ∷ (11, 12) ∷ []
unfolding changed_pools get_logs_chunk_size chunk_end
scan_runs = refl

changed_pools_tiles_example :
    (r : Scan) × (changed_pools answering true 4 (bytes "0xab" ∷ []) 3 12 ≡ some r)
    × (r.failure ≡ none)
    × IsTiling (get_logs_chunk_size 4) (start_block 3 12) 12 r.requests
    × ((key : Text) → In key r.changed ↔ Reported answering r.requests key)
    × (r.stats ≡ record {
      chunks_attempted = chunk_total (get_logs_chunk_size 4) (start_block 3 12) 12;
      chunks_succeeded = chunk_total (get_logs_chunk_size 4) (start_block 3 12) 12;
      chunks_failed = 0;
      blocks_scanned = 12 - start_block 3 12 + 1;
    })
unfolding get_logs_chunk_size
changed_pools_tiles_example =
    changed_pools_tiles answering 4 3 12 (bytes "0xab") [] answering-IsAnswered (omega arith)
      (omega arith)

changed_pools-IsAccounted_example :
    (r : Scan) × (changed_pools failing true 4 (bytes "0xab" ∷ []) 3 12 ≡ some r)
    × IsAccounted failing r
changed_pools-IsAccounted_example =
    changed_pools-IsAccounted failing true 4 (bytes "0xab" ∷ []) 3 12

-- A node that answers every call with the word 7.
abbrev four_zeros : Text → List ℕ
four_zeros _ = 0 ∷ 0 ∷ 0 ∷ 0 ∷ []

abbrev sevens : Text → Text → ℕ → Text ⊎ Text
sevens to payload block =
    inr (bytes "0x0000000000000000000000000000000000000000000000000000000000000007")

abbrev address_seven : Text
address_seven = bytes "0x0000000000000000000000000000000000000007"

abbrev discoverer : Discoverer
discoverer = record {
  uniswap_factory = address_seven;
  camelot_factory = address_seven;
  fees = 500 ∷ [];
}

abbrev seven_pool : Text → ℕ → Pool
seven_pool dex fee = record {
  address = address_seven;
  token0 = address_seven;
  token1 = address_seven;
  dex = dex;
  fee = fee;
  liquidity = some (pos 7);
  sqrt_price_x96 = some (pos 7);
  last_updated_block = 9;
}

discover_runs :
    (discover_pair_at four_zeros sevens discoverer address_seven address_seven 9).0
    ≡ inr (seven_pool uniswap_v3 7 ∷ seven_pool camelot_v3 0 ∷ [])
unfolding discover_pair_at discover_fees uniswap_pool camelot_pool pool_from uniswap_state
    camelot_state core_pool_state ask_for ask ◌>>=◌ word_or_fail first_word_of is_zero_address
    liquid_only static_call address_word decode_hex decode_words word_address word_uint fill_bytes
    encode_hex trim_0x equal_fold to_lower lower_byte trim_space text_eq
discover_runs = refl

discover_pair_at-IsDiscovered_example :
    All
      (IsDiscovered four_zeros sevens discoverer address_seven address_seven 9
        (discover_pair_at four_zeros sevens discoverer address_seven address_seven 9).1)
      (seven_pool uniswap_v3 7 ∷ seven_pool camelot_v3 0 ∷ [])
discover_pair_at-IsDiscovered_example =
    discover_pair_at-IsDiscovered four_zeros sevens discoverer address_seven address_seven 9
      (seven_pool uniswap_v3 7 ∷ seven_pool camelot_v3 0 ∷ []) discover_runs

abbrev stale_pool : Pool
stale_pool = record (seven_pool camelot_v3 0) { last_updated_block = 3; liquidity = none }

refresh_runs : (refresh_pool_at four_zeros sevens stale_pool 9).0 ≡ inr (seven_pool camelot_v3 0)
unfolding refresh_pool_at state_call ask_for ask ◌>>=◌ first_word_of static_call decode_words
    word_uint encode_hex text_eq
refresh_runs = refl

refresh_pool_at-IsRefreshed_example :
    IsRefreshed four_zeros sevens stale_pool 9
      (refresh_pool_at four_zeros sevens stale_pool 9).1
      (seven_pool camelot_v3 0)
refresh_pool_at-IsRefreshed_example =
    refresh_pool_at-IsRefreshed four_zeros sevens stale_pool 9 (seven_pool camelot_v3 0)
      refresh_runs
