-- ===== src/NearMiss/Tests.antt =====
-- Two rejected routes.
use titanarb_engine.Base.{◌≡◌, refl, true, false, none, some, bytes, arith}
use titanarb_engine.Base.Int.{wrap_int64, pos, negsuc, ◌+ℤ◌, ◌-ℤ◌, ◌≤ℤ◌}
use titanarb_engine.NearMiss.{Record, gap_bonus, score_of}
use titanarb_engine.NearMiss.Scores.{IsNoWorse, score_of_mono}

abbrev close : Record
close = record {
  route = bytes "A -> B -> A";
  dex_path = bytes "uniswap_v3 -> camelot_v3";
  hop_count = 2;
  loan_asset = bytes "A";
  amount_in = some (pos 1000);
  amount_out = some (pos 990);
  gross_profit = some (negsuc 9);
  aave_premium = none;
  l1_fee = none;
  l2_fee = none;
  price_impact_bps = 100;
  net_profit = some (negsuc 9);
  min_profit = some (pos 5);
  gap_to_profit = some (pos 15);
  rejection_reason = bytes "unprofitable";
  score = pos 0;
  evaluation_latency = 50;
  quote_successful = true;
  sufficient_liquidity = true;
  cross_venue = true;
  failure_count = 1;
  timestamp = 0;
}

abbrev far : Record
far = record close { cross_venue = false; failure_count = 4; gap_to_profit = some (pos 150000) }

close_scores : score_of close ≡ pos 6898
unfolding score_of wrap_int64 gap_bonus ◌+ℤ◌ ◌-ℤ◌
close_scores = refl

close-IsNoWorse : IsNoWorse far close
close-IsNoWorse = record {
  venue = λ h. refl;
  quote = λ h. refl;
  liquidity = λ h. refl;
  hops = omega arith;
  impact = omega arith;
  failures = omega arith;
  latency = omega arith;
  gaps = (15, 150000, refl, refl, omega arith);
}

score_of_mono_example : score_of far ≤ℤ score_of close
score_of_mono_example = score_of_mono far close close-IsNoWorse (omega arith)
