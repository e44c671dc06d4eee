-- ===== src/Pricing/Tests.antt =====
-- An arbitrage of 1000 units.
use titanarb_engine.Base.{some, none, true, ◌&&◌, ◌≡◌, refl}
use titanarb_engine.Base.Int.{pos, ◌+ℤ◌, ◌-ℤ◌, ltb_ℤ}
use titanarb_engine.Pricing.{Inputs, evaluate}
use titanarb_engine.Pricing.Laws.{evaluate_lem}

abbrev inputs : Inputs
inputs = record {
  amount_in = some (pos 1000);
  amount_out = some (pos 1040);
  aave_premium = some (pos 5);
  l2_fee = some (pos 7);
  l1_data_fee = none;
  min_profit = some (pos 10);
}

evaluate_runs : evaluate inputs ≡ record {
  gross_profit = pos 40;
  expected_profit = pos 28;
  required_output = pos 1022;
  profitable = true;
}
unfolding evaluate ◌+ℤ◌ ◌-ℤ◌
evaluate_runs = refl

evaluate_lem_example :
    ((evaluate inputs).profitable
      ≡ (ltb_ℤ (evaluate inputs).required_output (pos 1040) && ltb_ℤ (pos 0) (pos 1040)))
    × ((evaluate inputs).required_output +ℤ (evaluate inputs).expected_profit ≡ pos 1040 +ℤ pos 10)
    × ((evaluate inputs).required_output ≡ pos 10 +ℤ (pos 0 +ℤ (pos 7 +ℤ (pos 5 +ℤ pos 1000))))
    × ((evaluate inputs).gross_profit +ℤ pos 1000 ≡ pos 1040)
    × ((evaluate inputs).expected_profit +ℤ (pos 1000 +ℤ pos 5 +ℤ pos 7 +ℤ pos 0) ≡ pos 1040)
    × ((evaluate inputs).gross_profit
        ≡ (evaluate inputs).expected_profit +ℤ (pos 5 +ℤ pos 7 +ℤ pos 0))
evaluate_lem_example = evaluate_lem inputs
