-- ===== src/Pricing.antt =====
-- go/internal/pricing/pricing.go: the economics of an opportunity in raw base-token units.
mod Laws
mod Tests
use titanarb_engine.Base.{Option, none, some, Bool, ◌&&◌}
use titanarb_engine.Base.Int.{ℤ, pos, negsuc, ◌+ℤ◌, ◌-ℤ◌, ltb_ℤ}

pub record Inputs : Type 0 where
  pub amount_in : Option ℤ
  pub amount_out : Option ℤ
  pub aave_premium : Option ℤ
  pub l2_fee : Option ℤ
  pub l1_data_fee : Option ℤ
  pub min_profit : Option ℤ

pub record Result : Type 0 where
  pub gross_profit : ℤ
  pub expected_profit : ℤ
  pub required_output : ℤ
  pub profitable : Bool

-- A nil number counts as 0.
abbrev pub value : Option ℤ → ℤ
value none = pos 0
value (some v) = v

unfoldable pub evaluate : Inputs → Result
evaluate i =
    let gross = value i.amount_out -ℤ value i.amount_in in
    let net = gross -ℤ value i.aave_premium -ℤ value i.l2_fee -ℤ value i.l1_data_fee in
    let required =
      value i.amount_in
      +ℤ value i.aave_premium
      +ℤ value i.l2_fee
      +ℤ value i.l1_data_fee
      +ℤ value i.min_profit in
    record {
      gross_profit = gross;
      expected_profit = net;
      required_output = required;
      profitable = ltb_ℤ (value i.min_profit) net && ltb_ℤ (pos 0) (value i.amount_out);
    }
