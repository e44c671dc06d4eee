-- ===== src/Execution/Pipeline/Conversion.antt =====
-- The conversion of fees (feeToBaseRaw of pipeline.go).
use native.Mathlib.Nat.{mul-div-mul_left}
use titanarb_engine.Base.{ℕ, ◌+◌, ◌*◌, ◌/◌, ◌^◌, ◌<◌, ◌≡◌, ap, some, arith, ◌==◌, false}
use titanarb_engine.Base.Int.{pos, pos-mul}
use titanarb_engine.Fees.{times}
use titanarb_engine.Execution.Pipeline.Pricing.{fee_to_base_raw}

rearrange_top : (c t a p q : ℕ) → c * (t * a) * (p * q) ≡ (t * p) * (c * a * q)
rearrange_top c t a p q = grind arith

rearrange_bottom : (t p d : ℕ) → t * (p * d * p) ≡ (t * p) * (d * p)
rearrange_bottom t p d = grind arith

cancel :
    (c t a p q d : ℕ) → 0 < t * p → c * (t * a) * (p * q) / (t * (p * d * p)) ≡ c * a * q / (d * p)
cancel c t a p q d h =
    rw (rearrange_top c t a p q, rearrange_bottom t p d) (mul-div-mul_left (c * a * q) (d * p) h)

plus_zero : (n : ℕ) → n + 0 ≡ n
plus_zero n = omega arith

-- A positive fee in wei, with the totals of an estimate whose price of an ETH is a / d dollars and whose
-- total is positive, is converted to its value in dollars, scaled by the decimals of the loan asset and
-- rounded down. The safety margin of the total does not enter, and neither does the price of the asset,
-- so this is an amount of the asset only if the asset is worth one dollar.
pub fee_to_base_raw_lem :
    (c t a d decimals : ℕ)
    → 0 < c
    → 0 < t
    → fee_to_base_raw
        (some (pos c))
        (times (record { num = pos t; den = 10 ^ 18 }) (record { num = pos a; den = d }))
        (some (record { num = pos t; den = 10 ^ 18 }))
        decimals
      ≡ pos (c * a * 10 ^ decimals / (d * 10 ^ 18))
unfolding fee_to_base_raw
fee_to_base_raw_lem c t a d decimals h k =
    let some_c : (c + 0 == 0) ≡ false = ground arith in
    let some_t : (t + 0 == 0) ≡ false = ground arith in
    rw
      (
        some_c,
        some_t,
        pos-mul t a,
        pos-mul c (t * a),
        pos-mul (c * (t * a)) (10 ^ 18 * 10 ^ decimals),
        pos-mul t (10 ^ 18 * d * 10 ^ 18),
        fee_to_base_raw,
      )
      (rw
        (
          plus_zero (c * (t * a) * (10 ^ 18 * 10 ^ decimals)),
          plus_zero (t * (10 ^ 18 * d * 10 ^ 18)),
        )
        (ap pos (cancel c t a (10 ^ 18) (10 ^ decimals) d (omega arith))))
