-- ===== src/Fees/Totals.antt =====
-- The totals of a fee estimate (arbitrum.go).
use titanarb_engine.Base.{
  ℕ, ◌+◌, ◌*◌, ◌/◌, ◌≤◌, ◌<◌, ◌≡◌, refl, inl, inr, some, arith, Option-cases, some-inj, subst,
}
use titanarb_engine.Base.Int.{pos}
use titanarb_engine.Fees.{
  FeeEstimate, FeeResponses, Rat, prices_of, l1_of, response_words, eth_usd, fee_from, estimate_fee,
}

-- The parts of an estimate add up.
abbrev pub AddsUp : ℕ → FeeEstimate → Type 0
AddsUp safety_bps f =
    (l2 : ℕ) × (l1 : ℕ) × (margin : ℕ) × (f.l2_cost ≡ some (pos l2))
    × (f.l1_cost ≡ some (pos l1))
    × (f.safety_margin_wei ≡ pos margin)
    × (f.total_wei ≡ pos (l2 + l1 + margin))
    × (margin * 10000 ≤ (l2 + l1) * safety_bps)
    × ((l2 + l1) * safety_bps < (margin + 1) * 10000)

fee_from-AddsUp :
    (now safety_bps gas_limit per_tx per_gas l1 : ℕ) (price : Rat)
    → AddsUp safety_bps (fee_from now safety_bps gas_limit per_tx per_gas l1 price)
unfolding fee_from
fee_from-AddsUp now safety_bps gas_limit per_tx per_gas l1 price =
    let l2 = per_tx + gas_limit * per_gas in
    (l2, l1, (l2 + l1) * safety_bps / 10000, refl, refl, refl, refl, omega arith, omega arith)

-- In every estimate the total is the sum of the two costs and the margin, which is the configured
-- number of basis points of the costs, rounded down.
pub estimate_fee-AddsUp :
    (now safety_bps gas_limit : ℕ) (r : FeeResponses) (f : FeeEstimate)
    → estimate_fee now safety_bps gas_limit r ≡ some f
    → AddsUp safety_bps f
unfolding estimate_fee
estimate_fee-AddsUp now safety_bps gas_limit r f e =
    elim (Option-cases (prices_of (response_words r.prices))) [
      | inl lost ↦ let e' = rw (lost, estimate_fee) at e in absurd (ground arith)
      | inr ((per_tx, per_gas), p) ↦ elim (Option-cases (l1_of (response_words r.node))) [
        | inl lost ↦ let e' = rw (p, lost, estimate_fee) at e in absurd (ground arith)
        | inr (l1, n) ↦ elim (Option-cases (eth_usd r.decimals r.round)) [
          | inl lost ↦ let e' = rw (p, n, lost, estimate_fee) at e in absurd (ground arith)
          | inr (price, u) ↦
              let e' = rw (p, n, u, estimate_fee) at e in
              subst (AddsUp safety_bps) (some-inj e')
                (fee_from-AddsUp now safety_bps gas_limit per_tx per_gas l1 price)
        ]
      ]
    ]
