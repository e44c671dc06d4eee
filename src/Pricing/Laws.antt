-- ===== src/Pricing/Laws.antt =====
-- How the three numbers of an evaluation belong together (pricing.go).
use titanarb_engine.Base.{◌≡◌, ap, ◌&&◌, arith}
use titanarb_engine.Base.Int.{ℤ, pos, ◌+ℤ◌, ◌-ℤ◌, ltb_ℤ, int_laws, pos_part, neg_part, +ℤ_parts}
use titanarb_engine.Pricing.{Inputs, value, evaluate}

ltb_ℤ-shift : (a b c d : ℤ) → a +ℤ d ≡ b +ℤ c → ltb_ℤ a b ≡ ltb_ℤ c d
ltb_ℤ-shift a b c d e = ground (arith, +ℤ_parts a d, +ℤ_parts b c, ap pos_part e, ap neg_part e)

-- The sums, on plain integers.
module _ (a p l2 l1 m o : ℤ) where
  balance : a +ℤ p +ℤ l2 +ℤ l1 +ℤ m +ℤ (o -ℤ a -ℤ p -ℤ l2 -ℤ l1) ≡ o +ℤ m
  balance = omega int_laws

  costs : o -ℤ a ≡ o -ℤ a -ℤ p -ℤ l2 -ℤ l1 +ℤ (p +ℤ l2 +ℤ l1)
  costs = omega int_laws

  spent : o -ℤ a +ℤ a ≡ o
  spent = omega int_laws

  kept : o -ℤ a -ℤ p -ℤ l2 -ℤ l1 +ℤ (a +ℤ p +ℤ l2 +ℤ l1) ≡ o
  kept = omega int_laws

  regrouped : a +ℤ p +ℤ l2 +ℤ l1 +ℤ m ≡ m +ℤ (l1 +ℤ (l2 +ℤ (p +ℤ a)))
  regrouped = omega int_laws

  balance_swapped : m +ℤ o ≡ o -ℤ a -ℤ p -ℤ l2 -ℤ l1 +ℤ (a +ℤ p +ℤ l2 +ℤ l1 +ℤ m)
  balance_swapped = omega int_laws

-- An opportunity is profitable exactly when a positive output exceeds the required output. This is the
-- loan, its premium, the two gas fees and the minimum profit together. The gross profit with the loan is
-- the output, and so is the expected profit with the loan, its premium and the two fees. The required
-- output with the expected profit is the output with the minimum profit.
pub evaluate_lem :
    (i : Inputs)
    → ((evaluate i).profitable ≡ (
        ltb_ℤ (evaluate i).required_output (value i.amount_out)
        && ltb_ℤ (pos 0) (value i.amount_out)))
      × ((evaluate i).required_output +ℤ (evaluate i).expected_profit
          ≡ value i.amount_out +ℤ value i.min_profit)
      × ((evaluate i).required_output
          ≡ value i.min_profit
            +ℤ (value i.l1_data_fee
                +ℤ (value i.l2_fee +ℤ (value i.aave_premium +ℤ value i.amount_in))))
      × ((evaluate i).gross_profit +ℤ value i.amount_in ≡ value i.amount_out)
      × ((evaluate i).expected_profit
            +ℤ (value i.amount_in +ℤ value i.aave_premium +ℤ value i.l2_fee +ℤ value i.l1_data_fee)
          ≡ value i.amount_out)
      × ((evaluate i).gross_profit
          ≡ (evaluate i).expected_profit
            +ℤ (value i.aave_premium +ℤ value i.l2_fee +ℤ value i.l1_data_fee))
unfolding evaluate
evaluate_lem i =
    let a = value i.amount_in in
    let p = value i.aave_premium in
    let l2 = value i.l2_fee in
    let l1 = value i.l1_data_fee in
    let m = value i.min_profit in
    let o = value i.amount_out in
    (
      ap (λ t. t && ltb_ℤ (pos 0) o) (ltb_ℤ-shift m _ _ o (balance_swapped a p l2 l1 m o)),
      balance a p l2 l1 m o,
      regrouped a p l2 l1 m o,
      spent a p l2 l1 m o,
      kept a p l2 l1 m o,
      costs a p l2 l1 m o,
    )
