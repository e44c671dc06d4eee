-- ===== src/NearMiss/Impact.antt =====
-- The price impact and the gap to profit (nearmiss.go).
use native.Mathlib.Nat.{div-add-mod, mod-lt, div-le_of_le-mul, mul_comm}
use titanarb_engine.Base.{
  ℕ, ◌+◌, ◌-◌, ◌*◌, ◌/◌, ◌≤◌, ◌<◌, ◌≡◌, refl, inl, inr, true, false, Option, some, arith, ltb, ◌==◌,
  u64, Bool-cases, if◌then◌else◌,
}
use titanarb_engine.Base.Int.{ℤ, pos, ◌+ℤ◌, ◌-ℤ◌, ◌≤ℤ◌, ltb_ℤ, int_laws, -ℤ_parts}
use titanarb_engine.NearMiss.{price_impact_bps, gap, or_zero}

quotient-bounds : (n a : ℕ) → 0 < a → ((n / a) * a ≤ n) × (n < (n / a + 1) * a)
quotient-bounds n a h =
    let whole = div-add-mod n a in
    let rest = mod-lt n h in
    let swap = mul_comm (n / a) a in
    (omega (arith, whole, rest, swap), omega (arith, whole, rest, swap))

impact-small : (loss a : ℕ) → 0 < a → loss ≤ a → loss * 10000 / a ≤ 10000
impact-small loss a h k = let swap = mul_comm a 10000 in div-le_of_le-mul a (omega (arith, swap))

price_impact_bps-loss :
    (a o : ℕ) → 0 < a → o < a → price_impact_bps (some (pos a)) (some (pos o)) ≡ (a - o) * 10000 / a
unfolding price_impact_bps
price_impact_bps-loss a o h k =
    let small = impact-small (a - o) a h (omega arith) in
    let loss : a + 0 - o ≡ a - o = omega arith in
    let nonzero : (a == 0) ≡ false = ground arith in
    let below : ltb (o + 0) (a + 0) ≡ true = ground arith in
    let fits : ltb ((a - o) * 10000 / a) u64 ≡ true = ground (arith, small) in
    rw (nonzero, below, loss, fits, price_impact_bps)

price_impact_bps-gain : (a o : ℕ) → a ≤ o → price_impact_bps (some (pos a)) (some (pos o)) ≡ 0
unfolding price_impact_bps
price_impact_bps-gain a o k = ground arith

-- The price impact of a positive input is 0 if the output is at least the input. Otherwise it is the
-- loss in basis points of the input, rounded down, which is at most 10000.
pub price_impact_bps_lem :
    (a o : ℕ)
    → 0 < a
    → (a ≤ o → price_impact_bps (some (pos a)) (some (pos o)) ≡ 0)
      × (o < a
          → (price_impact_bps (some (pos a)) (some (pos o)) ≤ 10000)
            × (price_impact_bps (some (pos a)) (some (pos o)) * a ≤ (a - o) * 10000)
            × ((a - o) * 10000 < (price_impact_bps (some (pos a)) (some (pos o)) + 1) * a))
price_impact_bps_lem a o h = (
  λ k. price_impact_bps-gain a o k,
  λ k.
      let (low, high) = quotient-bounds ((a - o) * 10000) a h in
      rw (price_impact_bps-loss a o h k) (impact-small (a - o) a h (omega arith), low, high),
)

-- The gap is never negative and 0 exactly when the net profit reaches the minimum; otherwise it is
-- what has to be added to reach it. A missing number counts as 0.
pub gap_lem :
    (net min_profit : Option ℤ)
    → (pos 0 ≤ℤ gap net min_profit)
      × (or_zero min_profit ≤ℤ or_zero net → gap net min_profit ≡ pos 0)
      × (or_zero net ≤ℤ or_zero min_profit → or_zero net +ℤ gap net min_profit ≡ or_zero min_profit)
unfolding gap
gap_lem net min_profit = plain (or_zero net) (or_zero min_profit)
  where
    plain :
        (n m : ℤ)
        → (pos 0 ≤ℤ (if ltb_ℤ (m -ℤ n) (pos 0) then pos 0 else m -ℤ n))
          × (m ≤ℤ n → (if ltb_ℤ (m -ℤ n) (pos 0) then pos 0 else m -ℤ n) ≡ pos 0)
          × (n ≤ℤ m → n +ℤ (if ltb_ℤ (m -ℤ n) (pos 0) then pos 0 else m -ℤ n) ≡ m)
    plain n m = elim (Bool-cases (ltb_ℤ (m -ℤ n) (pos 0))) [
      | inl less ↦ rw less (omega arith, λ h. refl, λ h. absurd (ground (arith, -ℤ_parts m n)))
      | inr more ↦
          rw more
            (ground (arith, -ℤ_parts m n), λ h. ground (arith, -ℤ_parts m n), λ h. omega int_laws)
    ]
