-- ===== src/NearMiss/Scores.antt =====
-- The score of a rejected route (nearmiss.go).
use titanarb_engine.Base.{ℕ, ◌+◌, ◌*◌, ◌/◌, ◌≤◌, ◌<◌, ◌≡◌, Bool, true, Option, some, arith}
use titanarb_engine.Base.Int.{ℤ, pos, negsuc, to_int64, wrap_int64_id, ◌+ℤ◌, ◌-ℤ◌, ◌≤ℤ◌, int_laws}
use titanarb_engine.NearMiss.{Record, gap_bonus, half, bonus, score_of}

-- A record that is at least as good as another one in every respect.
pub record IsNoWorse (q r : Record) : Type 0 where
  pub venue : q.cross_venue ≡ true → r.cross_venue ≡ true
  pub quote : q.quote_successful ≡ true → r.quote_successful ≡ true
  pub liquidity : q.sufficient_liquidity ≡ true → r.sufficient_liquidity ≡ true
  pub hops : r.hop_count ≤ q.hop_count
  pub impact : r.price_impact_bps ≤ q.price_impact_bps
  pub failures : r.failure_count ≤ q.failure_count
  pub latency : r.evaluation_latency ≤ q.evaluation_latency
  pub gaps :
      (g : ℕ) × (h : ℕ) × (r.gap_to_profit ≡ some (pos g))
      × (q.gap_to_profit ≡ some (pos h))
      × (g ≤ h)

gap_bonus_mono : (g h : ℕ) → g ≤ h → gap_bonus (some (pos h)) ≤ gap_bonus (some (pos g))
unfolding gap_bonus
gap_bonus_mono g h k = ground arith

bonus_mono :
    (a b : Bool) (gain loss : ℕ) → (a ≡ true → b ≡ true) → bonus a gain loss ≤ℤ bonus b gain loss
unfolding ◌-ℤ◌
bonus_mono a b gain loss h = ground arith

impact_mono : (i j : ℕ) → i ≤ j → j < 9223372036854775808 → half (to_int64 i) ≤ℤ half (to_int64 j)
unfolding ◌-ℤ◌
impact_mono i j h k = ground arith

sub_mono : (a b : ℤ) (m n : ℕ) → a ≤ℤ b → n ≤ m → a -ℤ pos m ≤ℤ b -ℤ pos n
sub_mono a b m n h k = omega int_laws

total_mono :
    (v u l i v' u' l' i' : ℤ) (h f t g h' f' t' g' : ℕ)
    → v ≤ℤ v'
    → u ≤ℤ u'
    → l ≤ℤ l'
    → i' ≤ℤ i
    → h' ≤ h
    → f' ≤ f
    → t' ≤ t
    → g ≤ g'
    → pos 1000 +ℤ v +ℤ u +ℤ l -ℤ pos h -ℤ i -ℤ pos f -ℤ pos t +ℤ pos g
      ≤ℤ pos 1000 +ℤ v' +ℤ u' +ℤ l' -ℤ pos h' -ℤ i' -ℤ pos f' -ℤ pos t' +ℤ pos g'
total_mono v u l i v' u' l' i' h f t g h' f' t' g' p1 p2 p3 p4 p5 p6 p7 p8 = omega int_laws

-- A score before it wraps.
raw_score : Record → ℤ
raw_score r =
    pos 1000
    +ℤ bonus r.cross_venue 2500 600
    +ℤ bonus r.quote_successful 1000 2000
    +ℤ bonus r.sufficient_liquidity 750 1500
    -ℤ pos (r.hop_count * 75)
    -ℤ half (to_int64 r.price_impact_bps)
    -ℤ pos (r.failure_count * 150)
    -ℤ pos (r.evaluation_latency / 25)
    +ℤ pos (gap_bonus r.gap_to_profit)

-- The penalties of a record stay far below 2 ^ 63.
abbrev pub IsModerate : Record → Type 0
IsModerate r =
    r.hop_count * 75 + r.price_impact_bps + r.failure_count * 150 + r.evaluation_latency
    < 2305843009213693952

total_bounds :
    (v u l i : ℤ) (h f t g : ℕ)
    → negsuc 4999 ≤ℤ v
    → v ≤ℤ pos 5000
    → negsuc 4999 ≤ℤ u
    → u ≤ℤ pos 5000
    → negsuc 4999 ≤ℤ l
    → l ≤ℤ pos 5000
    → pos 0 ≤ℤ i
    → i ≤ℤ pos 2305843009213693952
    → h + f + t < 2305843009213693952
    → g ≤ 2500
    → (negsuc 9223372036854775807
        ≤ℤ pos 1000 +ℤ v +ℤ u +ℤ l -ℤ pos h -ℤ i -ℤ pos f -ℤ pos t +ℤ pos g)
      × (pos 1000 +ℤ v +ℤ u +ℤ l -ℤ pos h -ℤ i -ℤ pos f -ℤ pos t +ℤ pos g
          ≤ℤ pos 9223372036854775807)
total_bounds v u l i h f t g a b c d e k p q n m = (omega int_laws, omega int_laws)

bonus_bounds :
    (good : Bool) (gain loss : ℕ)
    → gain ≤ 5000
    → loss ≤ 5000
    → (negsuc 4999 ≤ℤ bonus good gain loss) × (bonus good gain loss ≤ℤ pos 5000)
unfolding ◌-ℤ◌
bonus_bounds good gain loss h k = ground arith

impact_bounds :
    (i : ℕ)
    → i < 2305843009213693952
    → (pos 0 ≤ℤ half (to_int64 i)) × (half (to_int64 i) ≤ℤ pos 2305843009213693952)
unfolding ◌-ℤ◌
impact_bounds i h = ground arith

gap_bonus_bound : (g : Option ℤ) → gap_bonus g ≤ 2500
unfolding gap_bonus
gap_bonus_bound g = ground arith

score_of-raw : (r : Record) → IsModerate r → score_of r ≡ raw_score r
unfolding score_of raw_score
score_of-raw r small =
    let (v, v') = bonus_bounds r.cross_venue 2500 600 (omega arith) (omega arith) in
    let (u, u') = bonus_bounds r.quote_successful 1000 2000 (omega arith) (omega arith) in
    let (l, l') = bonus_bounds r.sufficient_liquidity 750 1500 (omega arith) (omega arith) in
    let (i, i') = impact_bounds r.price_impact_bps (omega (arith, small)) in
    let (low, high) =
      total_bounds (bonus r.cross_venue 2500 600) (bonus r.quote_successful 1000 2000)
        (bonus r.sufficient_liquidity 750 1500) (half (to_int64 r.price_impact_bps))
        (r.hop_count * 75) (r.failure_count * 150) (r.evaluation_latency / 25)
        (gap_bonus r.gap_to_profit) v v' u u' l l' i i' (omega (arith, small))
        (gap_bonus_bound r.gap_to_profit) in
    wrap_int64_id _ low high

raw_score_mono :
    (q r : Record)
    → IsNoWorse q r
    → q.price_impact_bps < 9223372036854775808
    → raw_score q ≤ℤ raw_score r
unfolding raw_score
raw_score_mono q r w small =
    let (g, h, rg, qg, le) = w.gaps in
    total_mono _ _ _ _ _ _ _ _ (q.hop_count * 75) (q.failure_count * 150)
      (q.evaluation_latency / 25) (gap_bonus q.gap_to_profit) (r.hop_count * 75)
      (r.failure_count * 150) (r.evaluation_latency / 25) (gap_bonus r.gap_to_profit)
      (bonus_mono q.cross_venue r.cross_venue 2500 600 w.venue)
      (bonus_mono q.quote_successful r.quote_successful 1000 2000 w.quote)
      (bonus_mono q.sufficient_liquidity r.sufficient_liquidity 750 1500 w.liquidity)
      (impact_mono r.price_impact_bps q.price_impact_bps w.impact small) (omega (arith, w.hops))
      (omega (arith, w.failures)) (omega (arith, w.latency))
      (gap_bonuses q.gap_to_profit r.gap_to_profit g h qg rg le)
  where
    gap_bonuses :
        (a b : Option ℤ) (g h : ℕ)
        → a ≡ some (pos h)
        → b ≡ some (pos g)
        → g ≤ h
        → gap_bonus a ≤ gap_bonus b
    gap_bonuses a b g h e f k = rw (e, f) (gap_bonus_mono g h k)

-- A rejected route that is no worse in any respect has no lower score: cross-venue, quoted and liquid
-- routes rank higher, and more hops, impact, failures, latency or a larger gap rank lower. The hops and
-- failures with their weights, the impact and the latency together stay below 2 ^ 61, so that the 64-bit
-- sum does not wrap.
pub score_of_mono : (q r : Record) → IsNoWorse q r → IsModerate q → score_of q ≤ℤ score_of r
score_of_mono q r w small =
    let small' : IsModerate r = omega (arith, w.hops, w.impact, w.failures, w.latency, small) in
    rw (score_of-raw q small, score_of-raw r small') (raw_score_mono q r w (omega (arith, small)))
