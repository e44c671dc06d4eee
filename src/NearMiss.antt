-- ===== src/NearMiss.antt =====
-- go/internal/nearmiss/nearmiss.go: the economics of rejected routes. A duration is in milliseconds. The
-- route memory, whose averages are floats, is not modelled.
pub mod Impact
pub mod Scores
mod Tests
use titanarb_engine.Base.{
  ℕ, zero, suc, ◌+◌, ◌-◌, ◌*◌, ◌/◌, ◌%◌, ◌≡◌, Bool, true, false, not, ◌&&◌, ◌||◌, Option, none,
  some, List, [], ◌∷◌, ◌++◌, Text, bytes, ltb, leb, ◌==◌, if◌then◌else◌, length, text_eq, text_mem,
  trim_space, u64,
}
use titanarb_engine.Base.Int.{
  ℤ, pos, negsuc, ◌+ℤ◌, ◌-ℤ◌, ltb_ℤ, pos_part, neg_part, wrap_int64, to_int64,
}
use titanarb_engine.Base.Dict.{lookup, insert}
use titanarb_engine.Pools.{Pool, is_positive}
use titanarb_engine.Routes.{Route}
use titanarb_engine.Opportunity.{Hop, Opportunity}

pub record Record : Type 0 where
  pub route : Text
  pub dex_path : Text
  pub hop_count : ℕ
  pub loan_asset : Text
  pub amount_in : Option ℤ
  pub amount_out : Option ℤ
  pub gross_profit : Option ℤ
  pub aave_premium : Option ℤ
  pub l1_fee : Option ℤ
  pub l2_fee : Option ℤ
  pub price_impact_bps : ℕ
  pub net_profit : Option ℤ
  pub min_profit : Option ℤ
  pub gap_to_profit : Option ℤ
  pub rejection_reason : Text
  pub score : ℤ
  pub evaluation_latency : ℕ
  pub quote_successful : Bool
  pub sufficient_liquidity : Bool
  pub cross_venue : Bool
  pub failure_count : ℕ
  pub timestamp : ℕ

-- strings.Join(parts, " -> ")
abbrev join_arrow : List Text → Text
join_arrow [] = []
join_arrow (t ∷ []) = t
join_arrow (t ∷ u ∷ ts) = t ++ bytes " -> " ++ join_arrow (u ∷ ts)

abbrev pub dexes : List Pool → List Text
dexes [] = []
dexes (p ∷ ps) = p.dex ∷ dexes ps

pub dex_path : Route → Text
dex_path r = join_arrow (dexes r.hops)

-- The keys of `seen`, each once.
abbrev pub venues : List Text → List Text
venues [] = []
venues (d ∷ ds) = let rest = venues ds in if text_mem d rest then rest else d ∷ rest

pub cross_venue : Route → Bool
cross_venue r = ltb 1 (length (venues (dexes r.hops)))

-- 10_000 * loss / amount_in, cut off at the largest 64-bit number; a loss is positive.
abbrev pub impact_of : ℕ → ℕ → ℕ
impact_of loss amount_in =
    let scaled = loss * 10000 / amount_in in if ltb scaled u64 then scaled else u64 - 1

pub price_impact_bps : Option ℤ → Option ℤ → ℕ
price_impact_bps (some (pos amount_in)) (some amount_out) =
    if amount_in == 0 || not (ltb_ℤ amount_out (pos amount_in))
    then 0
    else impact_of (amount_in + neg_part amount_out - pos_part amount_out) amount_in
price_impact_bps _ _ = 0

abbrev or_zero : Option ℤ → ℤ
or_zero none = pos 0
or_zero (some v) = v

pub gap : Option ℤ → Option ℤ → ℤ
gap net min_profit =
    let g = or_zero min_profit -ℤ or_zero net in if ltb_ℤ g (pos 0) then pos 0 else g

-- len(gap.String()) of a positive gap by its size.
abbrev pub bonus_by_size : ℕ → ℕ
bonus_by_size n =
    if ltb n 1000
    then 2000
    else if ltb n 100000
    then 1500
    else if ltb n 10000000
    then 1000
    else if ltb n 1000000000
    then 500
    else 0

pub gap_bonus : Option ℤ → ℕ
gap_bonus none = 2500
gap_bonus (some (negsuc n)) = 2500
gap_bonus (some (pos n)) = if n == 0 then 2500 else bonus_by_size n

-- Division of an int64 by 2 rounds towards 0.
abbrev pub half : ℤ → ℤ
half (pos n) = pos (n / 2)
half (negsuc n) = pos 0 -ℤ pos (suc n / 2)

abbrev pub bonus : Bool → ℕ → ℕ → ℤ
bonus good gain loss = if good then pos gain else pos 0 -ℤ pos loss

-- Score. Its sums and products wrap in 64 bits, and the last wrap-around stands for all of them.
pub score_of : Record → ℤ
unfolding gap_bonus
score_of r = wrap_int64 (
    pos 1000
    +ℤ bonus r.cross_venue 2500 600
    +ℤ bonus r.quote_successful 1000 2000
    +ℤ bonus r.sufficient_liquidity 750 1500
    -ℤ pos (r.hop_count * 75)
    -ℤ half (to_int64 r.price_impact_bps)
    -ℤ pos (r.failure_count * 150)
    -ℤ pos (r.evaluation_latency / 25)
    +ℤ pos (gap_bonus r.gap_to_profit))

abbrev all_liquid : List Pool → Bool
all_liquid [] = true
all_liquid (p ∷ ps) = is_positive p.liquidity && all_liquid ps

pub route_has_liquidity : Route → Bool
route_has_liquidity r = not (length r.hops == 0) && all_liquid r.hops

abbrev first_or_empty : List Text → Text
first_or_empty [] = []
first_or_empty (t ∷ ts) = t

-- FromOpportunity, for an opportunity.
unfoldable pub from_opportunity : Opportunity → Text → ℕ → ℕ → Record
unfolding dex_path cross_venue price_impact_bps gap score_of route_has_liquidity
from_opportunity op reason latency failure_count =
    let r : Record = record {
      route = join_arrow op.route.symbols;
      dex_path = dex_path op.route;
      hop_count = length op.route.hops;
      loan_asset = first_or_empty op.route.symbols;
      amount_in = some op.amount_in;
      amount_out = op.amount_out;
      gross_profit = op.gross_profit;
      aave_premium = op.aave_premium;
      l1_fee = op.l1_data_fee;
      l2_fee = op.gas_estimate;
      price_impact_bps = price_impact_bps (some op.amount_in) op.amount_out;
      net_profit = op.expected_profit;
      min_profit = op.min_profit;
      gap_to_profit = some (gap op.expected_profit op.min_profit);
      rejection_reason = trim_space reason;
      score = pos 0;
      evaluation_latency = latency;
      quote_successful = is_positive op.amount_out;
      sufficient_liquidity = route_has_liquidity op.route;
      cross_venue = cross_venue op.route;
      failure_count = failure_count;
      timestamp = op.timestamp;
    } in
    record r { score = score_of r }

pub record Spread : Type 0 where
  pub high : ℕ
  pub medium : ℕ
  pub low : ℕ

unfoldable pub distribution : List Record → Spread
distribution [] = record { high = 0; medium = 0; low = 0 }
distribution (r ∷ rs) =
    let d = distribution rs in
    if not (ltb_ℤ r.score (pos 4000))
    then record d { high = d.high + 1 }
    else if not (ltb_ℤ r.score (pos 2000))
    then record d { medium = d.medium + 1 }
    else record d { low = d.low + 1 }
