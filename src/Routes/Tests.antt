-- ===== src/Routes/Tests.antt =====
-- A market of three assets with two pools for each pair.
use titanarb_engine.Base.{
  ◌≤◌, ◌≡◌, refl, none, List, [], ◌∷◌, ◌++◌, Text, bytes, arith, length, take, Distinct, All,
  text_eq, text_mem, text_lt, if◌then◌else◌, map,
}
use titanarb_engine.Pools.{Pool, uniswap_v3, camelot_v3}
use titanarb_engine.Routes.{
  Route, PoolMap, unique_sorted, permutations, cross_routes, same_routes,
  prioritize_two_hop_cross_venue, build_for_starts,
}
use titanarb_engine.Routes.Limits.{build_for_starts-length, prioritize_lem}
use titanarb_engine.Routes.Cycles.{IsEnumerated, build_for_starts-IsEnumerated}

abbrev pool_at : Text → Text → Text → Pool
pool_at a b dex = record {
  address = a ++ b;
  token0 = a;
  token1 = b;
  dex = dex;
  fee = 500;
  liquidity = none;
  sqrt_price_x96 = none;
  last_updated_block = 1;
}

abbrev market : PoolMap
market a b = if text_eq a b then [] else pool_at a b uniswap_v3 ∷ pool_at a b camelot_v3 ∷ []

abbrev abc : List Text
abc = bytes "C" ∷ bytes "A" ∷ bytes "" ∷ bytes "B" ∷ bytes "A" ∷ []

abbrev same_venue : Route
same_venue = record {
  symbols = bytes "A" ∷ bytes "B" ∷ bytes "A" ∷ [];
  hops =
      pool_at (bytes "A") (bytes "B") uniswap_v3 ∷ pool_at (bytes "B") (bytes "A") uniswap_v3 ∷ [];
}

abbrev cross_venue : Route
cross_venue = record {
  symbols = bytes "A" ∷ bytes "B" ∷ bytes "A" ∷ [];
  hops =
      pool_at (bytes "A") (bytes "B") uniswap_v3 ∷ pool_at (bytes "B") (bytes "A") camelot_v3 ∷ [];
}

unique_sorted_runs : unique_sorted abc ≡ bytes "A" ∷ bytes "B" ∷ bytes "C" ∷ []
unfolding unique_sorted text_mem text_eq text_lt
unique_sorted_runs = refl

permutations_run :
    permutations (bytes "B" ∷ bytes "A" ∷ []) 2
    ≡ (bytes "A" ∷ bytes "B" ∷ []) ∷ (bytes "B" ∷ bytes "A" ∷ []) ∷ []
unfolding permutations text_lt
permutations_run = refl

-- 4 routes for each depth but the last one, of 4 hops, for which three assets are too few.
build_runs :
    map (λ (r : Route). length r.hops) (build_for_starts market (bytes "A" ∷ []) abc 12 0)
    ≡ 2 ∷ 2 ∷ 2 ∷ 2 ∷ 3 ∷ 3 ∷ 3 ∷ 3 ∷ []
unfolding build_for_starts text_mem text_eq text_lt
build_runs = refl

ab-Distinct : Distinct (bytes "A" ∷ bytes "B" ∷ [])
ab-Distinct = (λ h. ground arith, ground arith)

build_for_starts-length_example : length (build_for_starts market (bytes "A" ∷ []) abc 12 5000) ≤ 12
build_for_starts-length_example = build_for_starts-length market (bytes "A" ∷ []) abc 12 5000

prioritize_lem_example :
    prioritize_two_hop_cross_venue (same_venue ∷ cross_venue ∷ []) 2 5000
    ≡ take 2 (
        cross_routes (same_venue ∷ cross_venue ∷ []) ++ same_routes (same_venue ∷ cross_venue ∷ []))
prioritize_lem_example = prioritize_lem (same_venue ∷ cross_venue ∷ []) 2 5000 (omega arith)

build_for_starts-IsEnumerated_example :
    All
      (IsEnumerated market (bytes "A" ∷ []) abc)
      (build_for_starts market (bytes "A" ∷ []) abc 12 5000)
build_for_starts-IsEnumerated_example =
    build_for_starts-IsEnumerated market (bytes "A" ∷ []) abc 12 5000
