-- ===== src/Graph/Tests.antt =====
-- A triangle with one pool for each side.
use titanarb_engine.Base.{
  ◌≡◌, refl, Bool, true, false, none, some, List, [], ◌∷◌, Text, bytes, All, length, map, text_eq,
  text_lt, text_mem, to_lower, equal_fold, if◌then◌else◌,
}
use titanarb_engine.Base.Int.{pos}
use titanarb_engine.Base.Dict.{lookup, insert}
use titanarb_engine.Pools.{Pool, uniswap_v3}
use titanarb_engine.Graph.{
  Floats, Edge, Graph, GraphRoute, new_graph, upsert_pool, cycles_from, edge_lt, clamp,
}
use titanarb_engine.Graph.Cycles.{IsSimpleCycle, cycles_from-IsSimpleCycle}

abbrev whole : Floats Bool
whole = record { nought = false; one = true; lt = λ a b. if a then false else b }

abbrev pool_between : Text → Text → Text → Pool
pool_between address a b = record {
  address = address;
  token0 = a;
  token1 = b;
  dex = uniswap_v3;
  fee = 500;
  liquidity = some (pos 1);
  sqrt_price_x96 = none;
  last_updated_block = 1;
}

abbrev edge_to : Text → Text → Pool → Edge Bool
edge_to a b p = record { from = a; to = b; pool = p; reliability = true }

abbrev ab : Pool
ab = pool_between (bytes "p1") (bytes "0xa") (bytes "0xb")

abbrev bc : Pool
bc = pool_between (bytes "p2") (bytes "0xb") (bytes "0xc")

abbrev ca : Pool
ca = pool_between (bytes "p3") (bytes "0xc") (bytes "0xa")

abbrev triangle : Graph Bool
triangle = record {
  by_address = (bytes "0xa", bytes "A") ∷ (bytes "0xb", bytes "B") ∷ (bytes "0xc", bytes "C") ∷ [];
  edges =
      (bytes "A", edge_to (bytes "A") (bytes "B") ab ∷ edge_to (bytes "A") (bytes "C") ca ∷ [])
      ∷ (bytes "B", edge_to (bytes "B") (bytes "A") ab ∷ edge_to (bytes "B") (bytes "C") bc ∷ [])
      ∷ (bytes "C", edge_to (bytes "C") (bytes "A") ca ∷ edge_to (bytes "C") (bytes "B") bc ∷ [])
      ∷ [];
}

abbrev empty_graph : Graph Bool
empty_graph = record { by_address = []; edges = [] }

abbrev names : List (Text × Text)
names = (bytes "A", bytes "0xa") ∷ (bytes "B", bytes "0xb") ∷ (bytes "C", bytes "0xc") ∷ []

triangle_built :
    (upsert_pool whole ca true
      (upsert_pool whole bc true (upsert_pool whole ab true (new_graph names empty_graph)).1).1)
    ≡ (true, triangle)
unfolding upsert_pool new_graph lookup insert text_eq text_lt to_lower equal_fold edge_lt clamp
triangle_built = refl

triangle_cycles :
    map (λ (r : GraphRoute). length r.hops) (cycles_from triangle (bytes "A") 3 10) ≡ 3 ∷ 3 ∷ []
unfolding cycles_from lookup text_eq text_mem to_lower
triangle_cycles = refl

-- Two assets with three pools: two cycles for a limit of 1.
abbrev double : Graph Bool
double = record {
  by_address = [];
  edges =
      (bytes "A", edge_to (bytes "A") (bytes "B") ab ∷ [])
      ∷ (bytes "B", edge_to (bytes "B") (bytes "A") bc ∷ edge_to (bytes "B") (bytes "A") ca ∷ [])
      ∷ [];
}

limit_exceeded : length (cycles_from double (bytes "A") 2 1) ≡ 2
unfolding cycles_from lookup text_eq text_mem to_lower
limit_exceeded = refl

cycles_from-IsSimpleCycle_example :
    All (IsSimpleCycle triangle.edges (bytes "A") 3) (cycles_from triangle (bytes "A") 3 10)
cycles_from-IsSimpleCycle_example = cycles_from-IsSimpleCycle triangle (bytes "A") 3 10
