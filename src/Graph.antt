-- ===== src/Graph.antt =====
-- go/internal/graph/graph.go: the liquidity graph and its simple cycles. A float64 is a parameter with
-- its order. A method under the lock is one step.
pub mod Cycles
mod Tests
use titanarb_engine.Base.{
  ℕ, zero, suc, ◌+◌, ◌≡◌, Bool, true, false, not, ◌&&◌, ◌||◌, Option, none, some, List, [], ◌∷◌,
  ◌++◌, Text, ltb, leb, if◌then◌else◌, length, text_eq, text_lt, text_mem, to_lower, equal_fold,
  select,
}
use titanarb_engine.Base.Dict.{lookup, insert}
use titanarb_engine.Pools.{Pool, is_positive}
use titanarb_engine.Routes.{sort_texts}

pub record Floats (F : Type 0) : Type 0 where
  pub nought : F
  pub one : F
  pub lt : F → F → Bool

pub record Edge (F : Type 0) : Type 0 where
  pub from : Text
  pub to : Text
  pub pool : Pool
  pub reliability : F

pub record GraphRoute : Type 0 where
  pub assets : List Text
  pub hops : List Pool

pub record Graph (F : Type 0) : Type 0 where
  pub by_address : List (Text × Text)
  pub edges : List (Text × List (Edge F))

-- New: the names of the tokens with their addresses.
pub new_graph : {F : Type 0} → List (Text × Text) → Graph F → Graph F
new_graph [] g = g
new_graph ((name, address) ∷ tokens) g = new_graph tokens (record {
  by_address = insert (to_lower address) name g.by_address;
  edges = insert name [] g.edges;
})

abbrev or_empty : {F : Type 0} → Option (List (Edge F)) → List (Edge F)
or_empty none = []
or_empty (some es) = es

abbrev pub edges_of : {F : Type 0} → Text → List (Text × List (Edge F)) → List (Edge F)
edges_of asset edges = or_empty (lookup asset edges)

pub clamp : {F : Type 0} → Floats F → F → F
clamp f v = if f.lt v f.nought then f.nought else if f.lt f.one v then f.one else v

-- removePoolLocked
pub remove_pool : {F : Type 0} → Text → List (Text × List (Edge F)) → List (Text × List (Edge F))
unfolding select
remove_pool address [] = []
remove_pool address ((asset, es) ∷ edges) =
    (asset, select (λ e. not (equal_fold e.pool.address address)) es) ∷ remove_pool address edges

-- sortLocked
pub edge_lt : {F : Type 0} → Edge F → Edge F → Bool
edge_lt a b =
    if text_eq a.to b.to
    then text_lt (to_lower a.pool.address) (to_lower b.pool.address)
    else text_lt a.to b.to

pub insert_edge : {F : Type 0} → Edge F → List (Edge F) → List (Edge F)
insert_edge e [] = e ∷ []
insert_edge e (x ∷ xs) = let rest = insert_edge e xs in if edge_lt e x then e ∷ x ∷ xs else x ∷ rest

pub sort_edges : {F : Type 0} → List (Edge F) → List (Edge F)
unfolding insert_edge
sort_edges [] = []
sort_edges (e ∷ es) = insert_edge e (sort_edges es)

abbrev add_edge : {F : Type 0} → Edge F → List (Text × List (Edge F)) → List (Text × List (Edge F))
add_edge e edges = insert e.from (sort_edges (edges_of e.from edges ++ e ∷ [])) edges

-- UpsertPool, between two different known assets.
pub connect : {F : Type 0} → Floats F → Pool → F → Text → Text → Graph F → Graph F
unfolding remove_pool sort_edges
connect {F = F} f p reliability a b g =
    let cleared = remove_pool (to_lower p.address) g.edges in
    let there : Edge F = record { from = a; to = b; pool = p; reliability = clamp f reliability } in
    let back : Edge F = record { from = b; to = a; pool = p; reliability = clamp f reliability } in
    record g { edges = add_edge back (add_edge there cleared) }

pub upsert_pool : {F : Type 0} → Floats F → Pool → F → Graph F → Bool × Graph F
unfolding connect
upsert_pool f p reliability g =
    if not (is_positive p.liquidity)
    then (false, g)
    else elim (lookup (to_lower p.token0) g.by_address) [
      | none ↦ (false, g)
      | some a ↦ elim (lookup (to_lower p.token1) g.by_address) [
        | none ↦ (false, g)
        | some b ↦ if text_eq a b then (false, g) else (true, connect f p reliability a b g)
      ]
    ]

-- The path that a walk has gone, with the sets of what it has visited.
pub record Trail : Type 0 where
  pub assets : List Text
  pub hops : List Pool
  pub visited_assets : List Text
  pub visited_pools : List Text

abbrev pub each_edge :
    {F : Type 0}
    → (Edge F → List GraphRoute → List GraphRoute)
    → List (Edge F)
    → List GraphRoute
    → List GraphRoute
each_edge f [] result = result
each_edge f (e ∷ es) result = each_edge f es (f e result)

-- The trail with one more edge.
abbrev pub extend : {F : Type 0} → Trail → Edge F → Trail
extend t e = record {
  assets = t.assets ++ e.to ∷ [];
  hops = t.hops ++ e.pool ∷ [];
  visited_assets = e.to ∷ t.visited_assets;
  visited_pools = to_lower e.pool.address ∷ t.visited_pools;
}

-- What one edge adds to the result; `deeper` is the recursive walk.
abbrev pub visit :
    {F : Type 0}
    → (Text → Trail → List GraphRoute → List GraphRoute)
    → Text
    → Trail
    → Edge F
    → List GraphRoute
    → List GraphRoute
visit deeper asset t e result = elim (text_mem (to_lower e.pool.address) t.visited_pools) [
  | true ↦ result
  | false ↦ elim (text_eq e.to asset) [
    | true ↦
        if leb 2 (length t.hops + 1)
        then result ++ record { assets = t.assets ++ asset ∷ []; hops = t.hops ++ e.pool ∷ [] } ∷ []
        else result
    | false ↦ elim (text_mem e.to t.visited_assets) [
      | true ↦ result
      | false ↦ deeper e.to (extend t e) result
    ]
  ]
]

-- `walk`; the first argument is the number of hops that are left.
pub walk_graph :
    {F : Type 0}
    → List (Text × List (Edge F))
    → Text
    → ℕ
    → ℕ
    → Text
    → Trail
    → List GraphRoute
    → List GraphRoute
walk_graph edges asset limit zero current t result = result
walk_graph edges asset limit (suc left) current t result =
    let deeper = walk_graph edges asset limit left in
    elim (leb limit (length result)) [
      | true ↦ result
      | false ↦ each_edge (visit deeper asset t) (edges_of current edges) result
    ]

abbrev pub first_trail : Text → Trail
first_trail asset = record {
  assets = asset ∷ [];
  hops = [];
  visited_assets = asset ∷ [];
  visited_pools = [];
}

pub cycles_from : {F : Type 0} → Graph F → Text → ℕ → ℕ → List GraphRoute
unfolding walk_graph
cycles_from g asset max_hops limit =
    if ltb max_hops 2 || ltb limit 1 then [] else elim (lookup asset g.edges) [
      | none ↦ []
      | some _ ↦ walk_graph g.edges asset limit max_hops asset (first_trail asset) []
    ]

abbrev asset_names : {F : Type 0} → List (Text × List (Edge F)) → List Text
asset_names [] = []
asset_names ((asset, es) ∷ edges) = asset ∷ asset_names edges

pub each_asset : {F : Type 0} → Graph F → ℕ → ℕ → List Text → List GraphRoute
unfolding cycles_from
each_asset g max_hops limit [] = []
each_asset g max_hops limit (a ∷ assets) =
    cycles_from g a max_hops limit ++ each_asset g max_hops limit assets

-- Cycles
unfoldable pub cycles : {F : Type 0} → Graph F → ℕ → ℕ → List GraphRoute
unfolding each_asset
cycles g max_hops limit = each_asset g max_hops limit (sort_texts (asset_names g.edges))
