-- ===== src/Routes.antt =====
-- go/internal/routes/routes.go: bounded enumeration of cycles of 2 to 4 hops. Counts and limits are
-- numbers: the source treats a negative one like 0. `by_pair` is the map from ordered pairs to pools.
pub mod Symbols
pub mod Paths
pub mod Combinations
pub mod Limits
pub mod Rounds
pub mod Cycles
mod Tests
use titanarb_engine.Base.{
  ℕ, zero, suc, ◌+◌, ◌-◌, ◌*◌, ◌/◌, ◌%◌, ◌≡◌, Bool, true, false, not, ◌&&◌, ◌||◌, Option, none,
  some, List, [], ◌∷◌, ◌++◌, map, Text, bytes, ltb, leb, ◌==◌, if◌then◌else◌, text_eq, text_lt,
  text_mem, length, take, drop, select,
}
use titanarb_engine.Pools.{Pool}

pub record Route : Type 0 where
  pub symbols : List Text
  pub hops : List Pool

abbrev pub PoolMap : Type 0
PoolMap = Text → Text → List Pool

-- sort.Strings
pub insert_text : Text → List Text → List Text
insert_text x [] = x ∷ []
insert_text x (y ∷ ys) = let rest = insert_text x ys in if text_lt x y then x ∷ y ∷ ys else y ∷ rest

pub sort_texts : List Text → List Text
unfolding insert_text
sort_texts [] = []
sort_texts (x ∷ xs) = insert_text x (sort_texts xs)

-- The keys of `seen`: the values that are not empty, each once.
pub distinct_texts : List Text → List Text
distinct_texts [] = []
distinct_texts (x ∷ xs) =
    let rest = distinct_texts xs in if length x == 0 || text_mem x rest then rest else x ∷ rest

pub unique_sorted : List Text → List Text
unfolding sort_texts distinct_texts
unique_sorted values = sort_texts (distinct_texts values)

-- Each value with the others, in order: the loop of `walk`.
pub picks : List Text → List (Text × List Text)
picks [] = []
picks (x ∷ xs) = (x, xs) ∷ map (λ (y, ys). (y, x ∷ ys)) (picks xs)

abbrev pub each_pick :
    (Text → List Text → List (List Text)) → List (Text × List Text) → List (List Text)
each_pick f [] = []
each_pick f ((v, others) ∷ rest) = f v others ++ each_pick f rest

-- `walk` of `permutations`: the choices of `n` values from `remaining`, each after `path`.
pub walk : ℕ → List Text → List Text → List (List Text)
unfolding picks
walk zero path remaining = path ∷ []
walk (suc n) path remaining =
    each_pick (λ v others. walk n (path ++ v ∷ []) others) (picks remaining)

pub permutations : List Text → ℕ → List (List Text)
unfolding sort_texts walk
permutations values n = walk n [] (sort_texts values)

-- The pools for each consecutive pair of symbols; `none` if a pair has no pool.
pub choices_for : PoolMap → List Text → Option (List (List Pool))
choices_for by_pair [] = some []
choices_for by_pair (a ∷ []) = some []
choices_for by_pair (a ∷ b ∷ s) = elim (by_pair a b) [
  | [] ↦ none
  | p ∷ ps ↦ elim (choices_for by_pair (b ∷ s)) [ none ↦ none | some rest ↦ some ((p ∷ ps) ∷ rest) ]
]

-- The loop of `appendCombinations` over one hop's pools, which stops at `maximum` routes.
abbrev pub each_pool : ℕ → (Pool → List Route → List Route) → List Pool → List Route → List Route
each_pool maximum f [] out = out
each_pool maximum f (p ∷ ps) out =
    let grown = f p out in
    elim (leb maximum (length grown)) [ true ↦ grown | false ↦ each_pool maximum f ps grown ]

pub append_combinations : ℕ → List Text → List (List Pool) → List Pool → List Route → List Route
append_combinations maximum symbols [] current out =
    if leb maximum (length out)
    then out
    else out ++ record { symbols = symbols; hops = current } ∷ []
append_combinations maximum symbols (ps ∷ choices) current out =
    if leb maximum (length out)
    then out
    else each_pool maximum
        (λ p o. append_combinations maximum symbols choices (current ++ p ∷ []) o) ps out

abbrev pub at_least_one : ℕ → ℕ → ℕ
at_least_one i remainder = if ltb i remainder then 1 else 0

abbrev pub split_from : ℕ → ℕ → ℕ → ℕ → List ℕ
split_from zero i base remainder = []
split_from (suc n) i base remainder =
    (base + at_least_one i remainder) ∷ split_from n (suc i) base remainder

-- splitLimit
pub split_limit : ℕ → ℕ → List ℕ
split_limit total buckets = split_from buckets 0 (total / buckets) (total % buckets)

abbrev pub is_cross_pair : List Pool → Bool
is_cross_pair (p ∷ q ∷ []) = not (text_eq p.dex q.dex)
is_cross_pair _ = false

-- for _, r := range remaining { if len(out) >= limit { break }; out = append(out, r) }
abbrev pub fill : ℕ → List Route → List Route → List Route
fill limit [] out = out
fill limit (r ∷ rs) out = elim (leb limit (length out)) [
  | true ↦ out
  | false ↦ fill limit rs (out ++ r ∷ [])
]

abbrev pub cross_routes : List Route → List Route
cross_routes = select (λ r. is_cross_pair r.hops)

abbrev pub same_routes : List Route → List Route
same_routes = select (λ r. not (is_cross_pair r.hops))

abbrev pub reserve_of : ℕ → ℕ → ℕ → ℕ
reserve_of limit share available =
    let wanted = limit * share / 10000 in if ltb available wanted then available else wanted

pub prioritize_two_hop_cross_venue : List Route → ℕ → ℕ → List Route
unfolding select
prioritize_two_hop_cross_venue routes limit share =
    let cross = cross_routes routes in
    let reserve = reserve_of limit share (length cross) in
    fill limit (drop reserve cross ++ same_routes routes) (take reserve cross)

abbrev pub combination_limit : ℕ → ℕ → ℕ → ℕ
combination_limit hops hop_limit share =
    if hops == 2 && ltb 0 share then hop_limit * 16 else hop_limit

-- The loop over the permutations at one hop depth.
pub each_path : PoolMap → Text → ℕ → ℕ → ℕ → List (List Text) → List Route → List Route
unfolding choices_for append_combinations
each_path by_pair start hops hop_limit share [] hop_routes = hop_routes
each_path by_pair start hops hop_limit share (path ∷ paths) hop_routes =
    let symbols = start ∷ (path ++ start ∷ []) in
    elim (choices_for by_pair symbols) [
      | none ↦ each_path by_pair start hops hop_limit share paths hop_routes
      | some choices ↦
          let more =
            append_combinations (combination_limit hops hop_limit share) symbols choices []
              hop_routes in
          elim (leb hop_limit (length more)) [
            | true ↦ more
            | false ↦ each_path by_pair start hops hop_limit share paths more
          ]
    ]

-- One round of the loop over the hop depths: what it appends to `output`.
pub routes_at : PoolMap → Text → List Text → ℕ → ℕ → ℕ → List Route
unfolding permutations each_path prioritize_two_hop_cross_venue
routes_at by_pair start intermediates hops hop_limit share =
    if ltb hop_limit 1
    then []
    else let found =
        each_path by_pair start hops hop_limit share (permutations intermediates (hops - 1)) [] in
      let ordered =
        (if hops == 2 && ltb 0 share
          then prioritize_two_hop_cross_venue found hop_limit share
          else found) in
      take hop_limit ordered

-- The rounds for hops, hops + 1, …, one for each limit, with the early return at `maximum`.
abbrev pub each_depth : (ℕ → ℕ → List Route) → ℕ → ℕ → List ℕ → List Route → List Route
each_depth at maximum hops [] output = output
each_depth at maximum hops (limit ∷ limits) output =
    let grown = output ++ at hops limit in
    elim (not (ltb limit 1) && leb maximum (length grown)) [
      | true ↦ take maximum grown
      | false ↦ each_depth at maximum (suc hops) limits grown
    ]

-- buildFromWithShare; buildFrom is the case of share 0.
pub build_from_with_share : PoolMap → Text → List Text → ℕ → ℕ → List Route
unfolding routes_at split_limit
build_from_with_share by_pair start intermediates maximum share =
    if ltb maximum 1
    then []
    else each_depth (λ hops limit. routes_at by_pair start intermediates hops limit share) maximum 2
        (split_limit maximum 3) []

abbrev pub others : Text → List Text → List Text
others start = select (λ asset. not (text_eq asset start))

abbrev pub share_of : ℕ → ℕ → ℕ → ℕ
share_of max_routes taken per_asset =
    let remaining = max_routes - taken in if ltb remaining per_asset then remaining else per_asset

-- The loop over the start assets.
pub each_start : PoolMap → ℕ → ℕ → ℕ → List Text → List Text → List Route → List Route
unfolding build_from_with_share
each_start by_pair max_routes share per_asset assets [] output = output
each_start by_pair max_routes share per_asset assets (start ∷ starts) output =
    let limit = share_of max_routes (length output) per_asset in
    let grown = output ++ build_from_with_share by_pair start (others start assets) limit share in
    elim (leb max_routes (length grown)) [
      | true ↦ grown
      | false ↦ each_start by_pair max_routes share per_asset assets starts grown
    ]

-- BuildForStartsWithCrossVenueShare
pub build_for_starts : PoolMap → List Text → List Text → ℕ → ℕ → List Route
unfolding unique_sorted each_start
build_for_starts by_pair starts assets max_routes share =
    let assets' = unique_sorted assets in
    let starts' = unique_sorted starts in
    if ltb max_routes 1 || ltb (length assets') 2 || length starts' == 0
    then []
    else each_start by_pair max_routes share ((max_routes + length starts' - 1) / length starts')
        assets' starts' []

unfoldable pub build_all : PoolMap → List Text → ℕ → List Route
unfolding build_for_starts
build_all by_pair assets max_routes = build_for_starts by_pair assets assets max_routes 0

-- Build, the legacy entry.
unfoldable pub build : PoolMap → Text → List Text → ℕ → List Route
unfolding build_from_with_share unique_sorted
build by_pair base intermediates max_routes =
    build_from_with_share by_pair base (unique_sorted intermediates) max_routes 0
