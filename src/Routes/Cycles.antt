-- ===== src/Routes/Cycles.antt =====
-- What the enumerated routes are: cycles over distinct assets whose hops trade consecutive symbols.
use titanarb_engine.Base.{
  ℕ, zero, suc, ◌+◌, ◌-◌, ◌≤◌, ◌≡◌, refl, ◌/◌, ◌||◌, inl, inr, not, ◌&&◌, some, List, [], ◌∷◌, ◌++◌,
  Text, arith, length, In, Distinct, All, All-append, All-take, All-map, In-select, Distinct-select,
  text_eq_refl, Bool-cases, Option-cases, ltb, leb, ◌==◌, text_eq, length-append,
}
use titanarb_engine.Pools.{Pool}
use titanarb_engine.Routes.{
  Route, PoolMap, choices_for, append_combinations, each_path, routes_at, build_from_with_share,
  permutations, split_limit, combination_limit, others, share_of, each_start, build_for_starts,
  unique_sorted,
}
use titanarb_engine.Routes.Rounds.{prioritize-All, each_depth-All}
use titanarb_engine.Routes.Symbols.{unique_sorted_lem}
use titanarb_engine.Routes.Paths.{IsChoice, permutations_lem}
use titanarb_engine.Routes.Combinations.{
  Follows, Picked, append_combinations-All, choices_for-Follows,
}

-- A cycle of 2 to 4 hops from `start` through distinct other assets of `assets`.
pub record IsCycle (by_pair : PoolMap) (start : Text) (assets : List Text) (r : Route)
    : Type 0 where
  pub middle : List Text
  pub symbols : r.symbols ≡ start ∷ (middle ++ start ∷ [])
  pub hop_count : length r.hops ≡ length middle + 1
  pub hop_bounds : (2 ≤ length r.hops) × (length r.hops ≤ 4)
  pub distinct : Distinct (start ∷ middle)
  pub known : (x : Text) → In x middle → In x assets
  pub follows : Follows by_pair r.symbols r.hops

module _ (by_pair : PoolMap) (start : Text) (assets : List Text) (fresh : Distinct assets)
    (other : In start assets → ⊥) where
  -- The routes that one path gives.
  path-IsCycle :
      (n : ℕ) (path : List Text) (choices : List (List Pool)) (hs : List Pool)
      → 1 ≤ n
      → n ≤ 3
      → IsChoice n assets path
      → choices_for by_pair (start ∷ (path ++ start ∷ [])) ≡ some choices
      → Picked choices hs
      → IsCycle by_pair start assets (record { symbols = start ∷ (path ++ start ∷ []); hops = hs })
  path-IsCycle n path choices hs low high (len, dist, sub) e p =
      let (f, size) = choices_for-Follows by_pair start (path ++ start ∷ []) choices hs e p in
      let hops : length hs ≡ length path + 1 =
        omega (arith, size, length-append path (start ∷ [])) in
      record {
        middle = path;
        symbols = refl;
        hop_count = hops;
        hop_bounds = (omega (arith, hops, len), omega (arith, hops, len));
        distinct = ((λ h. other (sub start h)), dist);
        known = sub;
        follows = f;
      }

  each_path-All :
      (n hops hop_limit share : ℕ)
      → 1 ≤ n
      → n ≤ 3
      → (paths : List (List Text)) → ((q : List Text) → In q paths → IsChoice n assets q)
      → (out : List Route) → All (IsCycle by_pair start assets) out
      → All (IsCycle by_pair start assets) (each_path by_pair start hops hop_limit share paths out)
  unfolding each_path
  each_path-All n hops hop_limit share low high [] ok out h = h
  each_path-All n hops hop_limit share low high (path ∷ paths) ok out h =
      let P = IsCycle by_pair start assets in
      let symbols = start ∷ (path ++ start ∷ []) in
      let ok' = λ (q : List Text) (k : In q paths). ok q (inr k) in
      elim (Option-cases (choices_for by_pair symbols)) [
        | inl lost ↦
            rw (lost, each_path) (each_path-All n hops hop_limit share low high paths ok' out h)
        | inr (choices, got) ↦
            let more =
              append_combinations (combination_limit hops hop_limit share) symbols choices [] out in
            let kept =
              append_combinations-All P (combination_limit hops hop_limit share) symbols choices []
                (λ hs p. path-IsCycle n path choices hs low high (ok path (inl refl)) got p) out
                h in
            elim (Bool-cases (leb hop_limit (length more))) [
              | inl full ↦ rw (got, full, each_path) kept
              | inr room ↦
                  rw (got, room, each_path)
                    (each_path-All n hops hop_limit share low high paths ok' more kept)
            ]
      ]

  routes_at-All :
      (n limit share : ℕ)
      → 1 ≤ n
      → n ≤ 3
      → All (IsCycle by_pair start assets) (routes_at by_pair start assets (suc n) limit share)
  unfolding routes_at
  routes_at-All n limit share low high =
      let P = IsCycle by_pair start assets in
      let found =
        each_path by_pair start (suc n) limit share (permutations assets (suc n - 1)) [] in
      let all : All P found =
        each_path-All n (suc n) limit share low high (permutations assets (suc n - 1))
          (λ q k. paths q k) [] tt in
      elim (Bool-cases (ltb limit 1)) [
        | inl none_left ↦ rw (none_left, routes_at) tt
        | inr some_left ↦ elim (Bool-cases (suc n == 2 && ltb 0 share)) [
          | inl two ↦
              rw (some_left, two, routes_at)
                (All-take P limit _ (prioritize-All P found limit share all))
          | inr plain ↦ rw (some_left, plain, routes_at) (All-take P limit found all)
        ]
      ]
    where
      paths : (q : List Text) → In q (permutations assets (suc n - 1)) → IsChoice n assets q
      paths q k =
          let same : suc n - 1 ≡ n = omega arith in
          rw same at ((permutations_lem assets (suc n - 1) q fresh).0 k)

  build_from_with_share-All :
      (maximum share : ℕ)
      → All
          (IsCycle by_pair start assets)
          (build_from_with_share by_pair start assets maximum share)
  unfolding build_from_with_share split_limit
  build_from_with_share-All maximum share =
      let P = IsCycle by_pair start assets in
      elim (Bool-cases (ltb maximum 1)) [
        | inl nothing ↦ rw (nothing, build_from_with_share) tt
        | inr positive ↦
            rw (positive, build_from_with_share)
              (each_depth-All P _ maximum 2 (split_limit maximum 3) 3 (omega arith)
                (λ hops limit low high. depth hops limit low high) [] tt)
      ]
    where
      depth :
          (hops limit : ℕ)
          → 2 ≤ hops
          → hops ≤ 4
          → All (IsCycle by_pair start assets) (routes_at by_pair start assets hops limit share)
      depth zero limit low high = absurd (omega arith)
      depth (suc n) limit low high = routes_at-All n limit share (omega arith) (omega arith)

-- A route of the whole enumeration: a cycle from one of the starts through other assets.
abbrev pub IsEnumerated : PoolMap → List Text → List Text → Route → Type 0
IsEnumerated by_pair starts assets r =
    (start : Text) × In start starts × IsCycle by_pair start assets r

IsCycle-widen :
    (by_pair : PoolMap) (start : Text) (few many : List Text) (r : Route)
    → ((x : Text) → In x few → In x many)
    → IsCycle by_pair start few r
    → IsCycle by_pair start many r
IsCycle-widen by_pair start few many r f c = record {
  middle = c.middle;
  symbols = c.symbols;
  hop_count = c.hop_count;
  hop_bounds = c.hop_bounds;
  distinct = c.distinct;
  known = λ x h. f x (c.known x h);
  follows = c.follows;
}

module _ (by_pair : PoolMap) (assets : List Text) (fresh : Distinct assets) where
  start-All :
      (start : Text) (limit share : ℕ)
      → All
          (IsCycle by_pair start assets)
          (build_from_with_share by_pair start (others start assets) limit share)
  start-All start limit share =
      All-map
        (λ (r : Route).
          IsCycle-widen by_pair start (others start assets) assets r
            (λ x h. (In-select (λ a. not (text_eq a start)) x assets h).0))
        (build_from_with_share by_pair start (others start assets) limit share)
        (build_from_with_share-All by_pair start (others start assets)
          (Distinct-select (λ a. not (text_eq a start)) assets fresh) apart limit share)
    where
      apart : In start (others start assets) → ⊥
      apart h =
          let differs = (In-select (λ a. not (text_eq a start)) start assets h).1 in
          let same = text_eq_refl start in ground (arith, differs, same)

  each_start-All :
      (all : List Text) (max_routes share per_asset : ℕ) (starts : List Text)
      → ((x : Text) → In x starts → In x all)
      → (output : List Route) → All (IsEnumerated by_pair all assets) output
      → All
          (IsEnumerated by_pair all assets)
          (each_start by_pair max_routes share per_asset assets starts output)
  unfolding each_start
  each_start-All all max_routes share per_asset [] sub output h = h
  each_start-All all max_routes share per_asset (start ∷ starts) sub output h =
      let limit = share_of max_routes (length output) per_asset in
      let found = build_from_with_share by_pair start (others start assets) limit share in
      let grown = output ++ found in
      let kept : All (IsEnumerated by_pair all assets) grown =
        All-append (IsEnumerated by_pair all assets) output found h (
          All-map {Q = IsEnumerated by_pair all assets} (λ r c. (start, sub start (inl refl), c))
            found (start-All start limit share)) in
      elim (Bool-cases (leb max_routes (length grown))) [
        | inl full ↦ rw (full, each_start) kept
        | inr room ↦
            rw (room, each_start)
              (each_start-All all max_routes share per_asset starts (λ x k. sub x (inr k)) grown
                kept)
      ]

-- Every enumerated route is a cycle of 2 to 4 hops that starts and ends in one of the starts,
-- visits pairwise different other assets of the market on the way, and trades each pair of
-- consecutive symbols in a pool that is listed for that pair.
pub build_for_starts-IsEnumerated :
    (by_pair : PoolMap) (starts assets : List Text) (max_routes share : ℕ)
    → All
        (IsEnumerated by_pair starts assets)
        (build_for_starts by_pair starts assets max_routes share)
unfolding build_for_starts
build_for_starts-IsEnumerated by_pair starts assets max_routes share =
    let (_, fresh, known) = unique_sorted_lem assets in
    let (_, _, started) = unique_sorted_lem starts in
    let assets' = unique_sorted assets in
    let starts' = unique_sorted starts in
    elim (Bool-cases (ltb max_routes 1 || ltb (length assets') 2 || length starts' == 0)) [
      | inl nothing ↦ rw (nothing, build_for_starts) tt
      | inr some_left ↦
          rw (some_left, build_for_starts)
            (All-map {Q = IsEnumerated by_pair starts assets}
              (λ (r : Route) (start, k, c). (
                start,
                ((started start).0 k).0,
                IsCycle-widen by_pair start assets' assets r (λ x h. ((known x).0 h).0) c,
              ))
              _
              (each_start-All by_pair assets' fresh starts' max_routes share
                ((max_routes + length starts' - 1) / length starts') starts' (λ x h. h) [] tt))
    ]
