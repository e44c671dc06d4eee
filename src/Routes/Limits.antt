-- ===== src/Routes/Limits.antt =====
-- The bounds on the number of routes (routes.go).
use native.Mathlib.Nat.{div-add-mod, mod-lt, mul-le-mul_left}
use mathlib.Core.List.{append_assoc, append-nil}
use titanarb_engine.Base.{
  ℕ, zero, suc, ◌+◌, ◌-◌, ◌*◌, ◌/◌, ◌%◌, ◌≤◌, ◌<◌, ◌≡◌, refl, sym, ap, ◌∙◌, inl, inr, not, ◌&&◌,
  ◌||◌, List, [], ◌∷◌, ◌++◌, Text, arith, length, length-append, length-take, All, Bool-cases, ltb,
  leb, ◌==◌, min, take, drop,
}
use titanarb_engine.Routes.{
  Route, PoolMap, split_limit, split_from, each_depth, build_from_with_share, routes_at, fill,
  cross_routes, same_routes, reserve_of, prioritize_two_hop_cross_venue, each_start,
  build_for_starts, others, share_of, unique_sorted,
}
use titanarb_engine.Routes.Rounds.{fill-full, fill-room, each_depth-full, each_depth-room}

abbrev pub sum : List ℕ → ℕ
sum [] = 0
sum (x ∷ xs) = x + sum xs

sum-split_from :
    (n i base r : ℕ) → sum (split_from n i base r) ≡ n * base + (min r (i + n) - min r i)
sum-split_from zero i base r = omega arith
sum-split_from (suc n) i base r = elim (Bool-cases (ltb i r)) [
  | inl more ↦ ground (arith, sum-split_from n (suc i) base r)
  | inr less ↦ ground (arith, sum-split_from n (suc i) base r)
]

length-split_from : (n i base r : ℕ) → length (split_from n i base r) ≡ n
length-split_from zero i base r = refl
length-split_from (suc n) i base r = omega (arith, length-split_from n (suc i) base r)

split_from-All : (n i base r : ℕ) → All (λ l. (base ≤ l) × (l ≤ base + 1)) (split_from n i base r)
split_from-All zero i base r = tt
split_from-All (suc n) i base r = (ground arith, split_from-All n (suc i) base r)

-- A budget is split into as many parts as there are buckets; the parts sum to the whole budget and
-- are equal up to one.
pub split_limit_lem :
    (total buckets : ℕ)
    → 0 < buckets
    → (length (split_limit total buckets) ≡ buckets)
      × (sum (split_limit total buckets) ≡ total)
      × All (λ l. (total / buckets ≤ l) × (l ≤ total / buckets + 1)) (split_limit total buckets)
unfolding split_limit
split_limit_lem total buckets h = (
  length-split_from buckets 0 (total / buckets) (total % buckets),
  omega (
    arith,
    sum-split_from buckets 0 (total / buckets) (total % buckets),
    div-add-mod total buckets,
    mod-lt total h,
  ),
  split_from-All buckets 0 (total / buckets) (total % buckets),
)

take-le {ℓ} : {A : Type ℓ} (n : ℕ) (xs : List A) → length (take n xs) ≤ n
take-le n xs = omega (arith, length-take n xs)

routes_at-length :
    (by_pair : PoolMap) (start : Text) (intermediates : List Text) (hops limit share : ℕ)
    → length (routes_at by_pair start intermediates hops limit share) ≤ limit
unfolding routes_at
routes_at-length by_pair start intermediates hops limit share = elim (Bool-cases (ltb limit 1)) [
  | inl nothing ↦ rw (nothing, routes_at) (omega arith)
  | inr some_left ↦ rw (some_left, routes_at) (take-le limit _)
]

each_depth-length :
    (at : ℕ → ℕ → List Route) (maximum hops : ℕ) (limits : List ℕ)
    → ((h l : ℕ) → length (at h l) ≤ l)
    → (output : List Route) → length output ≤ maximum
    → length (each_depth at maximum hops limits output) ≤ maximum
each_depth-length at maximum hops [] bound output h = h
each_depth-length at maximum hops (limit ∷ limits) bound output h =
    elim (Bool-cases (not (ltb limit 1) && leb maximum (length (output ++ at hops limit)))) [
      | inl full ↦ rw (each_depth-full at maximum hops limit limits output full) (take-le maximum _)
      | inr room ↦ rw (each_depth-room at maximum hops limit limits output room) (
          each_depth-length at maximum (suc hops) limits bound (output ++ at hops limit)
            (ground (arith, bound hops limit, length-append output (at hops limit))))
    ]

build_from_with_share-length :
    (by_pair : PoolMap) (start : Text) (intermediates : List Text) (maximum share : ℕ)
    → length (build_from_with_share by_pair start intermediates maximum share) ≤ maximum
unfolding build_from_with_share
build_from_with_share-length by_pair start intermediates maximum share =
    elim (Bool-cases (ltb maximum 1)) [
      | inl nothing ↦ rw (nothing, build_from_with_share) (omega arith)
      | inr positive ↦
          rw (positive, build_from_with_share)
            (each_depth-length
              (λ hops limit. routes_at by_pair start intermediates hops limit share) maximum 2
              (split_limit maximum 3)
              (λ hops limit. routes_at-length by_pair start intermediates hops limit share) []
              (omega arith))
    ]

each_start-length :
    (by_pair : PoolMap) (max_routes share per_asset : ℕ) (assets starts : List Text)
    (output : List Route)
    → length output ≤ max_routes
    → length (each_start by_pair max_routes share per_asset assets starts output) ≤ max_routes
unfolding each_start
each_start-length by_pair max_routes share per_asset assets [] output h = h
each_start-length by_pair max_routes share per_asset assets (start ∷ starts) output h =
    let limit = share_of max_routes (length output) per_asset in
    let found = build_from_with_share by_pair start (others start assets) limit share in
    let size = build_from_with_share-length by_pair start (others start assets) limit share in
    let fits : limit ≤ max_routes - length output = ground arith in
    let kept : length (output ++ found) ≤ max_routes =
      omega (arith, length-append output found, size, fits) in
    elim (Bool-cases (leb max_routes (length (output ++ found)))) [
      | inl full ↦ rw (full, each_start) kept
      | inr room ↦
          rw (room, each_start)
            (each_start-length by_pair max_routes share per_asset assets starts (output ++ found)
              kept)
    ]

-- The enumeration never holds more than `max_routes` routes.
pub build_for_starts-length :
    (by_pair : PoolMap) (starts assets : List Text) (max_routes share : ℕ)
    → length (build_for_starts by_pair starts assets max_routes share) ≤ max_routes
unfolding build_for_starts
build_for_starts-length by_pair starts assets max_routes share =
    let assets' = unique_sorted assets in
    let starts' = unique_sorted starts in
    elim (Bool-cases (ltb max_routes 1 || ltb (length assets') 2 || length starts' == 0)) [
      | inl nothing ↦ rw (nothing, build_for_starts) (omega arith)
      | inr some_left ↦
          rw (some_left, build_for_starts)
            (each_start-length by_pair max_routes share
              ((max_routes + length starts' - 1) / length starts') assets' starts' [] (omega arith))
    ]

take-nil : (n : ℕ) → take {A = Route} n [] ≡ []
take-nil zero = refl
take-nil (suc n) = refl

fill-take :
    (limit : ℕ) (rs out : List Route) → fill limit rs out ≡ out ++ take (limit - length out) rs
fill-take limit [] out = sym (rw (take-nil (limit - length out)) (append-nil out))
fill-take limit (r ∷ rs) out = elim (Bool-cases (leb limit (length out))) [
  | inl full ↦
      let spent : limit - length out ≡ 0 = ground arith in
      rw (fill-full limit r rs out full, spent, append-nil)
  | inr room ↦
      let left : limit - length out ≡ suc (limit - length (out ++ r ∷ [])) =
        ground (arith, length-append out (r ∷ [])) in
      rw (fill-room limit r rs out room, left)
        (fill-take limit rs (out ++ r ∷ [])
          ∙ append_assoc out (r ∷ []) (take (limit - length (out ++ r ∷ [])) rs))
]

take-split {ℓ} :
    {A : Type ℓ} (n limit : ℕ) (xs ys : List A)
    → n ≤ length xs
    → n ≤ limit
    → take n xs ++ take (limit - n) (drop n xs ++ ys) ≡ take limit (xs ++ ys)
take-split zero limit xs ys h k = let same : limit - 0 ≡ limit = omega arith in rw same
take-split (suc n) zero xs ys h k = absurd (omega arith)
take-split (suc n) (suc limit) [] ys h k = absurd (omega arith)
take-split (suc n) (suc limit) (x ∷ xs) ys h k =
    let same : suc limit - suc n ≡ limit - n = omega arith in
    rw same (ap (◌∷◌ x) (take-split n limit xs ys (omega arith) (omega arith)))

reserve_of-le :
    (limit share available : ℕ)
    → share ≤ 10000
    → (reserve_of limit share available ≤ available) × (reserve_of limit share available ≤ limit)
reserve_of-le limit share available h =
    let part : limit * share ≤ limit * 10000 = mul-le-mul_left limit h in ground arith

-- Prioritised two-hop routes: with any share of at most 10000 basis points, the cross-venue routes come
-- first and then the others, each in the order found, cut off at the limit. The share itself makes no
-- difference: the reserved routes are followed by the cross-venue routes that are left.
pub prioritize_lem :
    (rs : List Route) (limit share : ℕ)
    → share ≤ 10000
    → prioritize_two_hop_cross_venue rs limit share ≡ take limit (cross_routes rs ++ same_routes rs)
unfolding prioritize_two_hop_cross_venue
prioritize_lem rs limit share h =
    let cross = cross_routes rs in
    let n = reserve_of limit share (length cross) in
    let (most, cap) = reserve_of-le limit share (length cross) h in
    let size : length (take n cross) ≡ n = omega (arith, length-take n cross, most) in
    fill-take limit (drop n cross ++ same_routes rs) (take n cross)
    ∙ (rw size (take-split n limit cross (same_routes rs) most cap))
