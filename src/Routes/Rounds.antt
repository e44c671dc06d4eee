-- ===== src/Routes/Rounds.antt =====
-- The rounds of the loops that fill a list of routes up to a limit (routes.go).
use titanarb_engine.Base.{
  ℕ, suc, ◌+◌, ◌≤◌, ◌≡◌, inl, inr, true, false, not, ◌&&◌, List, [], ◌∷◌, ◌++◌, arith, length, All,
  All-append, All-take, All-drop, All-select, Bool-cases, ltb, leb, take, drop,
}
use titanarb_engine.Routes.{
  Route, each_depth, prioritize_two_hop_cross_venue, fill, is_cross_pair, cross_routes, same_routes,
  reserve_of,
}

-- The rounds of the loops, by their tests.
module _ (limit : ℕ) (r : Route) (rs out : List Route) where
  pub fill-full : leb limit (length out) ≡ true → fill limit (r ∷ rs) out ≡ out
  fill-full full = rw (full, fill)

  pub fill-room :
      leb limit (length out) ≡ false → fill limit (r ∷ rs) out ≡ fill limit rs (out ++ r ∷ [])
  fill-room room = rw (room, fill)

module _ (at : ℕ → ℕ → List Route) (maximum hops limit : ℕ) (limits : List ℕ)
    (output : List Route) where
  pub each_depth-full :
      (not (ltb limit 1) && leb maximum (length (output ++ at hops limit))) ≡ true
      → each_depth at maximum hops (limit ∷ limits) output ≡ take maximum (output ++ at hops limit)
  each_depth-full full = rw (full, each_depth)

  pub each_depth-room :
      (not (ltb limit 1) && leb maximum (length (output ++ at hops limit))) ≡ false
      → each_depth at maximum hops (limit ∷ limits) output
        ≡ each_depth at maximum (suc hops) limits (output ++ at hops limit)
  each_depth-room room = rw (room, each_depth)

pub fill-All :
    (P : Route → Type 0) (limit : ℕ) (rs out : List Route)
    → All P rs
    → All P out
    → All P (fill limit rs out)
fill-All P limit [] out h k = k
fill-All P limit (r ∷ rs) out h k = elim (Bool-cases (leb limit (length out))) [
  | inl full ↦ rw (fill-full limit r rs out full) k
  | inr room ↦
      rw (fill-room limit r rs out room)
        (fill-All P limit rs (out ++ r ∷ []) h.1 (All-append P out (r ∷ []) k (h.0, tt)))
]

pub prioritize-All :
    (P : Route → Type 0) (rs : List Route) (limit share : ℕ)
    → All P rs
    → All P (prioritize_two_hop_cross_venue rs limit share)
unfolding prioritize_two_hop_cross_venue
prioritize-All P rs limit share h =
    let cross = cross_routes rs in
    let reserve = reserve_of limit share (length cross) in
    let all = All-select P (λ r. is_cross_pair r.hops) rs h in
    fill-All P limit (drop reserve cross ++ same_routes rs) (take reserve cross)
      (All-append P (drop reserve cross) (same_routes rs) (All-drop P reserve cross all)
        (All-select P (λ r. not (is_cross_pair r.hops)) rs h))
      (All-take P reserve cross all)

pub each_depth-All :
    (P : Route → Type 0) (at : ℕ → ℕ → List Route) (maximum hops : ℕ) (limits : List ℕ) (rounds : ℕ)
    → (hops + length limits ≡ 2 + rounds) × (rounds ≤ 3) × (2 ≤ hops)
    → ((h l : ℕ) → 2 ≤ h → h ≤ 4 → All P (at h l))
    → (output : List Route) → All P output
    → All P (each_depth at maximum hops limits output)
each_depth-All P at maximum hops [] rounds b each output h = h
each_depth-All P at maximum hops (limit ∷ limits) rounds b each output h =
    let kept =
      All-append P output (at hops limit) h
        (each hops limit (omega (arith, b)) (omega (arith, b))) in
    elim (Bool-cases (not (ltb limit 1) && leb maximum (length (output ++ at hops limit)))) [
      | inl full ↦
          rw (each_depth-full at maximum hops limit limits output full) (All-take P maximum _ kept)
      | inr room ↦
          rw (each_depth-room at maximum hops limit limits output room)
            (each_depth-All P at maximum (suc hops) limits rounds (omega (arith, b)) each _ kept)
    ]
