-- ===== src/Opportunity/Evaluation/Block.antt =====
-- The block of an opportunity (engine.go, routeSourceBlock).
use titanarb_engine.Base.{
  ℕ, zero, suc, ◌≤◌, ◌<◌, ◌≡◌, refl, sym, ◌∙◌, ◌⊎◌, inl, inr, List, [], ◌∷◌, arith, All, All-map,
  In,
}
use titanarb_engine.Pools.{Pool}
use titanarb_engine.Routes.{Route}
use titanarb_engine.Opportunity.Evaluation.{older_block, source_block_from, route_source_block}

-- A block is unknown, or the other one is known and not above it.
abbrev pub IsSince : ℕ → ℕ → Type 0
IsSince source block = (block ≡ 0) ⊎ ((0 < source) × (source ≤ block))

-- The block is as old as each block that is known.
abbrev Bounds : ℕ → ℕ → Type 0
Bounds source block = 0 < block → (0 < source) × (source ≤ block)

older_block-left : (source block : ℕ) → Bounds (older_block source block) source
unfolding older_block
older_block-left source block h = ground (arith, h)

older_block-right : (source block : ℕ) → Bounds (older_block source block) block
unfolding older_block
older_block-right source block h = ground (arith, h)

older_block_one :
    (source block : ℕ) → (older_block source block ≡ source) ⊎ (older_block source block ≡ block)
unfolding older_block
older_block_one source block = ground arith

Bounds-IsSince : (source block : ℕ) → Bounds source block → IsSince source block
Bounds-IsSince source zero h = inl refl
Bounds-IsSince source (suc n) h = inr (h (omega arith))

Bounds-trans : (a b c : ℕ) → Bounds a b → Bounds b c → Bounds a c
Bounds-trans a b c h k pos = let (p, q) = k pos in let (p', q') = h p in (p', omega arith)

source_block_from-Bounds :
    (source : ℕ) (ps : List Pool) → Bounds (source_block_from source ps) source
unfolding source_block_from
source_block_from-Bounds source [] h = (h, omega arith)
source_block_from-Bounds source (p ∷ ps) h =
    Bounds-trans (source_block_from (older_block source p.last_updated_block) ps)
      (older_block source p.last_updated_block) source
      (source_block_from-Bounds (older_block source p.last_updated_block) ps)
      (older_block-left source p.last_updated_block) h

source_block_from-All :
    (source : ℕ) (ps : List Pool)
    → All (λ p. Bounds (source_block_from source ps) p.last_updated_block) ps
unfolding source_block_from
source_block_from-All source [] = tt
source_block_from-All source (p ∷ ps) = (
  Bounds-trans (source_block_from (older_block source p.last_updated_block) ps)
      (older_block source p.last_updated_block) p.last_updated_block
      (source_block_from-Bounds (older_block source p.last_updated_block) ps)
      (older_block-right source p.last_updated_block),
  source_block_from-All (older_block source p.last_updated_block) ps,
)

source_block_from_one :
    (source : ℕ) (ps : List Pool)
    → (source_block_from source ps ≡ source)
      ⊎ ((p : Pool) × In p ps × (p.last_updated_block ≡ source_block_from source ps))
unfolding source_block_from
source_block_from_one source [] = inl refl
source_block_from_one source (p ∷ ps) =
    elim (source_block_from_one (older_block source p.last_updated_block) ps) [
      | inr (q, i, e) ↦ inr (q, inr i, e)
      | inl e ↦ elim (older_block_one source p.last_updated_block) [
        | inl same ↦ inl (e ∙ same)
        | inr here ↦ inr (p, inl refl, sym (e ∙ here))
      ]
    ]

-- The block of a route is the oldest known block of its pools: it is not above any block that is not
-- 0, it is 0 only if all of them are, and otherwise it is the block of one of the pools.
pub route_source_block-oldest :
    (route : Route)
    → All (λ p. IsSince (route_source_block route) p.last_updated_block) route.hops
      × ((route_source_block route ≡ 0)
          ⊎ ((p : Pool) × In p route.hops × (p.last_updated_block ≡ route_source_block route)))
unfolding route_source_block
route_source_block-oldest route = (
  All-map (λ p h. Bounds-IsSince (source_block_from 0 route.hops) p.last_updated_block h) route.hops
      (source_block_from-All 0 route.hops),
  source_block_from_one 0 route.hops,
)
