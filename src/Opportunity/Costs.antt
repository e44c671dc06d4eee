-- ===== src/Opportunity/Costs.antt =====
-- go/internal/opportunity/engine.go: the fixed cost model, and the one that keeps estimates for a
-- while, for a single caller. The model under the cache is an argument.
pub mod Kept
use titanarb_engine.Base.{
  ℕ, ◌+◌, Bool, Option, none, some, ◌⊎◌, inl, inr, List, ◌++◌, length, Text, bytes, decimal, ltb,
  ◌==◌, if◌then◌else◌,
}
use titanarb_engine.Base.Int.{ℤ}
use titanarb_engine.Base.Dict.{lookup, insert}
use titanarb_engine.Opportunity.{Hop}
use titanarb_engine.Routes.{Route}
use titanarb_engine.Execution.Build.{Token}

-- What a cost model answers: an error, or the L2 and the L1 fee.
abbrev pub CostModel : Type 0
CostModel = Token → Route → List Hop → Text ⊎ (ℤ × ℤ)

-- StaticCostModel
unfoldable pub static_estimate : Option ℤ → Option ℤ → CostModel
static_estimate (some l2) (some l1) asset route hops = inr (l2, l1)
static_estimate _ _ asset route hops = inl (bytes "L2 and L1/data fee estimates are required")

-- cachedCostEntry
pub record CostEntry : Type 0 where
  pub l2 : ℤ
  pub l1 : ℤ
  pub until : ℕ

-- CachedCostModel without its base; a lifetime of 0 stands for every non-positive one.
pub record CostCache : Type 0 where
  pub ttl : ℕ
  pub entries : List (Text × CostEntry)

unfoldable pub cost_key : Token → ℕ → Text
cost_key asset hops =
    asset.address ++ (bytes ":" ++ (decimal asset.decimals ++ (bytes ":" ++ decimal hops)))

-- The section after the call of the base model, which keeps no error.
pub store_cost : Text → ℕ → Text ⊎ (ℤ × ℤ) → CostCache → (Text ⊎ (ℤ × ℤ)) × CostCache
store_cost key later (inl m) c = (inl m, c)
store_cost key later (inr (l2, l1)) c = (
  inr (l2, l1),
  record c { entries = insert key (record { l2 = l2; l1 = l1; until = later + c.ttl }) c.entries },
)

-- Estimate at the time `now`, with the time after the call of the base model.
pub cached_estimate :
    CostModel → ℕ → ℕ → Token → Route → List Hop → CostCache → (Text ⊎ (ℤ × ℤ)) × CostCache
cached_estimate base now later asset route hops c =
    let key = cost_key asset (length hops) in
    let answer = base asset route hops in
    if c.ttl == 0 then (answer, c) else elim (lookup key c.entries) [
      | none ↦ store_cost key later answer c
      | some entry ↦
          if ltb now entry.until
          then (inr (entry.l2, entry.l1), c)
          else store_cost key later answer c
    ]
