-- ===== src/Rpc/Provider.antt =====
-- A provider of the client: its settings, its rank, and its state at the start (client.go).
use titanarb_engine.Base.{
  ℕ, Bool, true, false, not, ◌&&◌, List, [], ◌∷◌, Text, bytes, text_eq, ltb, if◌then◌else◌,
  to_lower, trim_space,
}
use titanarb_engine.Rpc.Limiter.{RateLimiter, new_rate_limiter_with_burst}

-- RequestClass
pub data RequestClass : Type 0 where
  standard background hot_path critical : RequestClass

unfoldable pub is_critical : RequestClass → Bool
is_critical standard = false
is_critical background = false
is_critical hot_path = false
is_critical critical = true

unfoldable pub is_hot_path : RequestClass → Bool
is_hot_path standard = false
is_hot_path background = false
is_hot_path hot_path = true
is_hot_path critical = false

-- ProviderConfig
pub record ProviderConfig : Type 0 where
  pub name : Text
  pub url : Text
  pub max_rps : ℕ
  pub target_rps : ℕ
  pub burst : ℕ
  pub max_block_lag : ℕ
  pub tier : Text

-- providerState
pub record Provider : Type 0 where
  pub cfg : ProviderConfig
  pub limiter : RateLimiter
  pub requests : ℕ
  pub rate_limited : ℕ
  pub failures : ℕ
  pub consecutive_failure : ℕ
  pub latency_ema : ℕ
  pub last_successful : ℕ
  pub last_failure : ℕ
  pub cooldown_until : ℕ
  pub latest_block : ℕ
  pub latest_block_at : ℕ
  pub request_times : List ℕ
  pub rate_limit_streak : ℕ
  pub recent_429_until : ℕ
  pub probation_until : ℕ
  pub inflight : ℕ
  pub eth_call_requests : ℕ
  pub quote_requests : ℕ
  pub successes : ℕ
  pub forbidden : ℕ
  pub cooldown_events : ℕ
  pub latency_samples : List ℕ
  pub stage_requests : List (Text × ℕ)

-- effectiveRPS
unfoldable pub effective_rps : ProviderConfig → ℕ
effective_rps cfg = if ltb 0 cfg.target_rps then cfg.target_rps else cfg.max_rps

-- effectiveBurst
unfoldable pub effective_burst : ProviderConfig → ℕ
effective_burst cfg = if ltb cfg.burst 1 then 1 else if ltb 2 cfg.burst then 2 else cfg.burst

-- normalizeTier
pub normalize_tier : Text → Text
normalize_tier text =
    let tier = to_lower (trim_space text) in
    if text_eq tier (bytes "cheap")
    then bytes "secondary"
    else if not (text_eq tier (bytes "premium"))
        && not (text_eq tier (bytes "secondary"))
        && not (text_eq tier (bytes "limited"))
        && not (text_eq tier (bytes "emergency"))
    then bytes "secondary"
    else tier

-- tierRank, whose three cases are the same.
unfoldable pub tier_rank : RequestClass → Text → ℕ
tier_rank class tier =
    if text_eq tier (bytes "premium")
    then 0
    else if text_eq tier (bytes "secondary")
    then 1
    else if text_eq tier (bytes "limited")
    then 2
    else 3

-- The state of a provider that newManaged makes.
unfoldable pub new_provider : ProviderConfig → Provider
unfolding effective_rps effective_burst new_rate_limiter_with_burst
new_provider cfg = record {
  cfg = cfg;
  limiter = new_rate_limiter_with_burst (effective_rps cfg) (effective_burst cfg);
  requests = 0;
  rate_limited = 0;
  failures = 0;
  consecutive_failure = 0;
  latency_ema = 0;
  last_successful = 0;
  last_failure = 0;
  cooldown_until = 0;
  latest_block = 0;
  latest_block_at = 0;
  request_times = [];
  rate_limit_streak = 0;
  recent_429_until = 0;
  probation_until = 0;
  inflight = 0;
  eth_call_requests = 0;
  quote_requests = 0;
  successes = 0;
  forbidden = 0;
  cooldown_events = 0;
  latency_samples = [];
  stage_requests = [];
}

pub is_empty : Text → Bool
is_empty [] = true
is_empty (_ ∷ _) = false

-- The providers that newManaged makes of its configurations.
unfoldable pub new_providers : List ProviderConfig → List Provider
unfolding is_empty normalize_tier new_provider
new_providers [] = []
new_providers (cfg ∷ cfgs) =
    let rest = new_providers cfgs in
    let name = trim_space cfg.name in
    let url = trim_space cfg.url in
    if is_empty url
    then rest
    else new_provider (record cfg {
      name = if is_empty name then bytes "provider" else name;
      url = url;
      tier = normalize_tier cfg.tier;
    })
      ∷ rest
