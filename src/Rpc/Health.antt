-- ===== src/Rpc/Health.antt =====
-- What the client keeps of the health of a provider: requests, successes, failures and cooldowns
-- (client.go). A section under the lock reads the clock once.
pub mod Cooldown
use titanarb_engine.Base.{
  ℕ, zero, suc, ◌+◌, ◌-◌, ◌*◌, ◌/◌, ◌^◌, min, Bool, true, false, not, ◌&&◌, ◌||◌, Option, none,
  some, List, [], ◌∷◌, ◌++◌, length, drop, Text, bytes, text_eq, ltb, leb, ◌==◌, if◌then◌else◌,
  contains, to_lower, trim_space, u64,
}
use titanarb_engine.Base.Dict.{lookup, insert}
use titanarb_engine.Dex.{trim_0x, hex_value}
use titanarb_engine.Rpc.Limiter.{
  RateLimiter, second, minute, new_rate_limiter_with_burst, prune_before,
}
use titanarb_engine.Rpc.Errors.{
  Failure, failure_reason, rate_limit, error_text, quota_limit_message, FailureReason,
}
use titanarb_engine.Rpc.Provider.{
  RequestClass, is_critical, is_hot_path, ProviderConfig, Provider, effective_rps, effective_burst,
  normalize_tier, tier_rank, new_provider, is_empty, new_providers, standard, background, hot_path,
  critical,
}

-- recordRequest
unfoldable pub record_request : Text → RequestClass → Text → ℕ → Provider → Provider
unfolding is_hot_path prune_before
record_request method class stage now p =
    let is_call = text_eq method (bytes "eth_call") in
    let seen : ℕ = elim (lookup stage p.stage_requests) [ none ↦ 0 | some n ↦ n ] in
    record p {
      requests = p.requests + 1;
      stage_requests = insert stage (seen + 1) p.stage_requests;
      eth_call_requests = if is_call then p.eth_call_requests + 1 else p.eth_call_requests;
      quote_requests =
          if is_call && is_hot_path class then p.quote_requests + 1 else p.quote_requests;
      request_times = prune_before (now - second) (p.request_times ++ now ∷ []);
    }

-- strconv.ParseUint(digits, 16, 64), after the first digit.
parse_hex_from : ℕ → Text → Option ℕ
parse_hex_from acc [] = if ltb acc u64 then some acc else none
parse_hex_from acc (c ∷ s) = elim (hex_value c) [
  | none ↦ none
  | some d ↦ parse_hex_from (acc * 16 + d) s
]

-- A quantity of a response, after its prefix.
pub parse_quantity : Text → Option ℕ
unfolding parse_hex_from trim_0x
parse_quantity raw = elim (trim_0x raw) [ [] ↦ none | c ∷ s ↦ parse_hex_from 0 (c ∷ s) ]

-- recordSuccess, for a result that is a text or something else.
unfoldable pub record_success : Text → Option Text → ℕ → Provider → Provider
unfolding parse_quantity
record_success method out now p =
    let q = record p {
      consecutive_failure = 0;
      successes = p.successes + 1;
      last_successful = now;
      rate_limit_streak = 0;
    } in
    if text_eq method (bytes "eth_blockNumber")
    then elim out [
      | none ↦ q
      | some raw ↦ elim (parse_quantity raw) [
        | none ↦ q
        | some block ↦ record q { latest_block = block; latest_block_at = now }
      ]
    ]
    else q

-- exponentialRateLimitCooldown
pub exponential_rate_limit_cooldown : ℕ → ℕ
exponential_rate_limit_cooldown streak =
    let streak' = if ltb streak 1 then 1 else streak in
    30 * second * 2 ^ (if ltb 3 (streak' - 1) then 3 else streak' - 1)

pub is_rate_limit : Failure → Bool
unfolding failure_reason
is_rate_limit f = elim (failure_reason f) [
  | rate_limit ↦ true
  | FailureReason.canceled ↦ false
  | FailureReason.timeout ↦ false
  | FailureReason.transport ↦ false
  | FailureReason.provider ↦ false
  | FailureReason.unknown ↦ false
]

-- The cooldown of a failure, for the streak with this failure.
pub cooldown_of : Failure → ℕ → ℕ
unfolding is_rate_limit exponential_rate_limit_cooldown quota_limit_message error_text
cooldown_of f streak =
    if is_rate_limit f
    then (if quota_limit_message (error_text f)
        then 6 * 60 * minute
        else exponential_rate_limit_cooldown streak)
    else 15 * second

-- recordFailure: the provider afterwards, and the cooldown that is reported.
unfoldable pub record_failure : Failure → ℕ → Provider → Provider × ℕ
unfolding cooldown_of is_rate_limit error_text
record_failure f now p =
    let limited = is_rate_limit f in
    let streak = if limited then p.rate_limit_streak + 1 else p.rate_limit_streak in
    let cooldown = cooldown_of f streak in
    let until =
      if leb 3 (p.consecutive_failure + 1) && ltb (now + cooldown) (now + 60 * second)
      then now + 60 * second
      else now + cooldown in
    (
      record p {
        failures = p.failures + 1;
        forbidden = if contains (bytes " 403") (error_text f) then p.forbidden + 1 else p.forbidden;
        cooldown_events = p.cooldown_events + 1;
        consecutive_failure = p.consecutive_failure + 1;
        last_failure = now;
        rate_limited = if limited then p.rate_limited + 1 else p.rate_limited;
        rate_limit_streak = streak;
        recent_429_until = if limited then now + (cooldown + 2 * minute) else p.recent_429_until;
        cooldown_until = until;
        probation_until = now + cooldown + minute;
      },
      until - now,
    )

-- updateLatency, for the float expression of the moving average.
unfoldable pub update_latency : (ℕ → ℕ → ℕ) → ℕ → Provider → Provider
update_latency blend latency p =
    let samples = p.latency_samples ++ latency ∷ [] in
    record p {
      latency_ema = if p.latency_ema == 0 then latency else blend p.latency_ema latency;
      latency_samples =
          if ltb 256 (length samples) then drop (length samples - 256) samples else samples;
    }

-- providerLagged
unfoldable pub provider_lagged : ℕ → ℕ → Provider → Bool
provider_lagged best now p =
    if best == 0 || p.latest_block == 0 || p.cfg.max_block_lag == 0
    then false
    else if p.latest_block_at == 0 || ltb (30 * second) (now - p.latest_block_at)
    then false
    else if leb best p.latest_block
    then false
    else ltb p.cfg.max_block_lag (best - p.latest_block)
