-- ===== src/Rpc/Health/Cooldown.antt =====
-- How long a provider is left alone after a failure (client.go).
use titanarb_engine.Base.{
  ℕ, zero, suc, ◌+◌, ◌-◌, ◌*◌, ◌^◌, ◌≤◌, ◌<◌, ◌≡◌, refl, ◌⊎◌, inl, inr, arith, Bool-cases, ltb, leb,
  if◌then◌else◌,
}
use titanarb_engine.Rpc.Limiter.{second, minute}
use titanarb_engine.Rpc.Errors.{Failure, error_text, quota_limit_message}
use titanarb_engine.Rpc.Provider.{Provider}
use titanarb_engine.Rpc.Health.{
  record_failure, cooldown_of, is_rate_limit, exponential_rate_limit_cooldown,
}

pow_bounds : (k : ℕ) → k ≤ 3 → (1 ≤ 2 ^ k) × (2 ^ k ≤ 8)
pow_bounds zero h = omega arith
pow_bounds (suc zero) h = omega arith
pow_bounds (suc (suc zero)) h = omega arith
pow_bounds (suc (suc (suc zero))) h = omega arith
pow_bounds (suc (suc (suc (suc k)))) h = absurd (omega arith)

-- The backoff doubles from 30 seconds up to 4 minutes.
exponential_bounds :
    (streak : ℕ)
    → (30 * second ≤ exponential_rate_limit_cooldown streak)
      × (exponential_rate_limit_cooldown streak ≤ 4 * minute)
unfolding exponential_rate_limit_cooldown
exponential_bounds streak =
    let streak' = if ltb streak 1 then 1 else streak in
    let shift = if ltb 3 (streak' - 1) then 3 else streak' - 1 in
    let low : shift ≤ 3 = ground arith in let power = pow_bounds shift low in omega (arith, power)

cooldown_of-bounds :
    (f : Failure) (streak : ℕ)
    → (15 * second ≤ cooldown_of f streak) × (cooldown_of f streak ≤ 6 * 60 * minute)
unfolding cooldown_of
cooldown_of-bounds f streak =
    let backoff = exponential_bounds streak in
    elim (Bool-cases (is_rate_limit f)) [
      | inr other ↦ rw other (omega arith)
      | inl limited ↦ elim (Bool-cases (quota_limit_message (error_text f))) [
        | inl quota ↦ rw (limited, quota) (omega arith)
        | inr short ↦ rw (limited, short) (omega (arith, backoff))
      ]
    ]

-- After a failure at `now` the provider cools down for between 15 seconds and 6 hours, which is the
-- cooldown that is reported, and for at least a minute after three failures in a row; the probation
-- lasts at least 15 seconds longer; and every failure and cooldown is counted once.
pub record_failure_lem :
    (f : Failure) (now : ℕ) (p : Provider)
    → let (q, reported) = record_failure f now p in
      (q.cooldown_until ≡ now + reported)
      × (15 * second ≤ reported)
      × (reported ≤ 6 * 60 * minute)
      × ((q.consecutive_failure < 3) ⊎ (60 * second ≤ reported))
      × (q.cooldown_until + 15 * second ≤ q.probation_until)
      × (q.failures ≡ p.failures + 1)
      × (q.cooldown_events ≡ p.cooldown_events + 1)
      × (q.consecutive_failure ≡ p.consecutive_failure + 1)
unfolding record_failure
record_failure_lem f now p =
    let bounds =
      cooldown_of-bounds f
        (if is_rate_limit f then p.rate_limit_streak + 1 else p.rate_limit_streak) in
    elim (Bool-cases (leb 3 (p.consecutive_failure + 1))) [
      | inl often ↦ (
        ground arith,
        ground arith,
        ground arith,
        inr (ground arith),
        ground arith,
        refl,
        refl,
        refl,
      )
      | inr seldom ↦ (
        ground arith,
        ground arith,
        ground arith,
        inl (ground arith),
        ground arith,
        refl,
        refl,
        refl,
      )
    ]
