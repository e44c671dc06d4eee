-- ===== src/Rpc/Limiter.antt =====
-- The rate limiter and the minute budget of go/internal/rpc/client.go. Times and durations are
-- nanoseconds. One call under the lock reads the clock once.
pub mod Spacing
pub mod Window
pub mod Bound
use titanarb_engine.Base.{
  ℕ, ◌+◌, ◌-◌, ◌*◌, ◌/◌, Bool, true, false, ◌||◌, Option, none, some, List, [], ◌∷◌, ◌++◌, length,
  ltb, leb, ◌==◌, if◌then◌else◌,
}

abbrev pub second : ℕ
second = 1000000000

abbrev pub minute : ℕ
minute = 60000000000

-- rateLimiter. A limiter with the interval 0 does not limit.
pub record RateLimiter : Type 0 where
  pub interval : ℕ
  pub burst : ℕ
  pub next : ℕ

abbrev pub clamp_burst : ℕ → ℕ
clamp_burst burst = if ltb burst 1 then 1 else if ltb 2 burst then 2 else burst

-- newRateLimiterWithBurst
unfoldable pub new_rate_limiter_with_burst : ℕ → ℕ → RateLimiter
new_rate_limiter_with_burst max_rps burst =
    if max_rps == 0
    then record { interval = 0; burst = 0; next = 0 }
    else record { interval = second / max_rps; burst = clamp_burst burst; next = 0 }

-- newRateLimiter
unfoldable pub new_rate_limiter : ℕ → RateLimiter
unfolding new_rate_limiter_with_burst
new_rate_limiter max_rps = new_rate_limiter_with_burst max_rps 1

-- The start of the next slot after the reset of an idle limiter.
unfoldable pub next_slot : RateLimiter → ℕ → ℕ
next_slot l now =
    if l.next == 0 || ltb (l.next + (l.burst - 1) * l.interval) now
    then now - (l.burst - 1) * l.interval
    else l.next

-- ReserveDelay at the time `now`: the wait, and the limiter afterwards.
unfoldable pub reserve_delay : RateLimiter → ℕ → ℕ × RateLimiter
unfolding next_slot
reserve_delay l now =
    if l.interval == 0
    then (0, l)
    else (next_slot l now - now, record l { next = next_slot l now + l.interval })

-- Delay, which reserves nothing.
unfoldable pub delay : RateLimiter → ℕ → ℕ
delay l now = if l.interval == 0 then 0 else l.next - now

-- minuteBudget
pub record MinuteBudget : Type 0 where
  pub limit : ℕ
  pub calls : List ℕ

-- newMinuteBudget; `none` for nil.
unfoldable pub new_minute_budget : ℕ → Option MinuteBudget
new_minute_budget limit = if limit == 0 then none else some (record { limit = limit; calls = [] })

-- The loop that drops the calls before a cutoff, also pruneRequestTimes.
unfoldable pub prune_before : ℕ → List ℕ → List ℕ
prune_before cutoff [] = []
prune_before cutoff (t ∷ ts) = if ltb t cutoff then prune_before cutoff ts else t ∷ ts

-- Allow
unfoldable pub allow : MinuteBudget → ℕ → Bool × MinuteBudget
unfolding prune_before
allow b now =
    let kept = prune_before (now - minute) b.calls in
    if leb b.limit (length kept)
    then (false, record b { calls = kept })
    else (true, record b { calls = kept ++ now ∷ [] })
