-- ===== src/Rpc/Choice.antt =====
-- Which provider serves a request (client.go). A section under the lock reads the clock once.
pub mod Scan
pub mod Tiers
pub mod Usable
pub mod Chosen
use titanarb_engine.Base.{
  ℕ, zero, suc, ◌+◌, ◌-◌, ◌*◌, ◌/◌, ◌%◌, Bool, true, false, not, ◌&&◌, ◌||◌, Option, none, some,
  List, [], ◌∷◌, length, get_elem?, set, ltb, leb, ◌==◌, if◌then◌else◌, max,
}
use titanarb_engine.Rpc.Limiter.{RateLimiter, MinuteBudget, second, minute, delay, reserve_delay}
use titanarb_engine.Rpc.Provider.{
  Provider, RequestClass, is_critical, tier_rank, effective_rps, standard,
}
use titanarb_engine.Rpc.Health.{provider_lagged}

abbrev pub millisecond : ℕ
millisecond = 1000000

-- Client, without the transport, the metrics and the observers.
pub record Client : Type 0 where
  pub retries : ℕ
  pub providers : List Provider
  pub read_limiter : Option RateLimiter
  pub premium_limiter : Option RateLimiter
  pub eth_budget : Option MinuteBudget
  pub hot_budget : Option MinuteBudget
  pub active : ℕ
  pub last_switch : ℕ

-- bestKnownBlockLocked
unfoldable pub best_known_block : List Provider → ℕ
best_known_block [] = 0
best_known_block (p ∷ ps) = max p.latest_block (best_known_block ps)

unfoldable pub is_cooling : ℕ → Provider → Bool
is_cooling now p = ltb now p.cooldown_until

-- The tests that the two passes share: a cooldown, the probation in the first pass, and a lag.
unfoldable pub is_passed_over : Bool → ℕ → ℕ → Provider → Bool
is_passed_over first best now p =
    is_cooling now p || first && ltb now p.probation_until || provider_lagged best now p

abbrev pub read_tier_spill_delay : ℕ
read_tier_spill_delay = 150 * millisecond

-- The ranks that preferredReadTierLocked keeps: the best of the ready ones, and of the others the one
-- with the least delay.
pub record TierChoice : Type 0 where
  pub ready : ℕ
  pub delayed : ℕ
  pub delayed_by : ℕ

unfoldable pub add_tier : ℕ → ℕ → TierChoice → TierChoice
add_tier rank wait t =
    if leb wait read_tier_spill_delay
    then (if ltb rank t.ready then record t { ready = rank } else t)
    else if t.delayed == 99 || ltb wait t.delayed_by || wait == t.delayed_by && ltb rank t.delayed
    then record t { delayed = rank; delayed_by = wait }
    else t

unfoldable pub tier_choice : RequestClass → Bool → ℕ → ℕ → List Provider → TierChoice → TierChoice
tier_choice class first best now [] t = t
tier_choice class first best now (p ∷ ps) t =
    let rank = tier_rank class p.cfg.tier in
    tier_choice class first best now ps (
      if is_passed_over first best now p || leb 99 rank
      then t
      else add_tier rank (delay p.limiter now) t)

-- preferredReadTierLocked; the first pass is the pass 0.
unfoldable pub preferred_read_tier : RequestClass → Bool → ℕ → ℕ → List Provider → ℕ
preferred_read_tier class first best now ps =
    let t =
      tier_choice class first best now ps (record { ready = 99; delayed = 99; delayed_by = 0 }) in
    if t.ready == 99 then t.delayed else t.ready

-- The score of a provider: the least is chosen.
unfoldable pub read_score : RequestClass → ℕ → Provider → ℕ
read_score class now p =
    delay p.limiter now
    + (if is_critical class then 0 else tier_rank class p.cfg.tier * (75 * millisecond))
    + (if ltb now p.recent_429_until then 250 * millisecond else 0)
    + (if ltb 0 p.latency_ema then p.latency_ema / 20 else 0)
    + p.inflight * (25 * millisecond)
    + p.consecutive_failure * (100 * millisecond)
    + (if ltb 0 (effective_rps p.cfg) then p.requests * second / effective_rps p.cfg else 0)

-- The best provider so far, with its score; the tier is used for critical requests only.
pub record Best : Type 0 where
  pub index : Option ℕ
  pub score : ℕ
  pub tier : ℕ

-- The comparison at the end of a round, for the provider at an index.
unfoldable pub take_better : ℕ → ℕ → Best → Best
take_better i score b = elim b.index [
  | none ↦ record b { index = some i; score = score }
  | some j ↦
      if ltb score b.score || score == b.score && ltb i j
      then record b { index = some i; score = score }
      else b
]

-- A critical request starts again where a better tier is met.
unfoldable pub enter_tier : Bool → ℕ → Best → Best
enter_tier strict rank b =
    if strict && ltb rank b.tier then record b { index = none; tier = rank } else b

-- One round of a pass.
unfoldable pub weigh : RequestClass → Bool → ℕ → ℕ → ℕ → ℕ → Provider → Best → Best
weigh class first preferred best now i p b =
    let rank = tier_rank class p.cfg.tier in
    if is_passed_over first best now p || leb 99 rank
    then b
    else if not (is_critical class) && not (rank == preferred)
    then b
    else if is_critical class && ltb b.tier rank
    then b
    else take_better i (read_score class now p) (enter_tier (is_critical class) rank b)

-- One pass over the providers from the index `i` on.
unfoldable pub pass_from : RequestClass → Bool → ℕ → ℕ → ℕ → ℕ → List Provider → Best → Best
pass_from class first preferred best now i [] b = b
pass_from class first preferred best now i (p ∷ ps) b =
    pass_from class first preferred best now (suc i) ps (weigh class first preferred best now i p b)

abbrev pub no_best : Best
no_best = record { index = none; score = 0; tier = 99 }

-- A whole pass, with the tier that it prefers.
unfoldable pub pass_over : RequestClass → Bool → ℕ → List Provider → Best → Best
pass_over class first now ps b =
    let best = best_known_block ps in
    let preferred = if is_critical class then 99 else preferred_read_tier class first best now ps in
    pass_from class first preferred best now 0 ps b

-- The delay of a provider that may be in its cooldown.
unfoldable pub delay_with_cooldown : ℕ → ℕ → Provider → ℕ
delay_with_cooldown wait now p =
    if ltb wait (p.cooldown_until - now) then p.cooldown_until - now else wait

-- One round of the last loop, which takes every provider.
unfoldable pub consider_any : RequestClass → ℕ → ℕ → Provider → Best → Best
consider_any class now i p b =
    let rank = tier_rank class p.cfg.tier in
    if leb 99 rank
    then b
    else if is_critical class && ltb b.tier rank
    then b
    else (let b' = enter_tier (is_critical class) rank b in
        let score =
          delay_with_cooldown (delay p.limiter now) now p
          + (if is_critical class then 0 else rank * (75 * millisecond)) in
        elim b'.index [
          | none ↦ record b' { index = some i; score = score }
          | some j ↦ if ltb score b'.score then record b' { index = some i; score = score } else b'
        ])

unfoldable pub any_from : RequestClass → ℕ → ℕ → List Provider → Best → Best
any_from class now i [] b = b
any_from class now i (p ∷ ps) b = any_from class now (suc i) ps (consider_any class now i p b)

-- The index that chooseReadProvider settles on.
unfoldable pub read_index : RequestClass → ℕ → List Provider → Option ℕ
read_index class now ps =
    let first = pass_over class true now ps no_best in
    let second = pass_over class false now ps first in
    let last = any_from class now 0 ps no_best in
    elim first.index [
      | some i ↦ some i
      | none ↦ elim second.index [
        | some i ↦ some i
        | none ↦ elim last.index [
          | some i ↦ some i
          | none ↦ if length ps == 1 then some 0 else none
        ]
      ]
    ]

-- The delay for the chosen provider, which reserves a slot of its limiter.
unfoldable pub wait_for : ℕ → Provider → ℕ
wait_for now p = delay_with_cooldown (reserve_delay p.limiter now).0 now p

-- The client after the choice.
unfoldable pub after_choice : ℕ → ℕ → Provider → Client → Client
after_choice now i p c = record c {
  providers = set c.providers i (record p { limiter = (reserve_delay p.limiter now).1 });
  active = i;
}

-- chooseReadProvider: the index of the provider, the delay, and the client afterwards.
unfoldable pub choose_read_provider : RequestClass → ℕ → Client → Option (ℕ × ℕ × Client)
choose_read_provider class now c = elim (read_index class now c.providers) [
  | none ↦ none
  | some i ↦ elim (get_elem? c.providers i) [
    | none ↦ none
    | some p ↦ some (i, wait_for now p, after_choice now i p c)
  ]
]

-- The first provider out of its cooldown among `n`, from an offset on.
unfoldable pub ready_from : List Provider → ℕ → ℕ → ℕ → ℕ → Option ℕ
ready_from ps now start zero offset = none
ready_from ps now start (suc n) offset =
    let rest = ready_from ps now start n (suc offset) in
    let i = (start + offset) % length ps in
    elim (get_elem? ps i) [ none ↦ rest | some p ↦ if is_cooling now p then rest else some i ]

-- The return to the first provider, two minutes after a switch.
unfoldable pub returns_to_first : ℕ → Client → Bool
returns_to_first now c = elim c.providers [
  | [] ↦ false
  | p ∷ _ ↦
      not (c.active == 0)
      && ltb 1 (length c.providers)
      && ltb (2 * minute) (now - c.last_switch)
      && ltb p.cooldown_until now
]

-- chooseProvider
unfoldable pub choose_provider : ℕ → Client → Option (ℕ × Client)
choose_provider now c =
    let active = if returns_to_first now c then 0 else c.active in
    if length c.providers == 0
    then none
    else elim (ready_from c.providers now active (length c.providers) 0) [
      | some i ↦ some (i, record c { active = i })
      | none ↦ some (active, record c { active = active })
    ]

-- failover, and the index that it switches to.
unfoldable pub failover : ℕ → ℕ → Client → Client × Option ℕ
failover from now c =
    if ltb (length c.providers) 2
    then (c, none)
    else elim (ready_from c.providers now from (length c.providers - 1) 1) [
      | none ↦ (c, none)
      | some to ↦ (record c { active = to; last_switch = now }, some to)
    ]
