-- ===== src/Rpc/Limiter/Spacing.antt =====
-- The distances between the slots that one rate limiter hands out (client.go).
use titanarb_engine.Base.{ℕ, ◌+◌, ◌-◌, ◌*◌, ◌≤◌, ◌<◌, ◌≡◌, refl, List, [], ◌∷◌, length, arith}
use titanarb_engine.Rpc.Limiter.{RateLimiter, reserve_delay}

-- The time at which a caller that reserves at `now` goes ahead.
unfoldable pub slot : RateLimiter → ℕ → ℕ
slot l now = now + (reserve_delay l now).0

-- The limiter after reservations at the given times, one after the other.
pub reserve_all : RateLimiter → List ℕ → RateLimiter
reserve_all l [] = l
reserve_all l (t ∷ ts) = reserve_all (reserve_delay l t).1 ts

-- One reservation: what stays, how the next slot moves, and where the reserved slot lies.
module _ (l : RateLimiter) (now : ℕ) (on : 0 < l.interval) where
  reserve_delay-interval :
      ((reserve_delay l now).1.interval ≡ l.interval) × ((reserve_delay l now).1.burst ≡ l.burst)
  unfolding reserve_delay
  reserve_delay-interval = ground arith

  reserve_delay-next : l.next + l.interval ≤ (reserve_delay l now).1.next
  unfolding reserve_delay
  reserve_delay-next = ground arith

  next-le-slot : l.next ≤ slot l now
  unfolding reserve_delay slot
  next-le-slot = ground arith

  slot-le : slot l now + l.interval ≤ (reserve_delay l now).1.next + (l.burst - 1) * l.interval
  unfolding reserve_delay slot
  slot-le = ground arith

reserve_all-interval :
    (l : RateLimiter) (ts : List ℕ)
    → 0 < l.interval
    → ((reserve_all l ts).interval ≡ l.interval) × ((reserve_all l ts).burst ≡ l.burst)
unfolding reserve_all
reserve_all-interval l [] on = (refl, refl)
reserve_all-interval l (t ∷ ts) on =
    let same = reserve_delay-interval l t on in
    let (i, b) = reserve_all-interval (reserve_delay l t).1 ts (omega (arith, same)) in
    (omega (arith, i, same), omega (arith, b, same))

reserve_all-next :
    (l : RateLimiter) (ts : List ℕ)
    → 0 < l.interval
    → l.next + length ts * l.interval ≤ (reserve_all l ts).next
unfolding reserve_all
reserve_all-next l [] on = omega arith
reserve_all-next l (t ∷ ts) on =
    let (same, _) = reserve_delay-interval l t on in
    let up = reserve_delay-next l t on in
    let rest = reserve_all-next (reserve_delay l t).1 ts (omega (arith, same)) in
    let rest' = rw same at rest in grind (arith, up, rest')

-- However many callers reserve, and at whatever times, the last of them goes ahead at least as many
-- intervals after the first as there are reservations between, less the burst: n + 2 reservations
-- in a row take n + 2 - burst intervals.
pub slot-reserve_all :
    (l : RateLimiter) (first last : ℕ) (between : List ℕ)
    → 0 < l.interval
    → 1 ≤ l.burst
    → slot l first + (length between + 2) * l.interval
      ≤ slot (reserve_all l (first ∷ between)) last + l.burst * l.interval
unfolding reserve_all
slot-reserve_all l first last between on positive =
    let (same, _) = reserve_delay-interval l first on in
    let l' = (reserve_delay l first).1 in
    let on' : 0 < l'.interval = omega (arith, same) in
    let up = reserve_all-next l' between on' in
    let up' = rw same at up in
    let (i, _) = reserve_all-interval l' between on' in
    let end = next-le-slot (reserve_all l' between) last (omega (arith, i, on')) in
    let start = slot-le l first on in grind (arith, up', end, start)
