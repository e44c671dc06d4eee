-- ===== src/Scheduler/Interleaving.antt =====
-- What holds of every interleaving of `Submit` and `Run` (latest.go).
use titanarb_engine.Base.{
  ℕ, suc, ◌+◌, ◌%◌, ◌≤◌, ◌<◌, ◌≡◌, refl, ◌⊎◌, inl, true, Option, none, some, List, [], ◌∷◌, ◌++◌,
  arith, u64, length, ◌==◌, if◌then◌else◌,
}
use titanarb_engine.Scheduler.{Trigger, new, advance, publish, signal, take}
use titanarb_engine.Scheduler.Steps.{
  Runner, World, start, Step, stale, accept, enter, send, receive, handle, rest, Reach, here, next,
}

-- Somebody is still to look at a pending trigger.
abbrev pub IsAwake : World → Type 0
IsAwake w =
    (w.state.pending ≡ none) ⊎ (w.runner ≡ Runner.draining) ⊎ (w.state.wake ≡ true) ⊎ (0 < w.owed)

Step-IsAwake : {w v : World} → Step w v → IsAwake w → IsAwake v
unfolding advance publish signal take
Step-IsAwake (stale t e) a = a
Step-IsAwake (accept t s e) a = ground arith
Step-IsAwake (enter xs t ys e) a = ground arith
Step-IsAwake (send n e) a = ground arith
Step-IsAwake (receive r e) a = ground arith
Step-IsAwake (handle t s r e) a = ground arith
Step-IsAwake (rest r e) a = ground arith

-- No wake-up is lost: in every interleaving of submissions with `Run`, while a trigger is pending
-- the runner is in its inner loop, or a wake-up token waits for it, or a submission still owes one.
pub Reach-IsAwake : {w : World} → Reach w → IsAwake w
unfolding start new
Reach-IsAwake here = inl refl
Reach-IsAwake (next r s) = Step-IsAwake s (Reach-IsAwake r)

-- How many triggers passed the compare-and-swap.
pub accepted : {w : World} → Reach w → ℕ
accepted here = 0
accepted (next r (accept _ _ _)) = accepted r + 1
accepted (next r _) = accepted r

abbrev pending_count : Option Trigger → ℕ
pending_count none = 0
pending_count (some _) = 1

abbrev pub tracked : World → ℕ
tracked w =
    length w.in_flight + pending_count w.state.pending + length w.handled + w.state.coalesced

length-remove :
    (xs ys zs : List Trigger) (t : Trigger) → zs ≡ xs ++ t ∷ ys → length zs ≡ length (xs ++ ys) + 1
length-remove [] ys zs t e = ground arith
length-remove (x ∷ xs) ys [] t e = cc
length-remove (x ∷ xs) ys (z ∷ zs) t e = ground (arith, length-remove xs ys zs t)

-- Every accepted trigger is in flight, pending, handled or counted as coalesced, each once; the
-- counter wraps as the 64-bit number that it is.
pub tracked-accepted : {w : World} (r : Reach w) → tracked w % u64 ≡ accepted r % u64
unfolding start new accepted advance publish signal take
tracked-accepted here = refl
tracked-accepted (next r (stale t e)) = tracked-accepted r
tracked-accepted (next r (accept t s e)) = ground (arith, tracked-accepted r)
tracked-accepted (next {w} r (enter xs t ys e)) =
    ground (arith, tracked-accepted r, length-remove xs ys w.in_flight t e)
tracked-accepted (next r (send n e)) = tracked-accepted r
tracked-accepted (next r (receive q e)) = tracked-accepted r
tracked-accepted (next r (handle t s q e)) = ground (arith, tracked-accepted r)
tracked-accepted (next r (rest q e)) = tracked-accepted r

-- How often a block number occurs.
abbrev pub count : ℕ → List Trigger → ℕ
count b [] = 0
count b (t ∷ ts) = if t.block == b then suc (count b ts) else count b ts

abbrev pending_list : Option Trigger → List Trigger
pending_list none = []
pending_list (some t) = t ∷ []

abbrev pub occurrences : ℕ → World → ℕ
occurrences b w = count b w.in_flight + count b (pending_list w.state.pending) + count b w.handled

count-remove :
    (b : ℕ) (xs ys zs : List Trigger) (t : Trigger)
    → zs ≡ xs ++ t ∷ ys
    → count b zs ≡ count b (t ∷ []) + count b (xs ++ ys)
count-remove b [] ys zs t e = ground arith
count-remove b (x ∷ xs) ys [] t e = cc
count-remove b (x ∷ xs) ys (z ∷ zs) t e = ground (arith, count-remove b xs ys zs t)

record IsOnce (b : ℕ) (w : World) : Type 0 where
  once : occurrences b w ≤ 1
  absent : w.state.latest < b → occurrences b w ≡ 0

Step-IsOnce : (b : ℕ) {w v : World} → Step w v → IsOnce b w → IsOnce b v
unfolding advance publish signal take
Step-IsOnce b (stale t e) o = o
Step-IsOnce b (accept t s e) o = ground arith
Step-IsOnce b {w} (enter xs t ys e) o = ground (arith, count-remove b xs ys w.in_flight t e)
Step-IsOnce b (send n e) o = ground arith
Step-IsOnce b (receive r e) o = ground arith
Step-IsOnce b (handle t s r e) o = ground arith
Step-IsOnce b (rest r e) o = ground arith

Reach-IsOnce : (b : ℕ) {w : World} → Reach w → IsOnce b w
unfolding start new
Reach-IsOnce b here = record { once = omega arith; absent = λ h. refl }
Reach-IsOnce b (next r s) = Step-IsOnce b s (Reach-IsOnce b r)

-- In every interleaving a block is handled at most once, and never one above the latest seen.
pub handled_once :
    (b : ℕ) {w : World}
    → Reach w
    → (count b w.handled ≤ 1) × (w.state.latest < b → count b w.handled ≡ 0)
handled_once b r =
    let o = Reach-IsOnce b r in (omega (arith, o.once), λ h. omega (arith, o.absent h))

-- The world that a race leaves behind.
abbrev raced : Trigger → Trigger → World
raced old t = record {
  state = record { pending = some old; wake = true; coalesced = 1; latest = t.block };
  in_flight = [];
  owed = 0;
  runner = Runner.waiting;
  handled = [];
}

-- With two callers the newest trigger can be lost: whenever an older block passes the
-- compare-and-swap first and its critical section runs last, it replaces the newer pending trigger,
-- which is never handled although both calls have returned.
pub older_replaces_newer :
    (old t : Trigger)
    → 0 < old.block
    → old.block < t.block
    → (w : World) × Reach w
      × (w.state.latest ≡ t.block)
      × (w.state.pending ≡ some old)
      × (w.in_flight ≡ [])
      × (w.owed ≡ 0)
      × (w.handled ≡ [])
unfolding start new advance publish signal
older_replaces_newer old t h k = (raced old t, path, refl, refl, refl, refl, refl)
  where
    path : Reach (raced old t)
    path =
        next
          (next
            (next
              (next
                (next (next here (accept old (record new { latest = old.block }) (ground arith)))
                  (accept t (record new { latest = t.block }) (ground arith)))
                (enter [] t (old ∷ []) refl))
              (enter [] old [] refl))
            (send 1 refl))
          (send 0 refl)
