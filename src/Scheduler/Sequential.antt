-- ===== src/Scheduler/Sequential.antt =====
-- `Submit`, `take` and `Run` (latest.go) called one after the other.
use mathlib.Core.List.{append-nil}
use titanarb_engine.Base.{
  ℕ, zero, suc, ◌≤◌, ◌<◌, ◌≡◌, refl, ◌⊎◌, inl, inr, true, none, some, List, [], ◌∷◌, ◌++◌, arith,
  max, Option-cases, Bool-cases, dec_lt, sym, ◌∙◌,
}
use titanarb_engine.Scheduler.{Trigger, Latest, new, stamp, submit, run_once}

-- A newer block becomes the pending trigger and wakes `Run`; any other submission changes nothing.
pub submit_lem :
    (now : ℕ) (t : Trigger) (s : Latest)
    → (s.latest < t.block
        → ((submit now t s).pending ≡ some (stamp now t))
          × ((submit now t s).latest ≡ t.block)
          × ((submit now t s).wake ≡ true))
      × (t.block ≤ s.latest → submit now t s ≡ s)
unfolding submit
submit_lem now t s = ground arith

stamp-block : (now : ℕ) (t : Trigger) → (stamp now t).block ≡ t.block
unfolding stamp
stamp-block now t = ground arith

unfoldable pub submit_all : List (ℕ × Trigger) → Latest → Latest
submit_all [] s = s
submit_all ((now, t) ∷ ts) s = submit_all ts (submit now t s)

pub newest : ℕ → List (ℕ × Trigger) → ℕ
newest b [] = b
newest b ((_, t) ∷ ts) = newest (max b t.block) ts

-- Nothing was accepted yet, or the newest trigger is pending and `Run` is woken.
abbrev IsCurrent : ℕ → Latest → Type 0
IsCurrent b s =
    ((b ≡ 0) × (s ≡ new))
    ⊎ ((t : Trigger) × (s.pending ≡ some t) × (t.block ≡ b) × (s.latest ≡ b) × (s.wake ≡ true))

IsCurrent-latest : (b : ℕ) (s : Latest) → IsCurrent b s → s.latest ≡ b
unfolding new
IsCurrent-latest b s h = ground arith

submit-IsCurrent :
    (now : ℕ) (t : Trigger) (b : ℕ) (s : Latest)
    → IsCurrent b s
    → IsCurrent (max b t.block) (submit now t s)
submit-IsCurrent now t b s h = elim (dec_lt s.latest t.block) [
  | yes p ↦
      let (pending, latest, woken) = (submit_lem now t s).0 p in
      inr (
        stamp now t,
        pending,
        omega (arith, stamp-block now t, behind),
        omega (arith, behind),
        woken,
      )
  | no p ↦
      rw ((submit_lem now t s).1 (omega arith))
        (let same : max b t.block ≡ b = omega (arith, behind) in rw same h)
]
  where
    behind : s.latest ≡ b
    behind = IsCurrent-latest b s h

submit_all-IsCurrent :
    (ts : List (ℕ × Trigger)) (b : ℕ) (s : Latest)
    → IsCurrent b s
    → IsCurrent (newest b ts) (submit_all ts s)
unfolding submit_all newest
submit_all-IsCurrent [] b s h = h
submit_all-IsCurrent ((now, t) ∷ ts) b s h =
    submit_all-IsCurrent ts (max b t.block) (submit now t s) (submit-IsCurrent now t b s h)

run_once-IsCurrent :
    (f b : ℕ) (s : Latest)
    → 0 < b
    → IsCurrent b s
    → (t : Trigger) × ((run_once (suc (suc f)) s).0 ≡ t ∷ []) × (t.block ≡ b)
unfolding run_once
run_once-IsCurrent f b s pos (inl (e, _)) = absurd (omega arith)
run_once-IsCurrent f b s pos (inr (t, p, e, _, w)) = (t, ground arith, e)

-- However many triggers a burst brings, one wake-up handles exactly one: the newest.
pub burst_handles_newest :
    (f : ℕ) (ts : List (ℕ × Trigger))
    → 0 < newest 0 ts
    → (t : Trigger) × ((run_once (suc (suc f)) (submit_all ts new)).0 ≡ t ∷ [])
      × (t.block ≡ newest 0 ts)
burst_handles_newest f ts h =
    run_once-IsCurrent f (newest 0 ts) (submit_all ts new) h
      (submit_all-IsCurrent ts 0 new (inl (refl, refl)))

-- A history of calls and wake-ups, with the triggers handled on the way, oldest first.
pub data Call : Type 0 where
  submits : ℕ → Trigger → Call
  wakes : ℕ → Call

pub run_call : Call → Latest × List Trigger → Latest × List Trigger
run_call (submits now t) (s, log) = (submit now t s, log)
run_call (wakes fuel) (s, log) = let (handled, s') = run_once fuel s in (s', log ++ handled)

pub run_calls : List Call → Latest × List Trigger → Latest × List Trigger
run_calls [] w = w
run_calls (c ∷ cs) w = run_calls cs (run_call c w)

-- Blocks rise along the list and stay at or under the bound.
abbrev pub RisesFrom : ℕ → List Trigger → Type 0
RisesFrom b [] = Unit
RisesFrom b (t ∷ ts) = (b < t.block) × RisesFrom t.block ts

abbrev pub last_block : ℕ → List Trigger → ℕ
last_block b [] = b
last_block b (t ∷ ts) = last_block t.block ts

RisesFrom-snoc :
    (b : ℕ) (ts : List Trigger) (t : Trigger)
    → RisesFrom b ts
    → last_block b ts < t.block
    → RisesFrom b (ts ++ t ∷ [])
RisesFrom-snoc b [] t r h = (h, tt)
RisesFrom-snoc b (x ∷ ts) t r h = (r.0, RisesFrom-snoc x.block ts t r.1 h)

last_block-snoc : (b : ℕ) (ts : List Trigger) (t : Trigger) → last_block b (ts ++ t ∷ []) ≡ t.block
last_block-snoc b [] t = refl
last_block-snoc b (x ∷ ts) t = last_block-snoc x.block ts t

-- The log rises, and what is pending is newer than all of it.
record IsOrdered (w : Latest × List Trigger) : Type 0 where
  rises : RisesFrom 0 w.1
  handled_old : last_block 0 w.1 ≤ w.0.latest
  pending_new : (t : Trigger) → w.0.pending ≡ some t → last_block 0 w.1 < t.block
  pending_old : (t : Trigger) → w.0.pending ≡ some t → t.block ≤ w.0.latest

-- A wake-up handles what is pending, if anything.
run_once_cases :
    (f : ℕ) (s : Latest)
    → ((run_once f s).0 ≡ [])
        × ((run_once f s).1.pending ≡ s.pending)
        × ((run_once f s).1.latest ≡ s.latest)
      ⊎ ((t : Trigger) × ((run_once f s).0 ≡ t ∷ [])
          × (s.pending ≡ some t)
          × ((run_once f s).1.pending ≡ none)
          × ((run_once f s).1.latest ≡ s.latest))
unfolding run_once
run_once_cases zero s = ground arith
run_once_cases (suc zero) s = elim (Option-cases s.pending) [
  | inl e ↦ ground arith
  | inr (t, e) ↦ elim (Bool-cases s.wake) [
    | inl w ↦ inr (t, ground arith, e, ground arith, ground arith)
    | inr w ↦ inl (ground arith, ground arith, ground arith)
  ]
]
run_once_cases (suc (suc f)) s = elim (Option-cases s.pending) [
  | inl e ↦ ground arith
  | inr (t, e) ↦ elim (Bool-cases s.wake) [
    | inl w ↦ inr (t, ground arith, e, ground arith, ground arith)
    | inr w ↦ inl (ground arith, ground arith, ground arith)
  ]
]

submit-IsOrdered :
    (now : ℕ) (t : Trigger) (s : Latest) (log : List Trigger)
    → IsOrdered (s, log)
    → IsOrdered (submit now t s, log)
submit-IsOrdered now t s log o = elim (dec_lt s.latest t.block) [
  | yes p ↦
      let (pending, latest, _) = (submit_lem now t s).0 p in
      let b = stamp-block now t in
      record {
        rises = o.rises;
        handled_old = omega (arith, latest, o.handled_old);
        pending_new = λ u e. ground (arith, pending, b, o.handled_old);
        pending_old = λ u e. ground (arith, pending, b, latest);
      }
  | no p ↦ rw ((submit_lem now t s).1 (omega arith)) o
]

run_once-IsOrdered :
    (f : ℕ) (s : Latest) (log : List Trigger)
    → IsOrdered (s, log)
    → IsOrdered ((run_once f s).1, log ++ (run_once f s).0)
run_once-IsOrdered f s log o = elim (run_once_cases f s) [
  | inl (e, p, l) ↦
      rw (e, append-nil)
        (record {
          rises = o.rises;
          handled_old = omega (arith, l, o.handled_old);
          pending_new = λ u q. o.pending_new u (sym p ∙ q);
          pending_old = λ u q. rw l (o.pending_old u (sym p ∙ q));
        })
  | inr (t, e, q, p, l) ↦ rw e (record {
    rises = RisesFrom-snoc 0 log t o.rises (o.pending_new t q);
    handled_old = rw (last_block-snoc 0 log t, l) (o.pending_old t q);
    pending_new = λ u r. cc;
    pending_old = λ u r. cc;
  })
]

run_calls-IsOrdered :
    (cs : List Call) (w : Latest × List Trigger) → IsOrdered w → IsOrdered (run_calls cs w)
unfolding run_calls run_call
run_calls-IsOrdered [] w o = o
run_calls-IsOrdered (submits now t ∷ cs) (s, log) o =
    run_calls-IsOrdered cs (submit now t s, log) (submit-IsOrdered now t s log o)
run_calls-IsOrdered (wakes f ∷ cs) (s, log) o =
    run_calls-IsOrdered cs ((run_once f s).1, log ++ (run_once f s).0)
      (run_once-IsOrdered f s log o)

-- With one caller, `Run` handles blocks in strictly rising order, whatever the history of
-- submissions and wake-ups, and never one above the latest block seen.
pub run_calls_rises :
    (cs : List Call)
    → RisesFrom 0 (run_calls cs (new, [])).1
      × (last_block 0 (run_calls cs (new, [])).1 ≤ (run_calls cs (new, [])).0.latest)
unfolding new
run_calls_rises cs =
    let o =
      run_calls-IsOrdered cs (new, [])
        (record {
          rises = tt;
          handled_old = omega arith;
          pending_new = λ t e. cc;
          pending_old = λ t e. cc;
        }) in
    (o.rises, o.handled_old)
