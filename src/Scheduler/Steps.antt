-- ===== src/Scheduler/Steps.antt =====
-- The interleavings of `Submit` and `Run` (latest.go), one atomic action at a time: a call that has
-- passed the compare-and-swap is in flight until its critical section, and owes a send after it.
use titanarb_engine.Base.{ℕ, suc, ◌≡◌, true, false, none, some, List, [], ◌∷◌, ◌++◌}
use titanarb_engine.Scheduler.{Trigger, Latest, new, advance, publish, signal, take}

-- The goroutine of `Run`: it waits at `wake`, or it is in the inner loop.
pub data Runner : Type 0 where
  waiting draining : Runner

pub record World : Type 0 where
  pub state : Latest
  pub in_flight : List Trigger
  pub owed : ℕ
  pub runner : Runner
  pub handled : List Trigger

unfoldable pub start : World
start = record { state = new; in_flight = []; owed = 0; runner = Runner.waiting; handled = [] }

pub data Step (w : World) : World → Type 0 where
  stale : (t : Trigger) → advance t w.state ≡ none → Step w w
  accept :
      (t : Trigger) (s : Latest)
      → advance t w.state ≡ some s
      → Step w (record w { state = s; in_flight = t ∷ w.in_flight })
  enter :
      (xs : List Trigger) (t : Trigger) (ys : List Trigger)
      → w.in_flight ≡ xs ++ t ∷ ys
      → Step w (record w { state = publish t w.state; in_flight = xs ++ ys; owed = suc w.owed })
  send : (n : ℕ) → w.owed ≡ suc n → Step w (record w { state = signal w.state; owed = n })
  receive :
      w.runner ≡ Runner.waiting
      → w.state.wake ≡ true
      → Step w (record w { state = record w.state { wake = false }; runner = Runner.draining })
  handle :
      (t : Trigger) (s : Latest)
      → w.runner ≡ Runner.draining
      → take w.state ≡ some (t, s)
      → Step w (record w { state = s; handled = t ∷ w.handled })
  rest :
      w.runner ≡ Runner.draining
      → take w.state ≡ none
      → Step w (record w { runner = Runner.waiting })

pub data Reach : World → Type 0 where
  here : Reach start
  next : {w v : World} → Reach w → Step w v → Reach v
