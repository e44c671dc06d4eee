-- ===== src/Scheduler/Tests.antt =====
-- Runs of the scheduler on small bursts.
use titanarb_engine.Base.{
  ℕ, ◌%◌, ◌≤◌, ◌<◌, ◌≡◌, refl, List, [], ◌∷◌, false, none, some, arith, u64, bytes,
}
use titanarb_engine.Scheduler.{Trigger, Latest, new, submit, advance, publish, run_once}
use titanarb_engine.Scheduler.Sequential.{
  submit_all, Call, submits, wakes, run_calls, RisesFrom, last_block, run_calls_rises,
}
use titanarb_engine.Scheduler.Steps.{World, start, Runner, Reach, here, next, accept, enter}
use titanarb_engine.Scheduler.Interleaving.{
  IsAwake, Reach-IsAwake, accepted, tracked, tracked-accepted, count, handled_once,
  older_replaces_newer,
}

abbrev head : ℕ → Trigger
head b = record { block = b; hash = bytes "0xab"; observed_at = 9 }

abbrev burst : List (ℕ × Trigger)
burst = (1, head 5) ∷ (2, head 7) ∷ (3, head 6) ∷ []

abbrev idle : Latest
idle = record { pending = none; wake = false; coalesced = 0; latest = 0 }

submit_older : submit 4 (head 6) (submit 3 (head 7) new) ≡ submit 3 (head 7) new
unfolding submit new
submit_older = refl

burst_runs : (run_once 2 (submit_all burst new)).0 ≡ head 7 ∷ []
unfolding run_once submit_all submit new
burst_runs = refl

abbrev calls : List Call
calls = submits 1 (head 5) ∷ wakes 2 ∷ submits 2 (head 4) ∷ submits 3 (head 8) ∷ wakes 2 ∷ []

run_calls_rises_example :
    RisesFrom 0 (run_calls calls (new, [])).1
    × (last_block 0 (run_calls calls (new, [])).1 ≤ (run_calls calls (new, [])).0.latest)
run_calls_rises_example = run_calls_rises calls

abbrev published : World
published = record {
  state = record { pending = some (head 5); wake = false; coalesced = 0; latest = 5 };
  in_flight = [];
  owed = 1;
  runner = Runner.waiting;
  handled = [];
}

published-Reach : Reach published
unfolding start new advance publish
published-Reach =
    next (next here (accept (head 5) (record idle { latest = 5 }) refl)) (enter [] (head 5) [] refl)

Reach-IsAwake_example : IsAwake published
Reach-IsAwake_example = Reach-IsAwake published-Reach

tracked-accepted_example : tracked published % u64 ≡ accepted published-Reach % u64
tracked-accepted_example = tracked-accepted published-Reach

handled_once_example :
    (count 5 published.handled ≤ 1) × (published.state.latest < 5 → count 5 published.handled ≡ 0)
handled_once_example = handled_once 5 published-Reach

older_replaces_newer_example :
    (w : World) × Reach w
    × (w.state.latest ≡ 8)
    × (w.state.pending ≡ some (head 5))
    × (w.in_flight ≡ [])
    × (w.owed ≡ 0)
    × (w.handled ≡ [])
older_replaces_newer_example = older_replaces_newer (head 5) (head 8) (omega arith) (omega arith)
