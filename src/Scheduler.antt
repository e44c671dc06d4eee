-- ===== src/Scheduler.antt =====
-- go/internal/scheduler/latest.go: the coalescing scheduler of chain-head triggers.
-- A time is a number, 0 for Go's zero time. The wake channel has room for one token.
pub mod Sequential
pub mod Steps
pub mod Interleaving
mod Tests
use titanarb_engine.Base.{
  ℕ, zero, suc, ◌+◌, ◌%◌, ◌<◌, ◌≤◌, ◌≡◌, Bool, true, false, Option, none, some, List, [], ◌∷◌, ◌++◌,
  Text, ltb, leb, ◌==◌, if◌then◌else◌, u64,
}

pub record Trigger : Type 0 where
  pub block : ℕ
  pub hash : Text
  pub observed_at : ℕ

pub record Latest : Type 0 where
  pub pending : Option Trigger
  pub wake : Bool
  pub coalesced : ℕ
  pub latest : ℕ

pub new : Latest
new = record { pending = none; wake = false; coalesced = 0; latest = 0 }

-- A trigger without a time gets the current one.
pub stamp : ℕ → Trigger → Trigger
stamp now t = if t.observed_at == 0 then record t { observed_at = now } else t

-- The compare-and-swap loop: it ends with the newer block stored, or with `none` for a block that
-- is not newer than the one stored.
pub advance : Trigger → Latest → Option Latest
advance t s = if leb t.block s.latest then none else some (record s { latest = t.block })

abbrev count_superseded : Option Trigger → ℕ → ℕ
count_superseded none n = n
count_superseded (some _) n = (n + 1) % u64

-- The critical section under `mu`.
pub publish : Trigger → Latest → Latest
publish t s = record s { pending = some t; coalesced = count_superseded s.pending s.coalesced }

-- The non-blocking send on `wake`.
pub signal : Latest → Latest
signal s = record s { wake = true }

-- `Submit`, run with no other call in between.
pub submit : ℕ → Trigger → Latest → Latest
unfolding stamp advance publish signal
submit now t s = elim (advance (stamp now t) s) [
  | none ↦ s
  | some s' ↦ signal (publish (stamp now t) s')
]

pub take : Latest → Option (Trigger × Latest)
take s = elim s.pending [ none ↦ none | some t ↦ some (t, record s { pending = none }) ]

-- What `Run` does on a wake-up with no call in between: it receives the token, then takes and
-- handles until nothing is pending, in at most `fuel` rounds; the handled triggers, oldest first.
pub drain : ℕ → Latest → List Trigger × Latest
unfolding take
drain zero s = ([], s)
drain (suc fuel) s = elim (take s) [
  | none ↦ ([], s)
  | some (t, s') ↦ let (handled, end) = drain fuel s' in (t ∷ handled, end)
]

pub run_once : ℕ → Latest → List Trigger × Latest
unfolding drain
run_once fuel s = if s.wake then drain fuel (record s { wake = false }) else ([], s)
