-- ===== src/Execution/Gates/Nonce.antt =====
-- The nonce of a run that sends nothing (Process of pipeline.go).
use titanarb_engine.Base.{
  ℕ, ◌+◌, ◌<◌, ◌≤◌, ◌≡◌, refl, inl, inr, Bool, true, false, Option, none, some, arith, u64,
  Bool-cases, Option-cases, some-inj, subst,
}
use titanarb_engine.Wallet.{NonceManager, next_nonce, release, nonce_from}
use titanarb_engine.Wallet.Nonces.{release-next_nonce}
use titanarb_engine.Opportunity.{Opportunity}
use titanarb_engine.Execution.Build.{Config}
use titanarb_engine.Execution.Pipeline.{Environment, Decision, sent, confirmed}
use titanarb_engine.Execution.Pipeline.Pricing.{Priced}
use titanarb_engine.Execution.Pipeline.Broadcast.{
  broadcast_off, broadcast, transact, finish, process,
}
use titanarb_engine.Execution.Gates.Cleared.{gates}
use titanarb_engine.Execution.Gates.Passed.{stage_cases}

-- The node took the transaction.
abbrev pub is_sent : Decision → Bool
is_sent (sent h) = true
is_sent (confirmed h) = true
is_sent _ = false

given_back :
    (pending : Option ℕ) (manager : NonceManager) (n : ℕ)
    → (next_nonce pending manager).0 ≡ some n
    → n + 1 < u64
    → (next_nonce pending (release n (next_nonce pending manager).1)).0 ≡ some n
unfolding next_nonce
given_back none manager n e h = absurd (ground arith)
given_back (some pending) manager n e h =
    let same : nonce_from pending manager ≡ n = some-inj e in
    let low : pending ≤ nonce_from pending manager = pending-le manager in
    subst
      (λ k.
        (next_nonce (some pending) (release k (next_nonce (some pending) manager).1)).0 ≡ some k)
      same (release-next_nonce pending pending manager (omega (arith, same)) low)
  where
    pending-le : (m : NonceManager) → pending ≤ nonce_from pending m
    pending-le none = omega arith
    pending-le (some k) = ground arith

next_nonce-none :
    (pending : Option ℕ) (manager : NonceManager)
    → (next_nonce pending manager).0 ≡ none
    → (next_nonce pending manager).1 ≡ manager
unfolding next_nonce
next_nonce-none none manager e = refl
next_nonce-none (some pending) manager e = absurd (ground arith)

module _ (env : Environment) (cfg : Config) where
  transact-release :
      (q : Priced) (n : ℕ) (m : NonceManager)
      → is_sent (transact env cfg q n m).decision ≡ false
      → (transact env cfg q n m).manager ≡ release n m
  unfolding transact broadcast
  transact-release q n m h = ground arith

  finish-nonce :
      (manager : NonceManager) (q : Priced)
      → ((n : ℕ) → (next_nonce env.pending manager).0 ≡ some n → n + 1 < u64)
      → is_sent (finish env cfg manager q).decision ≡ false
      → (next_nonce env.pending (finish env cfg manager q).manager).0
        ≡ (next_nonce env.pending manager).0
  unfolding finish
  finish-nonce manager q fits h = elim (Bool-cases (broadcast_off cfg)) [
    | inl off ↦ rw (off, finish) refl
    | inr on ↦ elim (Option-cases (next_nonce env.pending manager).0) [
      | inl lost ↦ rw (on, lost, finish) (rw (next_nonce-none env.pending manager lost) lost)
      | inr (n, got) ↦
          let unsent = rw (on, got, finish) at h in
          let back = transact-release q n (next_nonce env.pending manager).1 unsent in
          rw (on, got, finish) (rw back (given_back env.pending manager n got (fits n got)))
    ]
  ]

-- A run that sends nothing keeps its nonce: unless the node took the transaction, the next run is
-- given the same nonce for the same pending count, whether this one reserved it or not. The reserved
-- nonce and its successor fit in 64 bits.
pub process-next_nonce :
    (env : Environment) (cfg : Config) (opp : Option Opportunity) (manager : NonceManager)
    → ((n : ℕ) → (next_nonce env.pending manager).0 ≡ some n → n + 1 < u64)
    → is_sent (process env cfg opp manager).decision ≡ false
    → (next_nonce env.pending (process env cfg opp manager).manager).0
      ≡ (next_nonce env.pending manager).0
unfolding process
process-next_nonce env cfg opp manager fits h = elim (stage_cases (gates env cfg opp manager)) [
  | inl (d, es, e) ↦ rw (e, process) refl
  | inr (q, es, e) ↦
      let unsent = rw (e, process) at h in
      rw (e, process) (finish-nonce env cfg manager q fits unsent)
]
