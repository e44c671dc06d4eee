-- ===== src/Execution/Pipeline/Broadcast.antt =====
-- go/internal/execution/pipeline.go: the end of Process, and the checks of Broadcast in tx/manager.go.
use titanarb_engine.Base.{
  ℕ, ◌*◌, ◌/◌, ◌%◌, Bool, not, ◌||◌, Option, none, some, List, [], ◌∷◌, ◌++◌, Text, bytes,
  if◌then◌else◌, text_eq, u64,
}
use titanarb_engine.Base.Int.{ℤ, pos, negsuc}
use titanarb_engine.Pools.{positive}
use titanarb_engine.Wallet.{NonceManager, next_nonce, release}
use titanarb_engine.Opportunity.{Opportunity}
use titanarb_engine.Execution.Build.{Config}
use titanarb_engine.Execution.Pipeline.{
  Simulation, Environment, Event, Outcome, stopped, passed, then_stage, admit, prepare, rejects,
  simulated, sent, confirmed, transaction_failed, transaction_broadcast, transaction_succeeded,
  recorded, sends, nonce_error, gas_price_error, broadcast_error,
}
use titanarb_engine.Execution.Pipeline.Pricing.{Priced, price}

-- The tip: 0 where the node gives none, or a negative one.
abbrev pub tip : Option ℤ → ℤ
tip none = pos 0
tip (some (pos n)) = pos n
tip (some (negsuc n)) = pos 0

abbrev gas_limit : Config → Simulation → ℕ
gas_limit cfg sim = sim.gas_estimate * cfg.gas_limit_multiplier_bps % u64 / 10000

-- tx.Broadcast: it refuses a fee cap that is not positive. An event says that it signs and sends.
unfoldable pub broadcast : Environment → Config → Priced → ℕ → ℤ → Option Text × List Event
broadcast env cfg p nonce fee_cap = if not (positive fee_cap) then (none, []) else (
  env.send nonce (gas_limit cfg p.simulation) fee_cap (tip env.priority_fee) p.prepared.calldata,
  sends nonce ∷ [],
)

abbrev after_send : Environment → Text → List Event → NonceManager → Outcome
after_send env hash es m =
    if env.confirms hash
    then record {
      decision = confirmed hash;
      events =
          es
          ++ transaction_broadcast
            ∷ recorded (bytes "trade_sent")
            ∷ transaction_succeeded
            ∷ recorded (bytes "trade_success")
            ∷ [];
      manager = m;
    }
    else record {
      decision = sent hash;
      events =
          es
          ++ transaction_broadcast
            ∷ recorded (bytes "trade_sent")
            ∷ transaction_failed
            ∷ recorded (bytes "trade_failed")
            ∷ [];
      manager = m;
    }

-- With a reserved nonce.
unfoldable pub transact : Environment → Config → Priced → ℕ → NonceManager → Outcome
unfolding broadcast
transact env cfg p nonce m = elim env.gas_price [
  | none ↦ record { decision = rejects gas_price_error; events = []; manager = release nonce m }
  | some fee_cap ↦
      let (hash, es) = broadcast env cfg p nonce fee_cap in
      elim hash [
        | none ↦ record {
          decision = rejects broadcast_error;
          events = es ++ recorded (bytes "trade_failed") ∷ [];
          manager = release nonce m;
        }
        | some h ↦ after_send env h es m
      ]
]

abbrev pub broadcast_off : Config → Bool
broadcast_off cfg =
    cfg.dry_run || not (text_eq cfg.execution_mode (bytes "live")) || not cfg.broadcast_enabled

unfoldable pub finish : Environment → Config → NonceManager → Priced → Outcome
unfolding transact
finish env cfg manager p =
    if broadcast_off cfg
    then record {
      decision = simulated;
      events = recorded (bytes "simulation_succeeded") ∷ [];
      manager = manager;
    }
    else let (nonce, m) = next_nonce env.pending manager in
      elim nonce [
        | none ↦ record {
          decision = rejects nonce_error;
          events = transaction_failed ∷ [];
          manager = m;
        }
        | some n ↦ transact env cfg p n m
      ]

-- Process
unfoldable pub process : Environment → Config → Option Opportunity → NonceManager → Outcome
unfolding finish
process env cfg opp manager =
    elim (then_stage (then_stage (admit env cfg opp) (λ _. prepare env cfg opp)) (price env cfg)) [
      | stopped d es ↦ record { decision = d; events = es; manager = manager }
      | passed p es ↦ let o = finish env cfg manager p in record o { events = es ++ o.events }
    ]
