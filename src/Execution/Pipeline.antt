-- ===== src/Execution/Pipeline.antt =====
-- go/internal/execution/pipeline.go, Process: the gates from a candidate to a transaction, with
-- simulation/simulation.go and the checks of tx/manager.go. What the node, the other services and
-- go-ethereum answer is a record of functions; metrics and tracker entries are a list of events.
pub mod Pricing
pub mod Broadcast
pub mod Conversion
use titanarb_engine.Base.{
  ℕ, ◌+◌, ◌-◌, ◌*◌, ◌/◌, ◌%◌, ◌^◌, ◌≡◌, ◌⊎◌, inl, inr, Bool, true, false, not, ◌&&◌, ◌||◌, Option,
  none, some, List, [], ◌∷◌, ◌++◌, Text, bytes, ltb, ◌==◌, if◌then◌else◌, length, text_eq, u64,
}
use titanarb_engine.Base.Int.{ℤ, pos, negsuc, ◌*ℤ◌, pos_part, neg_part}
use titanarb_engine.Base.Dict.{lookup}
use titanarb_engine.Dex.{decode_words, word_uint}
use titanarb_engine.Pools.{positive, is_positive}
use titanarb_engine.Pricing.{Inputs, Result, evaluate}
use titanarb_engine.Wallet.{NonceManager, next_nonce, release}
use titanarb_engine.Fees.{Rat, FeeEstimate}
use titanarb_engine.Opportunity.{Hop, Opportunity}
use titanarb_engine.Execution.{
  Request, RequestError, validate, candidate_is_fresh, candidate_block_lag,
}
use titanarb_engine.Execution.Build.{
  Config, AddressParser, BuildError, Token, build_request, first_symbol, div_floor,
  invalid_opportunity,
}

pub record Simulation : Type 0 where
  pub gas_estimate : ℕ
  pub fee : FeeEstimate

pub record Environment : Type 0 where
  pub parser : AddressParser
  -- latestObservedBlock, if it is set.
  pub observed : Option ℕ
  -- Whether the safety gate lets a candidate pass.
  pub is_safe : Bool
  pub timestamp : Option Text
  -- The ABI encoding of executeArbitrage.
  pub pack : Request → Option (List ℕ)
  pub eth_call : List ℕ → Bool
  pub estimate_gas : List ℕ → Option ℕ
  pub estimate_fee : ℕ → List ℕ → Option FeeEstimate
  -- The response to FLASHLOAN_PREMIUM_TOTAL().
  pub premium : Option Text
  pub pending : Option ℕ
  pub gas_price : Option ℤ
  pub priority_fee : Option ℤ
  -- Signing and sending: nonce, gas limit, fee cap, tip cap and calldata, to a transaction hash.
  pub send : ℕ → ℕ → ℤ → ℤ → List ℕ → Option Text
  -- Whether the receipt of a transaction comes and reports success.
  pub confirms : Text → Bool

pub data Event : Type 0 where
  stale_rejected lag1_admitted lag2_admitted : Event
  simulation_attempted simulation_failed post_gas_rejected : Event
  transaction_broadcast transaction_failed transaction_succeeded : Event
  recorded : Text → Event
  -- The raw transaction with this nonce is handed to the node.
  sends : ℕ → Event

-- Why a candidate is rejected.
pub data Reason : Type 0 where
  stale_candidate unsafe packing_failed simulation_error premium_error asset_missing unprofitable :
      Reason
  build_failed : BuildError → Reason
  invalid_request : RequestError → Reason
  nonce_error gas_price_error broadcast_error : Reason

pub data Decision : Type 0 where
  rejects : Reason → Decision
  -- Simulated only.
  simulated : Decision
  -- Sent, with the transaction's hash, but not confirmed.
  sent : Text → Decision
  confirmed : Text → Decision

-- The nonce manager is the state that a run changes.
pub record Outcome : Type 0 where
  pub decision : Decision
  pub events : List Event
  pub manager : NonceManager

-- One stage ends the run or hands a value on, with the events on the way.
pub data Stage (A : Type 0) : Type 0 where
  stopped : Decision → List Event → Stage A
  passed : A → List Event → Stage A

abbrev pub then_stage : {A B : Type 0} → Stage A → (A → Stage B) → Stage B
then_stage (stopped d es) f = stopped d es
then_stage (passed a es) f = elim (f a) [
  | stopped d fs ↦ stopped d (es ++ fs)
  | passed b fs ↦ passed b (es ++ fs)
]

abbrev lag_event : ℕ → List Event
lag_event lag = if lag == 1 then lag1_admitted ∷ [] else if lag == 2 then lag2_admitted ∷ [] else []

-- The freshness gate; it is skipped without a candidate or a source of blocks.
unfoldable pub admit : Environment → Config → Option Opportunity → Stage Unit
admit env cfg none = passed tt []
admit env cfg (some opp) = elim env.observed [
  | none ↦ passed tt []
  | some observed ↦
      if candidate_is_fresh opp.source_block observed cfg.max_candidate_staleness_blocks
      then passed tt (lag_event (candidate_block_lag opp.source_block observed))
      else stopped (rejects stale_candidate) (stale_rejected ∷ [])
]

pub record Prepared : Type 0 where
  pub opportunity : Opportunity
  pub request : Request
  pub calldata : List ℕ

-- The safety gate, BuildRequest, and Calldata, which validates.
unfoldable pub prepare : Environment → Config → Option Opportunity → Stage Prepared
prepare env cfg none =
    stopped (rejects (if env.is_safe then build_failed invalid_opportunity else unsafe)) []
prepare env cfg (some opp) =
    if not env.is_safe
    then stopped (rejects unsafe) []
    else elim (build_request env.parser cfg env.timestamp (some opp)) [
      | inl e ↦ stopped (rejects (build_failed e)) []
      | inr request ↦ elim (validate request) [
        | some e ↦ stopped (rejects (invalid_request e)) []
        | none ↦ elim (env.pack request) [
          | none ↦ stopped (rejects packing_failed) []
          | some calldata ↦
              passed (record { opportunity = opp; request = request; calldata = calldata }) []
        ]
      ]
    ]
