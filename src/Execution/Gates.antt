-- ===== src/Execution/Gates.antt =====
-- The gates of the pipeline send nothing (Process of pipeline.go).
pub mod Passed
pub mod Cleared
pub mod Nonce
use titanarb_engine.Base.{
  ℕ, ◌≡◌, refl, sym, ap, ◌∙◌, ◌⊎◌, inl, inr, Bool, true, false, not, ◌||◌, Option, none, some, List,
  [], ◌∷◌, ◌++◌, Text, bytes, arith, Bool-cases, Option-cases, sum_cases, some-inj, inr-inj,
  text_eq, text_eq_iff, subst,
}
use titanarb_engine.Base.Int.{ℤ, pos}
use titanarb_engine.Base.Dict.{lookup}
use titanarb_engine.Pricing.{value, evaluate}
use titanarb_engine.Wallet.{NonceManager, next_nonce}
use titanarb_engine.Opportunity.{Opportunity}
use titanarb_engine.Execution.{Request, validate, candidate_is_fresh, candidate_block_lag}
use titanarb_engine.Execution.Validation.{IsExecutable, validate_iff}
use titanarb_engine.Execution.Build.{Config, Token, build_request, first_symbol}
use titanarb_engine.Execution.Pipeline.{
  Environment, Event, Decision, Outcome, Simulation, Stage, stopped, passed, then_stage, Prepared,
  admit, prepare, sends, stale_rejected, lag1_admitted, lag2_admitted, simulation_attempted,
  simulation_failed, post_gas_rejected, transaction_broadcast, transaction_failed,
  transaction_succeeded, recorded,
}
use titanarb_engine.Execution.Pipeline.Pricing.{Priced, price, simulate, aave_premium, inputs_of}
use titanarb_engine.Execution.Pipeline.Broadcast.{
  broadcast_off, broadcast, transact, finish, process,
}

-- The nonces of the transactions that are handed to the node.
abbrev pub sends_of : List Event → List ℕ
sends_of [] = []
sends_of (sends n ∷ es) = n ∷ sends_of es
sends_of (_ ∷ es) = sends_of es

pub sends_of-append : (xs ys : List Event) → sends_of (xs ++ ys) ≡ sends_of xs ++ sends_of ys
sends_of-append [] ys = refl
sends_of-append (sends n ∷ xs) ys = ap (◌∷◌ n) (sends_of-append xs ys)
sends_of-append (stale_rejected ∷ xs) ys = sends_of-append xs ys
sends_of-append (lag1_admitted ∷ xs) ys = sends_of-append xs ys
sends_of-append (lag2_admitted ∷ xs) ys = sends_of-append xs ys
sends_of-append (simulation_attempted ∷ xs) ys = sends_of-append xs ys
sends_of-append (simulation_failed ∷ xs) ys = sends_of-append xs ys
sends_of-append (post_gas_rejected ∷ xs) ys = sends_of-append xs ys
sends_of-append (transaction_broadcast ∷ xs) ys = sends_of-append xs ys
sends_of-append (transaction_failed ∷ xs) ys = sends_of-append xs ys
sends_of-append (transaction_succeeded ∷ xs) ys = sends_of-append xs ys
sends_of-append (recorded t ∷ xs) ys = sends_of-append xs ys

-- Nothing is sent in a stage.
abbrev pub IsQuiet : {A : Type 0} → Stage A → Type 0
IsQuiet (stopped d es) = sends_of es ≡ []
IsQuiet (passed a es) = sends_of es ≡ []

pub then_stage-IsQuiet :
    {A B : Type 0} (s : Stage A) (f : A → Stage B)
    → IsQuiet s
    → ((a : A) → IsQuiet (f a))
    → IsQuiet (then_stage s f)
then_stage-IsQuiet (stopped d es) f q r = q
then_stage-IsQuiet {B = B} (passed a es) f q r = joined (f a) (r a)
  where
    joined :
        (t : Stage B)
        → IsQuiet t
        → IsQuiet
            (elim t [ stopped d fs ↦ stopped d (es ++ fs) | passed b fs ↦ passed b (es ++ fs) ])
    joined (stopped d fs) p = sends_of-append es fs ∙ rw (q, p)
    joined (passed b fs) p = sends_of-append es fs ∙ rw (q, p)

module _ (env : Environment) (cfg : Config) where
  pub admit-IsQuiet : (opp : Option Opportunity) → IsQuiet (admit env cfg opp)
  unfolding admit
  admit-IsQuiet none = refl
  admit-IsQuiet (some opp) = elim (Option-cases env.observed) [
    | inl e ↦ rw (e, admit) refl
    | inr (b, e) ↦
        elim (Bool-cases
          (candidate_is_fresh opp.source_block b cfg.max_candidate_staleness_blocks)) [
            | inl fresh ↦ rw (e, fresh, admit) (ground arith)
            | inr stale ↦ rw (e, stale, admit) refl
          ]
  ]

  pub prepare-IsQuiet : (opp : Option Opportunity) → IsQuiet (prepare env cfg opp)
  unfolding prepare
  prepare-IsQuiet none = refl
  prepare-IsQuiet (some opp) = elim (Bool-cases env.is_safe) [
    | inr e ↦ rw (e, prepare) refl
    | inl e ↦ elim (sum_cases (build_request env.parser cfg env.timestamp (some opp))) [
      | inl (x, b) ↦ rw (e, b, prepare) refl
      | inr (r, b) ↦ elim (Option-cases (validate r)) [
        | inr (x, v) ↦ rw (e, b, v, prepare) refl
        | inl v ↦ elim (Option-cases (env.pack r)) [
          | inl c ↦ rw (e, b, v, c, prepare) refl
          | inr (d, c) ↦ rw (e, b, v, c, prepare) refl
        ]
      ]
    ]
  ]

  pub price-IsQuiet : (p : Prepared) → IsQuiet (price env cfg p)
  unfolding price
  price-IsQuiet p = elim (Option-cases (simulate env p.calldata)) [
    | inl e ↦ rw (e, price) refl
    | inr (sim, e) ↦ elim (Option-cases (aave_premium env.premium (value p.request.amount))) [
      | inl a ↦ rw (e, a, price) refl
      | inr (premium, a) ↦
          elim (Option-cases (lookup (first_symbol p.opportunity.route.symbols) cfg.tokens)) [
            | inl t ↦ rw (e, a, t, price) refl
            | inr (asset, t) ↦
                elim (Bool-cases (evaluate (inputs_of p sim premium asset)).profitable) [
                  | inl g ↦ rw (e, a, t, g, price) refl
                  | inr g ↦ rw (e, a, t, g, price) refl
                ]
          ]
    ]
  ]
