-- ===== src/Execution/Gates/Cleared.antt =====
-- What has to hold before the pipeline sends a transaction (Process of pipeline.go).
use titanarb_engine.Base.{
  Text, sym, Option-cases, none-ne-some, some-inj, refl, Bool, ◌&&◌, ℕ, ◌≡◌, ◌∙◌, ◌⊎◌, inl, inr,
  true, false, Option, some, List, [], ◌∷◌, bytes, arith, text_eq_iff, subst,
}
use titanarb_engine.Base.Int.{ℤ, pos, ◌-ℤ◌, ◌*ℤ◌, ltb_ℤ}
use titanarb_engine.Dex.{word_uint}
use titanarb_engine.Fees.{response_words}
use titanarb_engine.Pricing.{value, evaluate}
use titanarb_engine.Base.Dict.{lookup}
use titanarb_engine.Wallet.{NonceManager, next_nonce}
use titanarb_engine.Opportunity.{Opportunity}
use titanarb_engine.Execution.{Request, candidate_is_fresh}
use titanarb_engine.Execution.Validation.{IsExecutable, validate_iff}
use titanarb_engine.Execution.Build.{Config, Token, build_request, first_symbol, div_floor}
use titanarb_engine.Execution.Pipeline.{
  Environment, Event, Prepared, Simulation, Stage, passed, then_stage, admit, prepare,
}
use titanarb_engine.Execution.Pipeline.Pricing.{
  Priced, price, simulate, aave_premium, inputs_of, fee_to_base_raw, last_amount,
}
use titanarb_engine.Execution.Pipeline.Broadcast.{broadcast_off, finish, process}
use titanarb_engine.Execution.Gates.{
  sends_of, sends_of-append, IsQuiet, then_stage-IsQuiet, admit-IsQuiet, prepare-IsQuiet,
  price-IsQuiet,
}
use titanarb_engine.Execution.Gates.Passed.{
  then_stage-passed, admit-passed, prepare-passed, price-passed, finish-sends, stage_cases,
}

-- The output of the last hop, less the loan, its premium and the two fees of the simulation, which are
-- converted with the decimals of the loan asset, is above the minimum profit; and it is positive.
abbrev pub ExceedsMinimum : Opportunity → Request → Simulation → ℤ → Token → Type 0
ExceedsMinimum candidate request sim premium asset =
    let l2 = fee_to_base_raw sim.fee.l2_cost sim.fee.total_usd sim.fee.total_eth asset.decimals in
    let l1 = fee_to_base_raw sim.fee.l1_cost sim.fee.total_usd sim.fee.total_eth asset.decimals in
    (ltb_ℤ (value request.min_profit)
        (last_amount candidate.hops -ℤ value request.amount -ℤ premium -ℤ l2 -ℤ l1)
      ≡ true)
    × (ltb_ℤ (pos 0) (last_amount candidate.hops) ≡ true)

evaluate-ExceedsMinimum :
    (p : Prepared) (sim : Simulation) (premium : ℤ) (asset : Token)
    → (evaluate (inputs_of p sim premium asset)).profitable ≡ true
    → ExceedsMinimum p.opportunity p.request sim premium asset
unfolding evaluate
evaluate-ExceedsMinimum p sim premium asset h = both _ _ h
  where
    both : (a b : Bool) → (a && b) ≡ true → (a ≡ true) × (b ≡ true)
    both true b h = (refl, h)
    both false b h = absurd (ground arith)

-- The premium is the node's basis points of the amount, rounded down.
abbrev pub IsPremium : Option Text → ℤ → ℤ → Type 0
IsPremium response amount premium =
    (w : List ℕ) × (ws : List (List ℕ)) × (response_words response ≡ some (w ∷ ws))
    × (premium ≡ div_floor (amount *ℤ pos (word_uint w)) 10000)

aave_premium-IsPremium :
    (response : Option Text) (amount premium : ℤ)
    → aave_premium response amount ≡ some premium
    → IsPremium response amount premium
unfolding aave_premium
aave_premium-IsPremium response amount premium h = elim (Option-cases (response_words response)) [
  | inl lost ↦ absurd (none-ne-some (rw (lost, aave_premium) at h))
  | inr ([], e) ↦ absurd (none-ne-some (rw (e, aave_premium) at h))
  | inr (w ∷ ws, e) ↦ (w, ws, e, sym (some-inj (rw (e, aave_premium) at h)))
]

-- Everything that was established when a transaction is sent.
pub record IsCleared (env : Environment) (cfg : Config) (opp : Option Opportunity)
    (manager : NonceManager) (n : ℕ) : Type 0 where
  pub candidate : Opportunity
  pub given : opp ≡ some candidate
  pub fresh :
      (observed : ℕ)
      → env.observed ≡ some observed
      → candidate_is_fresh candidate.source_block observed cfg.max_candidate_staleness_blocks ≡ true
  pub safe : env.is_safe ≡ true
  pub request : Request
  pub built : build_request env.parser cfg env.timestamp opp ≡ inr request
  pub executable : IsExecutable request
  pub calldata : List ℕ
  pub packed : env.pack request ≡ some calldata
  pub simulation : Simulation
  pub simulated_ok : simulate env calldata ≡ some simulation
  pub premium : ℤ
  pub premium_read : IsPremium env.premium (value request.amount) premium
  pub asset : Token
  pub configured : lookup (first_symbol candidate.route.symbols) cfg.tokens ≡ some asset
  pub profitable : ExceedsMinimum candidate request simulation premium asset
  pub live :
      (cfg.dry_run ≡ false) × (cfg.execution_mode ≡ bytes "live") × (cfg.broadcast_enabled ≡ true)
  pub nonce : (next_nonce env.pending manager).0 ≡ some n

module _ (env : Environment) (cfg : Config) (opp : Option Opportunity)
    (manager : NonceManager) where
  -- The gates before the broadcast.
  abbrev pub gates : Stage Priced
  gates = then_stage (then_stage (admit env cfg opp) (λ _. prepare env cfg opp)) (price env cfg)

  gates-IsQuiet : IsQuiet gates
  gates-IsQuiet =
      then_stage-IsQuiet _ (price env cfg)
        (then_stage-IsQuiet (admit env cfg opp) (λ _. prepare env cfg opp)
          (admit-IsQuiet env cfg opp) (λ _. prepare-IsQuiet env cfg opp))
        (price-IsQuiet env cfg)

  gates-IsCleared :
      (q : Priced) (es : List Event) (n : ℕ)
      → gates ≡ passed q es
      → broadcast_off cfg ≡ false
      → (next_nonce env.pending manager).0 ≡ some n
      → IsCleared env cfg opp manager n
  gates-IsCleared q es n e on got =
      let (p, xs, ys, first, third) = then_stage-passed _ (price env cfg) q es e in
      let (u, vs, ws, start, second) =
        then_stage-passed (admit env cfg opp) (λ _. prepare env cfg opp) p xs first in
      let (given, safe, built, valid, packed) = prepare-passed env cfg opp p ws second in
      let (ok, premium, configured, profit) = price-passed env cfg p q ys third in
      record {
        candidate = p.opportunity;
        given = given;
        fresh = λ observed o.
            admit-passed env cfg p.opportunity vs observed
              (subst (λ t. admit env cfg t ≡ passed tt vs) given start) o;
        safe = safe;
        request = p.request;
        built = built;
        executable = (validate_iff p.request).0 valid;
        calldata = p.calldata;
        packed = packed;
        simulation = q.simulation;
        simulated_ok = ok;
        premium = q.premium;
        premium_read =
            aave_premium-IsPremium env.premium (value p.request.amount) q.premium premium;
        asset = q.asset;
        configured = configured;
        profitable = evaluate-ExceedsMinimum p q.simulation q.premium q.asset profit;
        live = (ground arith, (text_eq_iff _ _).0 (ground arith), ground arith);
        nonce = got;
      }

-- A run sends at most one transaction. When it sends one, then with the nonce that the wallet
-- reserved, and only after every gate: the candidate is fresh for the latest observed block, the
-- safety gate passed, the request was built from the candidate and is executable, the simulation of
-- its calldata succeeded, the output of the candidate's last hop, less the loan, its premium and the
-- simulated fees, converted with the decimals of the configured loan asset, exceeds the minimum profit,
-- and live broadcasting is switched on.
pub process-IsCleared :
    (env : Environment) (cfg : Config) (opp : Option Opportunity) (manager : NonceManager)
    → (sends_of (process env cfg opp manager).events ≡ [])
      ⊎ ((n : ℕ) × (sends_of (process env cfg opp manager).events ≡ n ∷ [])
          × IsCleared env cfg opp manager n)
unfolding process
process-IsCleared env cfg opp manager = elim (stage_cases (gates env cfg opp manager)) [
  | inl (d, es, e) ↦
      let quiet = gates-IsQuiet env cfg opp manager in inl (rw (e, process) (rw e at quiet))
  | inr (q, es, e) ↦
      let quiet = gates-IsQuiet env cfg opp manager in
      let silent : sends_of es ≡ [] = rw e at quiet in
      let joined = sends_of-append es (finish env cfg manager q).events in
      elim (finish-sends env cfg manager q) [
        | inl nothing ↦ inl (rw (e, process) (joined ∙ rw (silent, nothing)))
        | inr (n, one, on, got) ↦ inr (
          n,
          rw (e, process) (joined ∙ rw (silent, one)),
          gates-IsCleared env cfg opp manager q es n e on got,
        )
      ]
]
