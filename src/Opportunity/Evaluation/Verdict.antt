-- ===== src/Opportunity/Evaluation/Verdict.antt =====
-- The opportunity and the event that an evaluation produces (engine.go).
use titanarb_engine.Base.{
  ℕ, ◌+◌, ◌<◌, ◌≤◌, ◌≡◌, refl, sym, ap, Bool, true, false, ◌&&◌, Option, none, some, ◌⊎◌, inl, inr,
  List, [], ◌∷◌, ◌++◌, length, Text, bytes, sum_cases, inr-inj, subst, inl-ne-inr, Bool-cases,
  arith, ltb, ltb→lt, if◌then◌else◌,
}
use titanarb_engine.Base.Int.{ℤ, pos, ◌-ℤ◌, ltb_ℤ}
use titanarb_engine.Pricing.{evaluate}
use titanarb_engine.Routes.{Route}
use titanarb_engine.Opportunity.{Opportunity}
use titanarb_engine.Opportunity.Sampling.{
  Engine, EvalError, Moment, Sample, invalid_route, not_loan_asset, unsupported_pool,
  unsupported_dex, unknown_token, premium_failed, cost_failed, quoter_error,
}
use titanarb_engine.Opportunity.Evaluation.{
  EvalState, EngineEvent, Counters, found, rejected, event_capacity, count_route, quote_failed,
  appraise, priced, opportunity_of, evaluate_silent, evaluate_route, route_source_block,
  count_metrics, verdict, after_error, emit,
}
use titanarb_engine.Opportunity.Evaluation.Sampled.{IsSampled, appraise-IsSampled, appraise_quiet}

-- What the fields of an opportunity say of a sample, with its profit after the premium and the fees.
pub record Reports (e : Engine) (route : Route) (amount : ℤ) (x : Sample) (o : Opportunity)
    : Type 0 where
  pub of_route : o.route ≡ route
  pub starts : o.amount_in ≡ amount
  pub ends : o.amount_out ≡ some x.out
  pub trades : o.hops ≡ x.hops
  pub gross : o.gross_profit ≡ some (x.out -ℤ amount)
  pub premium : o.aave_premium ≡ some x.premium
  pub net : o.expected_profit ≡ some (x.out -ℤ amount -ℤ x.premium -ℤ x.l2 -ℤ x.l1)
  pub fees : (o.gas_estimate ≡ some x.l2) × (o.l1_data_fee ≡ some x.l1)

-- The test of the profit.
abbrev pub pays : Engine → ℤ → Sample → Bool
pays e amount x =
    ltb_ℤ e.min_profit (x.out -ℤ amount -ℤ x.premium -ℤ x.l2 -ℤ x.l1) && ltb_ℤ (pos 0) x.out

opportunity_of-Reports :
    (e : Engine) (t : Moment) (route : Route) (amount : ℤ) (source : ℕ) (confidence : Text)
    (x : Sample)
    → Reports e route amount x (opportunity_of e t route amount source confidence x)
unfolding opportunity_of priced evaluate
opportunity_of-Reports e t route amount source confidence x = record {
  of_route = refl;
  starts = refl;
  ends = refl;
  trades = refl;
  gross = refl;
  premium = refl;
  net = refl;
  fees = (refl, refl);
}

-- A result of EvaluateSilent or Evaluate.
abbrev pub IsAppraised : Engine → Moment → Route → ℤ → EvalState → Opportunity → Type 0
IsAppraised e t route amount s o =
    (x : Sample) × IsSampled e t route amount s x × Reports e route amount x o

silent_result :
    (e : Engine) (t : Moment) (route : Route) (amount : ℤ) (s : EvalState) (o : Opportunity)
    → (evaluate_silent e t route amount s).0 ≡ inr o
    → IsAppraised e t route amount s o
unfolding evaluate_silent
silent_result e t route amount s o eq = elim (sum_cases (appraise e t route amount s).0) [
  | inl (failed, k) ↦ absurd (inl-ne-inr (rw (k, evaluate_silent) at eq))
  | inr (x, k) ↦ (
    x,
    appraise-IsSampled e t route amount s x k,
    subst (Reports e route amount x) (inr-inj (rw (k, evaluate_silent) at eq))
        (opportunity_of-Reports e t route amount 0 (bytes "optimizer_sample") x),
  )
]

-- An opportunity that Evaluate or EvaluateSilent returns for a route and an amount is one of a route
-- of 2 to 4 hops from a loan asset back to it; its hops go through the pools of the route in order,
-- each pool supports the tokens of its hop, and each hop enters with what the one before gave, the first
-- with the amount, and gives what the quoter of its DEX answers to the request for it or what the cache
-- holds for this request. Its profit is what the last hop gave less the amount, the premium and the
-- fees estimated for these hops; the premium is rounded down from the basis points that the node
-- answers or that were kept and have not expired.
pub evaluate-IsAppraised :
    (e : Engine) (t : Moment) (route : Route) (amount : ℤ) (s : EvalState) (o : Opportunity)
    → ((evaluate_route e t route amount s).0 ≡ inr o)
      ⊎ ((evaluate_silent e t route amount s).0 ≡ inr o)
    → IsAppraised e t route amount s o
unfolding evaluate_route
evaluate-IsAppraised e t route amount s o (inr eq) = silent_result e t route amount s o eq
evaluate-IsAppraised e t route amount s o (inl eq) =
    elim (sum_cases (appraise e t route amount s).0) [
      | inl (failed, k) ↦ absurd (inl-ne-inr (rw (k, evaluate_route) at eq))
      | inr (x, k) ↦ (
        x,
        appraise-IsSampled e t route amount s x k,
        subst (Reports e route amount x) (inr-inj (rw (k, evaluate_route) at eq)) (
            opportunity_of-Reports e t route amount (route_source_block route)
              (bytes "pre_simulation") x),
      )
    ]

-- The channel of events holds 4096 of them: one more event is sent, or dropped if the channel is full.
abbrev pub Published : EngineEvent → List EngineEvent → List EngineEvent → Type 0
Published event before after =
    ((length before < 4096) × (after ≡ before ++ event ∷ []))
    ⊎ ((4096 ≤ length before) × (after ≡ before))

-- One more evaluated route and `more` opportunities, if the counters are kept at all.
abbrev pub Counted : ℕ → Option Counters → Option Counters → Type 0
Counted more none after = after ≡ none
Counted more (some c) after =
    after
    ≡ some (record {
      routes_evaluated = c.routes_evaluated + 1;
      opportunities = c.opportunities + more;
    })

-- The events and the counters of an opportunity.
abbrev pub Judged : Bool → Opportunity → EvalState → EvalState → Type 0
Judged true o s s' =
    Published (record { type = found; opportunity = some o; reason = []; timestamp = o.timestamp })
      s.events s'.events
    × Counted 1 s.metrics s'.metrics
Judged false o s s' =
    Published
      (record {
        type = rejected;
        opportunity = some o;
        reason = bytes "profitability threshold not met";
        timestamp = o.timestamp;
      })
      s.events s'.events
    × Counted 0 s.metrics s'.metrics

-- The event of an outcome, and the counters.
abbrev pub Announced :
    Engine → Moment → Route → ℤ → EvalState → (EvalError ⊎ Opportunity) × EvalState → Type 0
Announced e t route amount s (inl (quoter_error m), s') =
    Published
      (record { type = quote_failed; opportunity = none; reason = m; timestamp = t.timestamp })
      s.events s'.events
    × (s'.metrics ≡ s.metrics)
Announced e t route amount s (inl _, s') = (s'.events ≡ s.events) × (s'.metrics ≡ s.metrics)
Announced e t route amount s (inr o, s') =
    (x : Sample) × Reports e route amount x o × Judged (pays e amount x) o s s'

emit_lem :
    (event : EngineEvent) (events : List EngineEvent) → Published event events (emit event events)
unfolding emit
emit_lem event events = elim (Bool-cases (ltb (length events) event_capacity)) [
  | inl room ↦ rw (room, emit) (inl (ltb→lt (length events) event_capacity room, refl))
  | inr full ↦
      let many : event_capacity ≤ length events = ground arith in rw (full, emit) (inr (many, refl))
]

count_lem :
    (more : ℕ) (profitable : Bool) (metrics : Option Counters)
    → (if profitable then 1 else 0) ≡ more
    → Counted more metrics (count_metrics profitable metrics)
unfolding count_route
count_lem more profitable none h = refl
count_lem more true (some c) h = rw (sym h) refl
count_lem more false (some c) h =
    let same : c.opportunities ≡ c.opportunities + more = ground (arith, h) in
    ap (λ n. some (record { routes_evaluated = c.routes_evaluated + 1; opportunities = n })) same

judged_lem :
    (profitable : Bool) (o : Opportunity) (s s' : EvalState)
    → s'.events ≡ emit (verdict profitable o) s.events
    → s'.metrics ≡ count_metrics profitable s.metrics
    → Judged profitable o s s'
unfolding verdict
judged_lem true o s s' h k = (
  subst (Published (verdict true o) s.events) (sym h) (emit_lem (verdict true o) s.events),
  subst (Counted 1 s.metrics) (sym k) (count_lem 1 true s.metrics refl),
)
judged_lem false o s s' h k = (
  subst (Published (verdict false o) s.events) (sym h) (emit_lem (verdict false o) s.events),
  subst (Counted 0 s.metrics) (sym k) (count_lem 0 false s.metrics refl),
)

announce_error :
    (e : Engine) (t : Moment) (route : Route) (amount : ℤ) (s s' : EvalState) (failed : EvalError)
    → s'.events ≡ s.events
    → s'.metrics ≡ s.metrics
    → Announced e t route amount s
        (inl failed, record s' { events = after_error t failed s'.events })
unfolding after_error
announce_error e t route amount s s' (quoter_error m) h k =
    let event : EngineEvent = record {
      type = quote_failed;
      opportunity = none;
      reason = m;
      timestamp = t.timestamp;
    } in
    (rw h (emit_lem event s.events), k)
announce_error e t route amount s s' invalid_route h k = (h, k)
announce_error e t route amount s s' not_loan_asset h k = (h, k)
announce_error e t route amount s s' unsupported_pool h k = (h, k)
announce_error e t route amount s s' unsupported_dex h k = (h, k)
announce_error e t route amount s s' (unknown_token m) h k = (h, k)
announce_error e t route amount s s' (premium_failed m) h k = (h, k)
announce_error e t route amount s s' (cost_failed m) h k = (h, k)

-- Evaluate announces each outcome by exactly one event, unless the channel holds 4096 events and drops
-- it: an opportunity as found if its profit is above the minimum and it gives something back, as
-- rejected for the threshold if not, and a quote that failed with its reason; any other error is not
-- announced. The metrics, if there are any, count one more route for an opportunity, and one more
-- opportunity exactly if it is found; for an error they stay as they are.
pub evaluate_route-Announced :
    (e : Engine) (t : Moment) (route : Route) (amount : ℤ) (s : EvalState)
    → Announced e t route amount s (evaluate_route e t route amount s)
unfolding evaluate_route priced evaluate
evaluate_route-Announced e t route amount s =
    let (events, metrics) = appraise_quiet e t route amount s in
    let s' = (appraise e t route amount s).1 in
    elim (sum_cases (appraise e t route amount s).0) [
      | inl (failed, k) ↦
          rw (k, evaluate_route) (announce_error e t route amount s s' failed events metrics)
      | inr (x, k) ↦
          let o =
            opportunity_of e t route amount (route_source_block route) (bytes "pre_simulation") x in
          let paid = pays e amount x in
          let final : EvalState = record s' {
            events = emit (verdict paid o) s'.events;
            metrics = count_metrics paid s'.metrics;
          } in
          rw (k, evaluate_route)
            (
              x,
              opportunity_of-Reports e t route amount (route_source_block route)
                  (bytes "pre_simulation") x,
              judged_lem paid o s final (ap (emit (verdict paid o)) events)
                  (ap (count_metrics paid) metrics),
            )
    ]
