-- ===== src/Execution/Gates/Passed.antt =====
-- What each stage before the broadcast has established when it passes (pipeline.go).
use titanarb_engine.Base.{
  ℕ, ◌≡◌, refl, ◌⊎◌, inl, inr, true, false, Option, none, some, List, [], ◌∷◌, ◌++◌, arith,
  Bool-cases, Option-cases, sum_cases, subst,
}
use titanarb_engine.Base.Dict.{lookup}
use titanarb_engine.Pricing.{value, evaluate}
use titanarb_engine.Wallet.{NonceManager, next_nonce}
use titanarb_engine.Opportunity.{Opportunity}
use titanarb_engine.Execution.{validate, candidate_is_fresh}
use titanarb_engine.Execution.Build.{Config, build_request, first_symbol}
use titanarb_engine.Execution.Pipeline.{
  Environment, Event, Decision, Stage, stopped, passed, then_stage, Prepared, admit, prepare,
}
use titanarb_engine.Execution.Pipeline.Pricing.{Priced, price, simulate, aave_premium, inputs_of}
use titanarb_engine.Execution.Pipeline.Broadcast.{broadcast_off, broadcast, transact, finish}
use titanarb_engine.Execution.Gates.{sends_of}

passed-inj : {A : Type 0} {a b : A} {xs ys : List Event} → passed a xs ≡ passed b ys → a ≡ b
passed-inj e = cc

pub then_stage-passed :
    {A B : Type 0} (s : Stage A) (f : A → Stage B) (b : B) (es : List Event)
    → then_stage s f ≡ passed b es
    → (a : A) × (xs : List Event) × (ys : List Event) × (s ≡ passed a xs) × (f a ≡ passed b ys)
then_stage-passed (stopped d xs) f b es e = absurd (ground arith)
then_stage-passed {A = A} {B = B} (passed a xs) f b es e =
    let (ys, same, rest) = second (f a) e in (a, xs, ys, same, rest)
  where
    second :
        (t : Stage B)
        → elim t [ stopped d fs ↦ stopped d (xs ++ fs) | passed c fs ↦ passed c (xs ++ fs) ]
          ≡ passed b es
        → (ys : List Event) × (◌≡◌ {A = Stage A} (passed a xs) (passed a xs)) × (t ≡ passed b ys)
    second (stopped d fs) g = absurd (ground arith)
    second (passed c fs) g = (fs, refl, cc)

module _ (env : Environment) (cfg : Config) where
  pub admit-passed :
      (opp : Opportunity) (es : List Event) (observed : ℕ)
      → admit env cfg (some opp) ≡ passed tt es
      → env.observed ≡ some observed
      → candidate_is_fresh opp.source_block observed cfg.max_candidate_staleness_blocks ≡ true
  unfolding admit
  admit-passed opp es observed e o =
      elim (Bool-cases
        (candidate_is_fresh opp.source_block observed cfg.max_candidate_staleness_blocks)) [
          | inl fresh ↦ fresh
          | inr stale ↦ let e' = rw (o, stale, admit) at e in absurd (ground arith)
        ]

  pub prepare-passed :
      (opp : Option Opportunity) (p : Prepared) (es : List Event)
      → prepare env cfg opp ≡ passed p es
      → (opp ≡ some p.opportunity)
        × (env.is_safe ≡ true)
        × (build_request env.parser cfg env.timestamp opp ≡ inr p.request)
        × (validate p.request ≡ none)
        × (env.pack p.request ≡ some p.calldata)
  unfolding prepare
  prepare-passed none p es e = absurd (ground arith)
  prepare-passed (some opp) p es e = elim (Bool-cases env.is_safe) [
    | inr s ↦ let e' = rw (s, prepare) at e in absurd (ground arith)
    | inl s ↦ elim (sum_cases (build_request env.parser cfg env.timestamp (some opp))) [
      | inl (x, b) ↦ let e' = rw (s, b, prepare) at e in absurd (ground arith)
      | inr (r, b) ↦ elim (Option-cases (validate r)) [
        | inr (x, v) ↦ let e' = rw (s, b, v, prepare) at e in absurd (ground arith)
        | inl v ↦ elim (Option-cases (env.pack r)) [
          | inl c ↦ let e' = rw (s, b, v, c, prepare) at e in absurd (ground arith)
          | inr (d, c) ↦
              let e' = rw (s, b, v, c, prepare) at e in
              subst
                (λ (t : Prepared).
                  (some opp ≡ some t.opportunity)
                  × (env.is_safe ≡ true)
                  × (build_request env.parser cfg env.timestamp (some opp) ≡ inr t.request)
                  × (validate t.request ≡ none)
                  × (env.pack t.request ≡ some t.calldata))
                (passed-inj e') (refl, s, b, v, c)
        ]
      ]
    ]
  ]

  pub price-passed :
      (p : Prepared) (q : Priced) (es : List Event)
      → price env cfg p ≡ passed q es
      → (simulate env p.calldata ≡ some q.simulation)
        × (aave_premium env.premium (value p.request.amount) ≡ some q.premium)
        × (lookup (first_symbol p.opportunity.route.symbols) cfg.tokens ≡ some q.asset)
        × ((evaluate (inputs_of p q.simulation q.premium q.asset)).profitable ≡ true)
  unfolding price
  price-passed p q es e = elim (Option-cases (simulate env p.calldata)) [
    | inl s ↦ let e' = rw (s, price) at e in absurd (ground arith)
    | inr (sim, s) ↦ elim (Option-cases (aave_premium env.premium (value p.request.amount))) [
      | inl a ↦ let e' = rw (s, a, price) at e in absurd (ground arith)
      | inr (premium, a) ↦
          elim (Option-cases (lookup (first_symbol p.opportunity.route.symbols) cfg.tokens)) [
            | inl t ↦ let e' = rw (s, a, t, price) at e in absurd (ground arith)
            | inr (asset, t) ↦
                elim (Bool-cases (evaluate (inputs_of p sim premium asset)).profitable) [
                  | inr g ↦ let e' = rw (s, a, t, g, price) at e in absurd (ground arith)
                  | inl g ↦
                      let e' = rw (s, a, t, g, price) at e in
                      subst
                        (λ (k : Priced).
                          (simulate env p.calldata ≡ some k.simulation)
                          × (aave_premium env.premium (value p.request.amount) ≡ some k.premium)
                          × (lookup (first_symbol p.opportunity.route.symbols) cfg.tokens
                              ≡ some k.asset)
                          × ((evaluate (inputs_of p k.simulation k.premium k.asset)).profitable
                              ≡ true))
                        (passed-inj e') (s, a, t, g)
                ]
          ]
    ]
  ]

  transact-sends :
      (q : Priced) (n : ℕ) (m : NonceManager)
      → (sends_of (transact env cfg q n m).events ≡ [])
        ⊎ (sends_of (transact env cfg q n m).events ≡ n ∷ [])
  unfolding transact broadcast
  transact-sends q n m = ground arith

  pub finish-sends :
      (manager : NonceManager) (q : Priced)
      → (sends_of (finish env cfg manager q).events ≡ [])
        ⊎ ((n : ℕ) × (sends_of (finish env cfg manager q).events ≡ n ∷ [])
            × (broadcast_off cfg ≡ false)
            × ((next_nonce env.pending manager).0 ≡ some n))
  unfolding finish
  finish-sends manager q = elim (Bool-cases (broadcast_off cfg)) [
    | inl off ↦ inl (rw (off, finish) refl)
    | inr on ↦ elim (Option-cases (next_nonce env.pending manager).0) [
      | inl lost ↦ inl (rw (on, lost, finish) refl)
      | inr (n, got) ↦ elim (transact-sends q n (next_nonce env.pending manager).1) [
        | inl nothing ↦ inl (rw (on, got, finish) nothing)
        | inr one ↦ inr (n, rw (on, got, finish) one, on, got)
      ]
    ]
  ]

pub stage_cases :
    {A : Type 0} (s : Stage A)
    → ((d : Decision) × (es : List Event) × (s ≡ stopped d es))
      ⊎ ((a : A) × (es : List Event) × (s ≡ passed a es))
stage_cases (stopped d es) = inl (d, es, refl)
stage_cases (passed a es) = inr (a, es, refl)
