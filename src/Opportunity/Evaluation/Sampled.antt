-- ===== src/Opportunity/Evaluation/Sampled.antt =====
-- What a sample of a route consists of (engine.go).
use titanarb_engine.Base.{
  ℕ, ◌+◌, ◌<◌, ◌≤◌, ◌≡◌, ◌⊎◌, refl, sym, ap, ◌∙◌, true, some, inl, inr, List, [], ◌∷◌, length, Text,
  ltb, ltb→lt, text_eq, text_eq_iff, arith, Bool-cases, Option-cases, sum_cases, inr-inj, subst,
  inl-ne-inr,
}
use titanarb_engine.Base.Int.{ℤ, pos, ◌*ℤ◌}
use titanarb_engine.Base.Dict.{lookup}
use titanarb_engine.Routes.{Route}
use titanarb_engine.Opportunity.{Hop}
use titanarb_engine.Opportunity.Sampling.{
  Engine, Moment, Sample, PremiumState, is_bounded, quote_hops, assess, aave_premium_bps,
  fetch_premium,
}
use titanarb_engine.Opportunity.Evaluation.{EvalState, appraise}
use titanarb_engine.Opportunity.Sampling.Chain.{IsChain, quote_hops-IsChain}
use titanarb_engine.Dex.{decode_words, word_uint}
use titanarb_engine.Execution.Build.{Token, first_symbol, last_symbol, div_floor}

-- The basis points of the premium are those that are kept and not expired, or the first word that the
-- node answers.
abbrev pub IsRate : Moment → PremiumState → ℕ → Type 0
IsRate t p bps =
    ((p.bps ≡ some bps) × (t.now < p.expiry))
    ⊎ ((raw : Text) × (w : List ℕ) × (ws : List (List ℕ)) × (t.premium_raw ≡ inr raw)
        × (decode_words raw ≡ some (w ∷ ws))
        × (bps ≡ word_uint w))

-- The costs of a sample: the premium, rounded down, and the estimate for its hops.
pub record IsCosted (e : Engine) (t : Moment) (p : PremiumState) (asset : Token) (route : Route)
    (amount : ℤ) (x : Sample) : Type 0 where
  pub bps : ℕ
  pub rate : IsRate t p bps
  pub premium_lem : x.premium ≡ div_floor (amount *ℤ pos bps) 10000
  pub costs : e.cost asset route x.hops ≡ inr (x.l2, x.l1)

fetch_premium-IsRate :
    (t : Moment) (p : PremiumState) (bps : ℕ)
    → (fetch_premium t.premium_raw t.later p).0 ≡ inr bps
    → IsRate t p bps
unfolding fetch_premium
fetch_premium-IsRate t p bps h = elim (sum_cases t.premium_raw) [
  | inl (m, k) ↦ absurd (inl-ne-inr (rw (k, fetch_premium) at h))
  | inr (raw, k) ↦ elim (Option-cases (decode_words raw)) [
    | inl bad ↦ absurd (inl-ne-inr (rw (k, bad, fetch_premium) at h))
    | inr ([], e) ↦ absurd (inl-ne-inr (rw (k, e, fetch_premium) at h))
    | inr (w ∷ ws, e) ↦ inr (raw, w, ws, k, e, sym (inr-inj (rw (k, e, fetch_premium) at h)))
  ]
]

aave_premium_bps-IsRate :
    (t : Moment) (p : PremiumState) (bps : ℕ)
    → (aave_premium_bps t.premium_raw t.now t.later p).0 ≡ inr bps
    → IsRate t p bps
unfolding aave_premium_bps
aave_premium_bps-IsRate t p bps h = elim (Option-cases p.bps) [
  | inl none_kept ↦ fetch_premium-IsRate t p bps (rw (none_kept, aave_premium_bps) at h)
  | inr (b, k) ↦ elim (Bool-cases (ltb t.now p.expiry)) [
    | inr late ↦ fetch_premium-IsRate t p bps (rw (k, late, aave_premium_bps) at h)
    | inl early ↦
        let same : b ≡ bps = inr-inj (rw (k, early, aave_premium_bps) at h) in
        inl (k ∙ ap some same, ltb→lt t.now p.expiry early)
  ]
]

assess-IsCosted :
    (e : Engine) (t : Moment) (asset : Token) (route : Route) (amount : ℤ) (hops : List Hop)
    (out : ℤ) (p : PremiumState) (x : Sample)
    → (assess e t asset route amount hops out p).0 ≡ inr x
    → (x.hops ≡ hops) × (x.out ≡ out) × IsCosted e t p asset route amount x
unfolding assess
assess-IsCosted e t asset route amount hops out p x eq =
    elim (sum_cases (aave_premium_bps t.premium_raw t.now t.later p).0) [
      | inl (failed, k) ↦ absurd (inl-ne-inr (rw (k, assess) at eq))
      | inr (bps, k) ↦ elim (sum_cases (e.cost asset route hops)) [
        | inl (m, c) ↦ absurd (inl-ne-inr (rw (k, c, assess) at eq))
        | inr ((l2, l1), c) ↦
            let made : Sample = record {
              hops = hops;
              out = out;
              premium = div_floor (amount *ℤ pos bps) 10000;
              l2 = l2;
              l1 = l1;
            } in
            let same : made ≡ x = inr-inj (rw (k, c, assess) at eq) in
            subst (λ x. (x.hops ≡ hops) × (x.out ≡ out) × IsCosted e t p asset route amount x) same
              (
                refl,
                refl,
                record {
                  bps = bps;
                  rate = aave_premium_bps-IsRate t p bps k;
                  premium_lem = refl;
                  costs = c;
                },
              )
      ]
    ]

-- A sample of a route: bounds, a loan asset at both ends, a chain of hops and its costs.
pub record IsSampled (e : Engine) (t : Moment) (route : Route) (amount : ℤ) (s : EvalState)
    (x : Sample) : Type 0 where
  pub bounded :
      (2 ≤ length route.hops)
      × (length route.hops ≤ 4)
      × (length route.symbols ≡ length route.hops + 1)
  pub asset : Token
  pub configured : lookup (first_symbol route.symbols) e.tokens ≡ some asset
  pub returns : last_symbol route.symbols ≡ first_symbol route.symbols
  pub chained : IsChain e route.symbols route.hops amount s.quotes x.hops x.out
  pub costed : IsCosted e t s.premium asset route amount x

is_bounded-bounds :
    (route : Route)
    → is_bounded route ≡ true
    → (2 ≤ length route.hops)
      × (length route.hops ≤ 4)
      × (length route.symbols ≡ length route.hops + 1)
is_bounded-bounds route h = (ground arith, ground arith, ground arith)

pub appraise-IsSampled :
    (e : Engine) (t : Moment) (route : Route) (amount : ℤ) (s : EvalState) (x : Sample)
    → (appraise e t route amount s).0 ≡ inr x
    → IsSampled e t route amount s x
unfolding appraise
appraise-IsSampled e t route amount s x eq = elim (Bool-cases (is_bounded route)) [
  | inr bad ↦ absurd (inl-ne-inr (rw (bad, appraise) at eq))
  | inl good ↦ elim (Option-cases (lookup (first_symbol route.symbols) e.tokens)) [
    | inl gone ↦ absurd (inl-ne-inr (rw (good, gone, appraise) at eq))
    | inr (asset, ka) ↦
        elim (Bool-cases (text_eq (last_symbol route.symbols) (first_symbol route.symbols))) [
          | inr apart ↦ absurd (inl-ne-inr (rw (good, ka, apart, appraise) at eq))
          | inl closed ↦
              elim (sum_cases (quote_hops e route.symbols route.hops amount s.quotes).0) [
                | inl (failed, k) ↦ absurd (inl-ne-inr (rw (good, ka, closed, k, appraise) at eq))
                | inr ((hops, out), k) ↦
                    let (same_hops, same_out, costed) =
                      assess-IsCosted e t asset route amount hops out s.premium x
                        (rw (good, ka, closed, k, appraise) at eq) in
                    let chain =
                      quote_hops-IsChain e route.symbols route.hops amount s.quotes (hops, out)
                        (is_bounded-bounds route good).2 k in
                    record {
                      bounded = is_bounded-bounds route good;
                      asset = asset;
                      configured = ka;
                      returns =
                          (text_eq_iff (last_symbol route.symbols) (first_symbol route.symbols)).0
                            closed;
                      chained = rw (same_hops, same_out) chain;
                      costed = costed;
                    }
              ]
        ]
  ]
]

-- A sample emits nothing and counts nothing.
pub appraise_quiet :
    (e : Engine) (t : Moment) (route : Route) (amount : ℤ) (s : EvalState)
    → ((appraise e t route amount s).1.events ≡ s.events)
      × ((appraise e t route amount s).1.metrics ≡ s.metrics)
unfolding appraise
appraise_quiet e t route amount s = elim (Bool-cases (is_bounded route)) [
  | inr bad ↦ rw (bad, appraise) (refl, refl)
  | inl good ↦ elim (Option-cases (lookup (first_symbol route.symbols) e.tokens)) [
    | inl gone ↦ rw (good, gone, appraise) (refl, refl)
    | inr (asset, ka) ↦
        elim (Bool-cases (text_eq (last_symbol route.symbols) (first_symbol route.symbols))) [
          | inr apart ↦ rw (good, ka, apart, appraise) (refl, refl)
          | inl closed ↦
              elim (sum_cases (quote_hops e route.symbols route.hops amount s.quotes).0) [
                | inl (failed, k) ↦ rw (good, ka, closed, k, appraise) (refl, refl)
                | inr ((hops, out), k) ↦ rw (good, ka, closed, k, appraise) (refl, refl)
              ]
        ]
  ]
]
