-- ===== src/Opportunity/Sampling/Chain.antt =====
-- The hops of an evaluated route (engine.go).
use titanarb_engine.Base.{
  ◌+◌, ◌≡◌, refl, sym, ◌∙◌, ap, true, some, inl, inr, List, [], ◌∷◌, length, Text, arith, Empty,
  Bool-cases, Option-cases, sum_cases, inr-inj, subst, inl-ne-inr, none-ne-some, some-inj, text_eq,
  text_eq_iff, ◌⊎◌, ◌&&◌, ltb, leb,
}
use titanarb_engine.Base.Int.{ℤ}
use titanarb_engine.Base.Dict.{lookup}
use titanarb_engine.Pools.{Pool, supports, uniswap_v3, camelot_v3}
use titanarb_engine.Opportunity.{Hop}
use titanarb_engine.Opportunity.Quotes.{
  QuoteRequest, QuoteResult, QuoteEntry, QuoteState, Answer, quote, quote_key, begin_quote,
  open_entry,
}
use titanarb_engine.Opportunity.Sampling.{
  Engine, quoter_of, quoted_hop, quote_hop, cons_hop, quote_hops,
}
use titanarb_engine.Execution.Build.{Token}

-- The request for a hop.
abbrev pub hop_request : Token → Token → Pool → ℤ → QuoteRequest
hop_request token_in token_out pool current = record {
  token_in = token_in.address;
  token_out = token_out.address;
  amount_in = some current;
  pool = pool;
}

-- A result is the quoter's answer to a request, or the one that the cache holds for it.
abbrev pub IsAnswer : (QuoteRequest → Answer) → QuoteRequest → QuoteState → QuoteResult → Type 0
IsAnswer ask req s r =
    (ask req ≡ inr r)
    ⊎ ((key : Text) × (entry : QuoteEntry) × (quote_key s req ≡ some key)
        × (lookup key s.cache ≡ some entry)
        × (entry.answer ≡ some (inr r)))

-- A hop trades the two tokens in its pool, for what the quoter of its DEX gives; `s` is the state of the
-- quotes before, and `s'` the one afterwards.
pub record IsLeg (e : Engine) (a b : Text) (pool : Pool) (current : ℤ) (s : QuoteState) (h : Hop)
    (s' : QuoteState) : Type 0 where
  pub through : h.pool ≡ pool
  pub enters : h.amount_in ≡ current
  pub token_in : Token
  pub token_out : Token
  pub known_in : lookup a e.tokens ≡ some token_in
  pub known_out : lookup b e.tokens ≡ some token_out
  pub supported : supports pool token_in.address token_out.address ≡ true
  pub ask : QuoteRequest → Answer
  pub venue :
      ((pool.dex ≡ uniswap_v3) × (ask ≡ e.uni)) ⊎ ((pool.dex ≡ camelot_v3) × (ask ≡ e.camelot))
  pub result : QuoteResult
  pub answered : IsAnswer ask (hop_request token_in token_out pool current) s result
  pub leaves : h.amount_out ≡ result.amount_out
  pub costs : (h.quote_gas ≡ result.estimated_gas) × (h.fee ≡ result.fee)
  pub next : s' ≡ (quote ask (hop_request token_in token_out pool current) s).1

-- The hops trade along the symbols, each from the amount that the one before gives.
abbrev pub IsChain : Engine → List Text → List Pool → ℤ → QuoteState → List Hop → ℤ → Type 0
IsChain e (a ∷ b ∷ symbols) (p ∷ ps) current s (h ∷ hs) out =
    (s' : QuoteState) × IsLeg e a b p current s h s'
    × IsChain e (b ∷ symbols) ps h.amount_out s' hs out
IsChain e (a ∷ []) [] current s [] out = current ≡ out
IsChain e _ _ _ _ _ _ = Empty

quote-IsAnswer :
    (ask : QuoteRequest → Answer) (req : QuoteRequest) (s : QuoteState) (r : QuoteResult)
    → (quote ask req s).0 ≡ inr r
    → IsAnswer ask req s r
unfolding quote begin_quote open_entry
quote-IsAnswer ask req s r h = elim (Option-cases (quote_key s req)) [
  | inl keyless ↦ inl (rw (keyless, quote) at h)
  | inr (key, k) ↦ elim (Option-cases (lookup key s.cache)) [
    | inr (entry, e) ↦ elim (Option-cases entry.answer) [
      | inl flying ↦ absurd (inl-ne-inr (rw (k, e, flying, quote, begin_quote) at h))
      | inr (a, f) ↦
          let same : a ≡ inr r = rw (k, e, f, quote, begin_quote) at h in
          inr (key, entry, k, e, f ∙ ap some same)
    ]
    | inl missing ↦ elim (Bool-cases (ltb 0 s.budget && leb s.budget s.budget_used)) [
      | inl spent ↦
          absurd (inl-ne-inr (rw (k, missing, spent, quote, begin_quote, open_entry) at h))
      | inr open_budget ↦ inl (rw (k, missing, open_budget, quote, begin_quote, open_entry) at h)
    ]
  ]
]

quoter_of_lem :
    (e : Engine) (dex : Text) (ask : QuoteRequest → Answer)
    → quoter_of e dex ≡ some ask
    → ((dex ≡ uniswap_v3) × (ask ≡ e.uni)) ⊎ ((dex ≡ camelot_v3) × (ask ≡ e.camelot))
unfolding quoter_of
quoter_of_lem e dex ask h = elim (Bool-cases (text_eq dex uniswap_v3)) [
  | inl u ↦ inl ((text_eq_iff dex uniswap_v3).0 u, sym (some-inj (rw (u, quoter_of) at h)))
  | inr o ↦ elim (Bool-cases (text_eq dex camelot_v3)) [
    | inl c ↦ inr ((text_eq_iff dex camelot_v3).0 c, sym (some-inj (rw (o, c, quoter_of) at h)))
    | inr unknown ↦ absurd (none-ne-some (rw (o, unknown, quoter_of) at h))
  ]
]

quoted_hop_lem :
    (pool : Pool) (current : ℤ) (answer : Answer) (h : Hop)
    → quoted_hop pool current answer ≡ inr h
    → (r : QuoteResult) × (answer ≡ inr r)
      × (h.pool ≡ pool)
      × (h.amount_in ≡ current)
      × (h.amount_out ≡ r.amount_out)
      × (h.quote_gas ≡ r.estimated_gas)
      × (h.fee ≡ r.fee)
unfolding quoted_hop
quoted_hop_lem pool current (inl m) h eq = absurd (inl-ne-inr eq)
quoted_hop_lem pool current (inr r) h eq =
    let same = sym (inr-inj eq) in
    (
      r,
      refl,
      ap (λ h. h.pool) same,
      ap (λ h. h.amount_in) same,
      ap (λ h. h.amount_out) same,
      ap (λ h. h.quote_gas) same,
      ap (λ h. h.fee) same,
    )

quote_hop-IsLeg :
    (e : Engine) (a b : Text) (pool : Pool) (current : ℤ) (s : QuoteState) (h : Hop)
    → (quote_hop e a b pool current s).0 ≡ inr h
    → IsLeg e a b pool current s h (quote_hop e a b pool current s).1
unfolding quote_hop quoted_hop
quote_hop-IsLeg e a b pool current s h eq = elim (Option-cases (lookup a e.tokens)) [
  | inl gone ↦ absurd (inl-ne-inr (rw (gone, quote_hop) at eq))
  | inr (x, kx) ↦ elim (Option-cases (lookup b e.tokens)) [
    | inl gone ↦ absurd (inl-ne-inr (rw (kx, gone, quote_hop) at eq))
    | inr (y, ky) ↦ elim (Bool-cases (supports pool x.address y.address)) [
      | inr bad ↦ absurd (inl-ne-inr (rw (kx, ky, bad, quote_hop) at eq))
      | inl good ↦ elim (Option-cases (quoter_of e pool.dex)) [
        | inl gone ↦ absurd (inl-ne-inr (rw (kx, ky, good, gone, quote_hop) at eq))
        | inr (ask, kq) ↦
            let request = hop_request x y pool current in
            let made : quoted_hop pool current (quote ask request s).0 ≡ inr h =
              rw (kx, ky, good, kq, quote_hop) at eq in
            let (r, got, through, enters, leaves, gas, fee) =
              quoted_hop_lem pool current (quote ask request s).0 h made in
            record {
              through = through;
              enters = enters;
              token_in = x;
              token_out = y;
              known_in = kx;
              known_out = ky;
              supported = good;
              ask = ask;
              venue = quoter_of_lem e pool.dex ask kq;
              result = r;
              answered = quote-IsAnswer ask request s r got;
              leaves = leaves;
              costs = (gas, fee);
              next = rw (kx, ky, good, kq, quote_hop) refl;
            }
      ]
    ]
  ]
]

pub quote_hops-IsChain :
    (e : Engine) (symbols : List Text) (pools : List Pool) (current : ℤ) (s : QuoteState)
    (r : List Hop × ℤ)
    → length symbols ≡ length pools + 1
    → (quote_hops e symbols pools current s).0 ≡ inr r
    → IsChain e symbols pools current s r.0 r.1
unfolding quote_hops
quote_hops-IsChain e [] pools current s r n eq = absurd (omega arith)
quote_hops-IsChain e (a ∷ []) [] current s r n eq =
    subst (λ r. IsChain e (a ∷ []) [] current s r.0 r.1) (inr-inj eq) refl
quote_hops-IsChain e (a ∷ []) (p ∷ ps) current s r n eq = absurd (omega arith)
quote_hops-IsChain e (a ∷ b ∷ symbols) [] current s r n eq = absurd (omega arith)
quote_hops-IsChain e (a ∷ b ∷ symbols) (p ∷ ps) current s r n eq =
    elim (sum_cases (quote_hop e a b p current s).0) [
      | inl (failed, k) ↦ absurd (inl-ne-inr (rw (k, quote_hops) at eq))
      | inr (h, k) ↦
          let s' = (quote_hop e a b p current s).1 in
          let joined : cons_hop h (quote_hops e (b ∷ symbols) ps h.amount_out s').0 ≡ inr r =
            rw (k, quote_hops) at eq in
          elim (sum_cases (quote_hops e (b ∷ symbols) ps h.amount_out s').0) [
            | inl (failed, k') ↦ absurd (inl-ne-inr (rw k' at joined))
            | inr (rest, k') ↦
                let chain =
                  quote_hops-IsChain e (b ∷ symbols) ps h.amount_out s' rest (omega arith) k' in
                subst (λ r. IsChain e (a ∷ b ∷ symbols) (p ∷ ps) current s r.0 r.1)
                  (inr-inj (rw k' at joined))
                  ((quote_hop e a b p current s).1, quote_hop-IsLeg e a b p current s h k, chain)
          ]
    ]
