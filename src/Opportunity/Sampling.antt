-- ===== src/Opportunity/Sampling.antt =====
-- go/internal/opportunity/engine.go: the quotes of the hops of a route, the premium and the fees, for a
-- single caller. The quoters, the cost model and the node's answers are arguments.
pub mod Chain
use titanarb_engine.Base.{
  ℕ, suc, ◌+◌, ◌*◌, Bool, true, false, not, ◌&&◌, ◌||◌, Option, none, some, ◌⊎◌, inl, inr, List, [],
  ◌∷◌, ◌++◌, length, Text, bytes, text_eq, ltb, leb, ◌==◌, if◌then◌else◌,
}
use titanarb_engine.Base.Int.{ℤ, pos, ◌*ℤ◌}
use titanarb_engine.Base.Dict.{lookup}
use titanarb_engine.Dex.{decode_words, word_uint}
use titanarb_engine.Pools.{Pool, supports, uniswap_v3, camelot_v3}
use titanarb_engine.Routes.{Route}
use titanarb_engine.Pricing.{Result, evaluate}
use titanarb_engine.Opportunity.{Hop, Opportunity}
use titanarb_engine.Opportunity.Quotes.{QuoteRequest, QuoteState, Answer, quote}
use titanarb_engine.Execution.Build.{Token, first_symbol, last_symbol, div_floor}

-- The parts of Engine that an evaluation reads.
pub record Engine : Type 0 where
  pub tokens : List (Text × Token)
  pub uni : QuoteRequest → Answer
  pub camelot : QuoteRequest → Answer
  pub cost : Token → Route → List Hop → Text ⊎ (ℤ × ℤ)
  pub min_profit : ℤ

pub data EvalError : Type 0 where
  invalid_route not_loan_asset unsupported_pool unsupported_dex : EvalError
  unknown_token quoter_error premium_failed cost_failed : Text → EvalError

-- The quoter for the DEX of a pool.
unfoldable pub quoter_of : Engine → Text → Option (QuoteRequest → Answer)
quoter_of e dex =
    if text_eq dex uniswap_v3
    then some e.uni
    else if text_eq dex camelot_v3
    then some e.camelot
    else none

-- The hop that a quote gives.
unfoldable pub quoted_hop : Pool → ℤ → Answer → EvalError ⊎ Hop
quoted_hop pool current (inl m) = inl (quoter_error m)
quoted_hop pool current (inr r) = inr (record {
  pool = pool;
  amount_in = current;
  amount_out = r.amount_out;
  quote_gas = r.estimated_gas;
  fee = r.fee;
})

-- One round of the loop over the hops.
unfoldable pub quote_hop :
    Engine → Text → Text → Pool → ℤ → QuoteState → (EvalError ⊎ Hop) × QuoteState
quote_hop e a b pool current s = elim (lookup a e.tokens) [
  | none ↦ (inl (unknown_token a), s)
  | some token_in ↦ elim (lookup b e.tokens) [
    | none ↦ (inl (unknown_token b), s)
    | some token_out ↦
        if not (supports pool token_in.address token_out.address)
        then (inl unsupported_pool, s)
        else elim (quoter_of e pool.dex) [
          | none ↦ (inl unsupported_dex, s)
          | some ask ↦
              let (answer, s') =
                quote ask
                  (record {
                    token_in = token_in.address;
                    token_out = token_out.address;
                    amount_in = some current;
                    pool = pool;
                  })
                  s in
              (quoted_hop pool current answer, s')
        ]
  ]
]

abbrev pub cons_hop : Hop → EvalError ⊎ (List Hop × ℤ) → EvalError ⊎ (List Hop × ℤ)
cons_hop h (inl e) = inl e
cons_hop h (inr (hops, out)) = inr (h ∷ hops, out)

-- The loop over the hops of a route; there is one more symbol than hops.
unfoldable pub quote_hops :
    Engine → List Text → List Pool → ℤ → QuoteState → (EvalError ⊎ (List Hop × ℤ)) × QuoteState
quote_hops e (a ∷ b ∷ symbols) (pool ∷ pools) current s =
    let (first, s') = quote_hop e a b pool current s in
    elim first [
      | inl failed ↦ (inl failed, s')
      | inr hop ↦
          let (rest, s'') = quote_hops e (b ∷ symbols) pools hop.amount_out s' in
          (cons_hop hop rest, s'')
    ]
quote_hops e _ _ current s = (inr ([], current), s)

-- The premium of Aave in basis points, with the time until which it is kept.
pub record PremiumState : Type 0 where
  pub bps : Option ℕ
  pub expiry : ℕ

abbrev pub premium_lifetime : ℕ
premium_lifetime = 10000000000

-- The call of aavePremiumBPS, for the answer of the node and the time afterwards.
unfoldable pub fetch_premium : Text ⊎ Text → ℕ → PremiumState → (EvalError ⊎ ℕ) × PremiumState
fetch_premium (inl m) later p = (inl (premium_failed m), p)
fetch_premium (inr raw) later p = elim (decode_words raw) [
  | none ↦ (inl (premium_failed (bytes "invalid response")), p)
  | some [] ↦ (inl (premium_failed (bytes "invalid response")), p)
  | some (w ∷ _) ↦
      (inr (word_uint w), record { bps = some (word_uint w); expiry = later + premium_lifetime })
]

-- aavePremiumBPS
unfoldable pub aave_premium_bps :
    Text ⊎ Text → ℕ → ℕ → PremiumState → (EvalError ⊎ ℕ) × PremiumState
aave_premium_bps raw now later p = elim p.bps [
  | none ↦ fetch_premium raw later p
  | some bps ↦ if ltb now p.expiry then (inr bps, p) else fetch_premium raw later p
]

-- len(route.Hops) and len(route.Symbols) are in bounds.
abbrev pub is_bounded : Route → Bool
is_bounded route =
    leb 2 (length route.hops)
    && leb (length route.hops) 4
    && length route.symbols == length route.hops + 1

-- What an evaluation finds out about a route: the quoted hops, the amount they give, and the costs.
pub record Sample : Type 0 where
  pub hops : List Hop
  pub out : ℤ
  pub premium : ℤ
  pub l2 : ℤ
  pub l1 : ℤ

-- The answer of the node for the premium, and the readings of the clock.
pub record Moment : Type 0 where
  pub premium_raw : Text ⊎ Text
  pub now : ℕ
  pub later : ℕ
  pub timestamp : ℕ

-- aavePremium, and the estimate of the fees.
unfoldable pub assess :
    Engine
    → Moment
    → Token
    → Route
    → ℤ
    → List Hop
    → ℤ
    → PremiumState
    → (EvalError ⊎ Sample) × PremiumState
assess e t asset route amount hops out p =
    let (answer, p') = aave_premium_bps t.premium_raw t.now t.later p in
    elim answer [
      | inl failed ↦ (inl failed, p')
      | inr bps ↦ elim (e.cost asset route hops) [
        | inl m ↦ (inl (cost_failed m), p')
        | inr (l2, l1) ↦ (
          inr (record {
            hops = hops;
            out = out;
            premium = div_floor (amount *ℤ pos bps) 10000;
            l2 = l2;
            l1 = l1;
          }),
          p',
        )
      ]
    ]
