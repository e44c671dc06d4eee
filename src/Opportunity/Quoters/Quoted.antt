-- ===== src/Opportunity/Quoters/Quoted.antt =====
-- What a quote stands for (quotes.go).
use titanarb_engine.Base.{
  ℕ, ◌%◌, ◌≤◌, ◌<◌, ◌≡◌, refl, sym, ap, true, not, ◌||◌, Option, none, some, ◌⊎◌, inl, inr, List,
  [], ◌∷◌, ◌++◌, length, Text, text_eq, text_eq_iff, ltb, ◌==◌, u64, arith, Bool-cases,
  Option-cases, sum_cases, inr-inj, some-inj, inl-ne-inr, none-ne-some,
}
use titanarb_engine.Base.Int.{pos}
use titanarb_engine.Dex.{address_word, decode_words, static_call, uint_word, word_uint}
use titanarb_engine.Pools.{uniswap_v3, camelot_v3}
use titanarb_engine.Opportunity.Quotes.{QuoteRequest, QuoteResult}
use titanarb_engine.Opportunity.Quoters.{
  QuoterCall, uniswap_call, camelot_call, word_at, quote_words, send_quote, quote_call, answer_with,
  uniswap_quote, camelot_quote,
}

-- An answer with a result has words that give it.
answered :
    (f : List (List ℕ) → QuoteResult) (o : Option (Text ⊎ List (List ℕ))) (r : QuoteResult)
    → answer_with f o ≡ some (inr r)
    → (ws : List (List ℕ)) × (o ≡ some (inr ws)) × (f ws ≡ r)
answered f none r h = absurd (none-ne-some h)
answered f (some (inl m)) r h = absurd (inl-ne-inr (some-inj h))
answered f (some (inr ws)) r h = (ws, refl, inr-inj (some-inj h))

module _ (selector : Text → List ℕ) (node : Text → Text → Text ⊎ Text) (address : Text)
    (req : QuoteRequest) where
  -- The words are what the node answers to the call for the tokens and the amount of the request.
  pub record IsQuoted (c : QuoterCall) (ws : List (List ℕ)) : Type 0 where
    pub token_in : List ℕ
    pub token_out : List ℕ
    pub amount : List ℕ
    pub encoded :
        (address_word req.token_in ≡ some token_in)
        × (address_word req.token_out ≡ some token_out)
        × (uint_word req.amount_in ≡ some amount)
    pub raw : Text
    pub asked :
        node address
          (static_call selector c.signature ((token_in ∷ token_out ∷ amount ∷ []) ++ c.extra))
        ≡ inr raw
    pub decoded : decode_words raw ≡ some ws
    pub enough : c.needed ≤ length ws

  quote_words_lem :
      (c : QuoterCall) (raw : Text) (ws : List (List ℕ))
      → quote_words selector node c raw ≡ inr ws
      → (decode_words raw ≡ some ws) × (c.needed ≤ length ws)
  unfolding quote_words
  quote_words_lem c raw ws h = elim (Option-cases (decode_words raw)) [
    | inl bad ↦ absurd (inl-ne-inr (rw (bad, quote_words) at h))
    | inr (vs, e) ↦ elim (Bool-cases (ltb (length vs) c.needed)) [
      | inl few ↦ absurd (inl-ne-inr (rw (e, few, quote_words) at h))
      | inr many ↦
          let same : vs ≡ ws = inr-inj (rw (e, many, quote_words) at h) in
          let long : c.needed ≤ length vs = ground (arith, many) in rw (← same) (e, long)
    ]
  ]

  quote_call-IsQuoted :
      (c : QuoterCall) (ws : List (List ℕ))
      → quote_call selector node c address req ≡ some (inr ws)
      → IsQuoted c ws
  unfolding quote_call send_quote
  quote_call-IsQuoted c ws h = elim (Option-cases (address_word req.token_in)) [
    | inl bad ↦ absurd (inl-ne-inr (some-inj (rw (bad, quote_call) at h)))
    | inr (i, ei) ↦ elim (Option-cases (address_word req.token_out)) [
      | inl bad ↦ absurd (inl-ne-inr (some-inj (rw (ei, bad, quote_call) at h)))
      | inr (o, eo) ↦ elim (Option-cases (uint_word req.amount_in)) [
        | inl large ↦ absurd (none-ne-some (rw (ei, eo, large, quote_call) at h))
        | inr (a, ea) ↦
            let sent = some-inj (rw (ei, eo, ea, quote_call) at h) in
            let payload = static_call selector c.signature ((i ∷ o ∷ a ∷ []) ++ c.extra) in
            elim (sum_cases (node address payload)) [
              | inl (m, k) ↦ absurd (inl-ne-inr (rw (k, send_quote) at sent))
              | inr (raw, k) ↦
                  let (decoded, enough) = quote_words_lem c raw ws (rw (k, send_quote) at sent) in
                  record {
                    token_in = i;
                    token_out = o;
                    amount = a;
                    encoded = (ei, eo, ea);
                    raw = raw;
                    asked = k;
                    decoded = decoded;
                    enough = enough;
                  }
            ]
      ]
    ]
  ]

  -- A result of the Uniswap quoter or of the Camelot quoter.
  abbrev pub IsQuote : QuoteResult → Type 0
  IsQuote r =
      (ws : List (List ℕ)) × (r.amount_out ≡ pos (word_uint (word_at ws 0)))
      × (((req.pool.dex ≡ uniswap_v3)
            × (0 < req.pool.fee)
            × IsQuoted (uniswap_call req.pool.fee) ws
            × (r.estimated_gas ≡ word_uint (word_at ws 3) % u64)
            × (r.fee ≡ req.pool.fee))
          ⊎ ((req.pool.dex ≡ camelot_v3)
              × IsQuoted camelot_call ws
              × (r.estimated_gas ≡ 0)
              × (r.fee ≡ word_uint (word_at ws 1) % 4294967296)))

  uniswap_quote-IsQuote :
      (r : QuoteResult) → uniswap_quote selector node address req ≡ some (inr r) → IsQuote r
  unfolding uniswap_quote
  uniswap_quote-IsQuote r h =
      elim (Bool-cases (not (text_eq req.pool.dex uniswap_v3) || req.pool.fee == 0)) [
        | inl bad ↦ absurd (inl-ne-inr (some-inj (rw (bad, uniswap_quote) at h)))
        | inr good ↦
            let dex : text_eq req.pool.dex uniswap_v3 ≡ true = ground (arith, good) in
            let fee : 0 < req.pool.fee = ground (arith, good) in
            let (ws, called, e) = answered _ _ r (rw (good, uniswap_quote) at h) in
            (
              ws,
              ap (λ r. r.amount_out) (sym e),
              inl (
                (text_eq_iff req.pool.dex uniswap_v3).0 dex,
                fee,
                quote_call-IsQuoted (uniswap_call req.pool.fee) ws called,
                ap (λ r. r.estimated_gas) (sym e),
                ap (λ r. r.fee) (sym e),
              ),
            )
      ]

  camelot_quote-IsQuote :
      (r : QuoteResult) → camelot_quote selector node address req ≡ some (inr r) → IsQuote r
  unfolding camelot_quote
  camelot_quote-IsQuote r h = elim (Bool-cases (text_eq req.pool.dex camelot_v3)) [
    | inr other ↦ absurd (inl-ne-inr (some-inj (rw (other, camelot_quote) at h)))
    | inl dex ↦
        let (ws, called, e) = answered _ _ r (rw (dex, camelot_quote) at h) in
        (
          ws,
          ap (λ r. r.amount_out) (sym e),
          inr (
            (text_eq_iff req.pool.dex camelot_v3).0 dex,
            quote_call-IsQuoted camelot_call ws called,
            ap (λ r. r.estimated_gas) (sym e),
            ap (λ r. r.fee) (sym e),
          ),
        )
  ]

  -- What a quoter gives for a request is read from what the node answers to its call, which carries the
  -- tokens and the amount of the request: the amount is the first word; Uniswap, only for its own pools
  -- with a fee, takes the gas from the fourth word and the fee from the pool; Camelot, only for its own
  -- pools, takes the fee from the second word and no gas.
  pub quoter-IsQuote :
      (r : QuoteResult)
      → (uniswap_quote selector node address req ≡ some (inr r))
        ⊎ (camelot_quote selector node address req ≡ some (inr r))
      → IsQuote r
  quoter-IsQuote r (inl h) = uniswap_quote-IsQuote r h
  quoter-IsQuote r (inr h) = camelot_quote-IsQuote r h
