-- ===== src/Opportunity/Quoters.antt =====
-- go/internal/quotes/quotes.go: the quoters of the two DEXes. `node` answers a call for its target and
-- calldata. `none` stands for the panic on an amount of more than 256 bits.
pub mod Quoted
mod Tests
use titanarb_engine.Base.{
  ℕ, ◌%◌, Bool, not, ◌||◌, Option, none, some, ◌⊎◌, inl, inr, List, [], ◌∷◌, ◌++◌, length,
  get_elem?, Text, bytes, text_eq, ltb, ◌==◌, if◌then◌else◌, u64,
}
use titanarb_engine.Base.Int.{pos}
use titanarb_engine.Dex.{address_word, decode_words, fill_bytes, static_call, uint_word, word_uint}
use titanarb_engine.Pools.{uniswap_v3, camelot_v3}
use titanarb_engine.Opportunity.Quotes.{QuoteRequest, QuoteResult, Answer}

-- What a quoter calls: the start of its messages, the method, the arguments after the amount, and how
-- many words the response has at least.
pub record QuoterCall : Type 0 where
  pub name : Text
  pub signature : Text
  pub extra : List (List ℕ)
  pub needed : ℕ

abbrev pub uniswap_call : ℕ → QuoterCall
uniswap_call fee = record {
  name = bytes "uniswap quote";
  signature = bytes "quoteExactInputSingle((address,address,uint256,uint24,uint160))";
  extra = fill_bytes 32 fee ∷ fill_bytes 32 0 ∷ [];
  needed = 4;
}

abbrev pub camelot_call : QuoterCall
camelot_call = record {
  name = bytes "camelot quote";
  signature = bytes "quoteExactInputSingle(address,address,uint256,uint160)";
  extra = fill_bytes 32 0 ∷ [];
  needed = 2;
}

-- words[k], where there are that many.
abbrev pub word_at : List (List ℕ) → ℕ → List ℕ
word_at ws k = elim (get_elem? ws k) [ none ↦ [] | some w ↦ w ]

abbrev pub with_words : (List (List ℕ) → QuoteResult) → Text ⊎ List (List ℕ) → Answer
with_words f (inl m) = inl m
with_words f (inr ws) = inr (f ws)

abbrev pub answer_with :
    (List (List ℕ) → QuoteResult) → Option (Text ⊎ List (List ℕ)) → Option Answer
answer_with f none = none
answer_with f (some r) = some (with_words f r)

module _ (selector : Text → List ℕ) (node : Text → Text → Text ⊎ Text) where
  -- The test of a response.
  unfoldable pub quote_words : QuoterCall → Text → Text ⊎ List (List ℕ)
  quote_words c raw = elim (decode_words raw) [
    | none ↦ inl (c.name ++ bytes " response: invalid ABI response")
    | some ws ↦
        if ltb (length ws) c.needed then inl (c.name ++ bytes " response: %!w(<nil>)") else inr ws
  ]

  -- The call of a quoter at an address, once its words are known.
  unfoldable pub send_quote : QuoterCall → Text → List (List ℕ) → Text ⊎ List (List ℕ)
  send_quote c address words =
      elim (node address (static_call selector c.signature (words ++ c.extra))) [
        | inl m ↦ inl (c.name ++ (bytes ": " ++ m))
        | inr raw ↦ quote_words c raw
      ]

  -- The part that the two quoters share.
  unfoldable pub quote_call : QuoterCall → Text → QuoteRequest → Option (Text ⊎ List (List ℕ))
  quote_call c address req = elim (address_word req.token_in) [
    | none ↦ some (inl (bytes "invalid address"))
    | some token_in ↦ elim (address_word req.token_out) [
      | none ↦ some (inl (bytes "invalid address"))
      | some token_out ↦ elim (uint_word req.amount_in) [
        | none ↦ none
        | some amount ↦ some (send_quote c address (token_in ∷ token_out ∷ amount ∷ []))
      ]
    ]
  ]

  -- UniswapV3Quoter.Quote
  unfoldable pub uniswap_quote : Text → QuoteRequest → Option Answer
  uniswap_quote address req =
      if not (text_eq req.pool.dex uniswap_v3) || req.pool.fee == 0
      then some (inl (bytes "invalid Uniswap V3 quote request"))
      else answer_with
          (λ ws. record {
            amount_out = pos (word_uint (word_at ws 0));
            estimated_gas = word_uint (word_at ws 3) % u64;
            fee = req.pool.fee;
          })
          (quote_call (uniswap_call req.pool.fee) address req)

  -- CamelotQuoter.Quote
  unfoldable pub camelot_quote : Text → QuoteRequest → Option Answer
  camelot_quote address req =
      if not (text_eq req.pool.dex camelot_v3)
      then some (inl (bytes "invalid Camelot quote request"))
      else answer_with
          (λ ws. record {
            amount_out = pos (word_uint (word_at ws 0));
            estimated_gas = 0;
            fee = word_uint (word_at ws 1) % 4294967296;
          })
          (quote_call camelot_call address req)
