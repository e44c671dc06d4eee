-- ===== src/Opportunity/Quoters/Tests.antt =====
-- A quote of a Uniswap pool, from a node whose every word is 7.
use titanarb_engine.Base.{
  ℕ, ◌≡◌, refl, ◌⊎◌, inl, inr, none, some, List, [], ◌∷◌, ◌++◌, Text, bytes, text_eq, trim_space,
}
use titanarb_engine.Base.Int.{pos}
use titanarb_engine.Dex.{
  address_word, decode_hex, decode_words, encode_hex, fill_bytes, static_call, trim_0x, uint_word,
  word_uint,
}
use titanarb_engine.Pools.{uniswap_v3}
use titanarb_engine.Opportunity.Quotes.{QuoteRequest, QuoteResult}
use titanarb_engine.Opportunity.Quoters.{uniswap_quote, quote_call, send_quote, quote_words}
use titanarb_engine.Opportunity.Quoters.Quoted.{IsQuote, quoter-IsQuote}

abbrev zero_selector : Text → List ℕ
zero_selector _ = 0 ∷ 0 ∷ 0 ∷ 0 ∷ []

abbrev seven_word : Text
seven_word = bytes "0000000000000000000000000000000000000000000000000000000000000007"

abbrev quoting_node : Text → Text → Text ⊎ Text
quoting_node to payload =
    inr (bytes "0x" ++ (seven_word ++ (seven_word ++ (seven_word ++ seven_word))))

abbrev token_address : Text
token_address = bytes "0x0000000000000000000000000000000000000007"

abbrev uniswap_request : QuoteRequest
uniswap_request = record {
  token_in = token_address;
  token_out = token_address;
  amount_in = some (pos 1000);
  pool = record {
    address = token_address;
    token0 = token_address;
    token1 = token_address;
    dex = uniswap_v3;
    fee = 500;
    liquidity = none;
    sqrt_price_x96 = none;
    last_updated_block = 1;
  };
}

abbrev seven_result : QuoteResult
seven_result = record { amount_out = pos 7; estimated_gas = 7; fee = 500 }

uniswap_quote_runs :
    uniswap_quote zero_selector quoting_node (bytes "0xq") uniswap_request ≡ some (inr seven_result)
unfolding uniswap_quote quote_call send_quote quote_words address_word decode_hex decode_words
    encode_hex fill_bytes static_call trim_0x uint_word word_uint text_eq trim_space
uniswap_quote_runs = refl

quoter-IsQuote_example :
    IsQuote zero_selector quoting_node (bytes "0xq") uniswap_request seven_result
quoter-IsQuote_example =
    quoter-IsQuote zero_selector quoting_node (bytes "0xq") uniswap_request seven_result
      (inl uniswap_quote_runs)
