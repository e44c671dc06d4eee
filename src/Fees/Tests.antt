-- ===== src/Fees/Tests.antt =====
-- An estimate from four responses.
use titanarb_engine.Base.{ℕ, ◌≡◌, refl, ◌++◌, some, Text, bytes}
use titanarb_engine.Base.Int.{pos, ◌*ℤ◌}
use titanarb_engine.Dex.{encode_hex, fill_bytes, decode_words, word_int, word_uint}
use titanarb_engine.Fees.{FeeEstimate, FeeResponses, estimate_fee}

-- Six words, the last five of them given.
abbrev words : ℕ → ℕ → ℕ → ℕ → ℕ → Text
words b c d e f =
    bytes "0x"
    ++ encode_hex (
        fill_bytes 32 8
        ++ fill_bytes 32 b
        ++ fill_bytes 32 c
        ++ fill_bytes 32 d
        ++ fill_bytes 32 e
        ++ fill_bytes 32 f)

abbrev responses : FeeResponses
responses = record {
  prices = some (words 0 0 0 0 10);
  node = some (words 7 3 0 0 0);
  decimals = some (words 0 0 0 0 0);
  round = some (words 2000 0 1 1 1);
}

abbrev estimate : FeeEstimate
estimate = record {
  l2_cost = some (pos 1008);
  l1_cost = some (pos 21);
  total_wei = pos 1131;
  total_eth = some (record { num = pos 1131; den = 1000000000000000000 });
  total_usd = record { num = pos 2262000; den = 100000000000000000000000000 };
  safety_margin_wei = pos 102;
  timestamp = 9;
}

estimated : estimate_fee 9 1000 100 responses ≡ some estimate
unfolding estimate_fee encode_hex fill_bytes decode_words word_int word_uint ◌*ℤ◌
estimated = refl
