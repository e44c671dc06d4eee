-- ===== src/Dex/Tests.antt =====
-- The helpers on small inputs.
use titanarb_engine.Base.{
  Text, ℕ, ◌≡◌, refl, some, List, [], ◌∷◌, ◌++◌, arith, bytes, concat, replicate,
}
use titanarb_engine.Base.Int.{negsuc}
use titanarb_engine.Dex.{encode_hex, decode_hex, decode_words, word_int, address_word}
use titanarb_engine.Dex.Hex.{decode_hex-encode_hex}
use titanarb_engine.Dex.Words.{IsWord, decode_words-encode_hex}

abbrev minus_one : List ℕ
minus_one = replicate 32 255

abbrev seven : List ℕ
seven = replicate 31 0 ++ 7 ∷ []

minus_one_int : word_int minus_one ≡ negsuc 0
unfolding word_int
minus_one_int = refl

seven-IsWord : IsWord seven
seven-IsWord = record { size = refl; valid = omega arith }

minus_one-IsWord : IsWord minus_one
minus_one-IsWord = record { size = refl; valid = omega arith }

abbrev zero_address : Text
zero_address = bytes "0x00000000000000000000000000000000000000ff"

address_round_trip : address_word zero_address ≡ some (replicate 31 0 ++ 255 ∷ [])
unfolding address_word
address_round_trip = refl

decode_hex-encode_hex_example : decode_hex (encode_hex (171 ∷ 9 ∷ [])) ≡ some (171 ∷ 9 ∷ [])
decode_hex-encode_hex_example = decode_hex-encode_hex (171 ∷ 9 ∷ []) (omega arith)

decode_words-encode_hex_example :
    decode_words (bytes "0x" ++ encode_hex (concat (seven ∷ minus_one ∷ [])))
    ≡ some (seven ∷ minus_one ∷ [])
decode_words-encode_hex_example =
    decode_words-encode_hex seven (minus_one ∷ []) (seven-IsWord, (minus_one-IsWord, tt))

abbrev four_bytes : Text → List ℕ
four_bytes _ = 1 ∷ 2 ∷ 3 ∷ 4 ∷ []
