-- ===== src/Dex/Hex.antt =====
-- The hexadecimal codec of evm.go.
use titanarb_engine.Base.{
  ℕ, ◌*◌, ◌/◌, ◌%◌, ◌<◌, ◌≡◌, refl, some, List, [], ◌∷◌, ◌++◌, arith, All, length, bytes,
}
use titanarb_engine.Dex.{hex_char, encode_hex, hex_value, decode_hex, trim_0x}

abbrev pub IsByte : ℕ → Type 0
IsByte b = b < 256

hex_value-hex_char : (d : ℕ) → d < 16 → hex_value (hex_char d) ≡ some d
unfolding hex_value hex_char
hex_value-hex_char d h = ground arith

-- Decoding gives back the bytes that were encoded.
pub decode_hex-encode_hex : (bs : List ℕ) → All IsByte bs → decode_hex (encode_hex bs) ≡ some bs
unfolding decode_hex encode_hex
decode_hex-encode_hex [] h = refl
decode_hex-encode_hex (b ∷ bs) h = ground (
  arith,
  decode_hex-encode_hex bs h.1,
  hex_value-hex_char (b / 16) (omega (arith, h.0)),
  hex_value-hex_char (b % 16) (omega arith),
)

pub length-encode_hex : (bs : List ℕ) → length (encode_hex bs) ≡ 2 * length bs
unfolding encode_hex
length-encode_hex [] = refl
length-encode_hex (b ∷ bs) = omega (arith, length-encode_hex bs)

pub trim_0x-prefix : (s : List ℕ) → trim_0x (bytes "0x" ++ s) ≡ s
unfolding trim_0x
trim_0x-prefix s = refl
