-- ===== src/Dex.antt =====
-- go/internal/dex/evm.go: the ABI helpers. The Keccak selector of a signature is a parameter of the
-- calls that use it; `encoding/hex` and `math/big` are written out.
pub mod Hex
pub mod Words
pub mod Calldata
mod Tests
use titanarb_engine.Base.{
  ℕ, zero, suc, ◌+◌, ◌-◌, ◌*◌, ◌/◌, ◌%◌, ◌^◌, ◌≡◌, Bool, true, false, not, ◌||◌, Option, none, some,
  List, [], ◌∷◌, ◌++◌, Text, bytes, ltb, leb, ◌==◌, if◌then◌else◌, length, trim_space, concat, take,
  drop, replicate,
}
use titanarb_engine.Base.Int.{ℤ, pos, negsuc, ◌-ℤ◌}

-- hex.EncodeToString
pub hex_char : ℕ → ℕ
hex_char d = if ltb d 10 then b'0' + d else b'a' + (d - 10)

unfoldable pub encode_hex : List ℕ → Text
unfolding hex_char
encode_hex [] = []
encode_hex (b ∷ bs) = hex_char (b / 16) ∷ hex_char (b % 16) ∷ encode_hex bs

-- hex.DecodeString
unfoldable pub hex_value : ℕ → Option ℕ
hex_value c =
    if leb b'0' c
    then (if leb c b'9'
        then some (c - b'0')
        else if leb b'A' c
        then (if leb c b'F'
            then some (c - b'A' + 10)
            else if leb b'a' c
            then (if leb c b'f' then some (c - b'a' + 10) else none)
            else none)
        else none)
    else none

abbrev byte_of : Option ℕ → Option ℕ → Option (List ℕ) → Option (List ℕ)
byte_of (some h) (some l) (some bs) = some ((h * 16 + l) ∷ bs)
byte_of _ _ _ = none

unfoldable pub decode_hex : Text → Option (List ℕ)
unfolding hex_value
decode_hex [] = some []
decode_hex (c ∷ []) = none
decode_hex (c ∷ d ∷ s) = byte_of (hex_value c) (hex_value d) (decode_hex s)

-- strings.TrimPrefix(s, "0x")
unfoldable pub trim_0x : Text → Text
trim_0x [] = []
trim_0x (c ∷ []) = c ∷ []
trim_0x (c ∷ d ∷ s) = if c == b'0' then (if d == b'x' then s else c ∷ d ∷ s) else c ∷ d ∷ s

-- The words of `data`, 32 bytes each: the loop of DecodeWords, in at most `fuel` rounds.
pub split_words : ℕ → List ℕ → List (List ℕ)
split_words zero data_bytes = []
split_words (suc fuel) [] = []
split_words (suc fuel) (b ∷ bs) = take 32 (b ∷ bs) ∷ split_words fuel (drop 32 (b ∷ bs))

unfoldable pub decode_words : Text → Option (List (List ℕ))
unfolding decode_hex split_words trim_0x
decode_words raw = elim (decode_hex (trim_0x raw)) [
  | none ↦ none
  | some bs ↦
      if length bs == 0 || not (length bs % 32 == 0)
      then none
      else some (split_words (length bs / 32) bs)
]

-- big.Int.SetBytes: big-endian.
pub from_bytes : ℕ → List ℕ → ℕ
from_bytes acc [] = acc
from_bytes acc (b ∷ bs) = from_bytes (acc * 256 + b) bs

unfoldable pub word_uint : List ℕ → ℕ
unfolding from_bytes
word_uint w = from_bytes 0 w

-- big.Int.FillBytes into `k` bytes, for a value that fits.
unfoldable pub fill_bytes : ℕ → ℕ → List ℕ
fill_bytes zero v = []
fill_bytes (suc k) v = fill_bytes k (v / 256) ++ (v % 256) ∷ []

-- A nil value gives the zero word; FillBytes panics, `none`, on a value that does not fit. It reads
-- the absolute value.
unfoldable pub uint_word : Option ℤ → Option (List ℕ)
unfolding fill_bytes
uint_word none = some (replicate 32 0)
uint_word (some (pos n)) = if ltb n (2 ^ 256) then some (fill_bytes 32 n) else none
uint_word (some (negsuc n)) = if ltb (suc n) (2 ^ 256) then some (fill_bytes 32 (suc n)) else none

unfoldable pub bool_word : Bool → List ℕ
unfolding fill_bytes
bool_word true = fill_bytes 32 1
bool_word false = fill_bytes 32 0

-- Two's complement for a word of 32 bytes.
abbrev is_negative : List ℕ → Bool
is_negative [] = false
is_negative (b ∷ bs) = if suc (length bs) == 32 then leb 128 b else false

unfoldable pub word_int : List ℕ → ℤ
unfolding word_uint ◌-ℤ◌
word_int w = if is_negative w then pos (word_uint w) -ℤ pos (2 ^ 256) else pos (word_uint w)

unfoldable pub word_address : List ℕ → Text
unfolding encode_hex
word_address w = bytes "0x" ++ encode_hex (drop 12 w)

unfoldable pub address_word : Text → Option (List ℕ)
unfolding trim_0x decode_hex trim_space
address_word address =
    let raw = trim_0x (trim_space address) in
    if length raw == 40
    then elim (decode_hex raw) [ none ↦ none | some bs ↦ some (replicate 12 0 ++ bs) ]
    else none

-- The 4-byte Keccak selector of a signature is `selector`.
unfoldable pub static_call : (Text → List ℕ) → Text → List (List ℕ) → Text
unfolding encode_hex
static_call selector signature words = bytes "0x" ++ encode_hex (selector signature ++ concat words)

-- The zero bytes that fill the last word of the argument.
abbrev pub padding : ℕ → List ℕ
padding n = if n % 32 == 0 then [] else replicate (32 - n % 32) 0

pub dynamic_bytes : (Text → List ℕ) → Text → List (List ℕ) → List ℕ → List ℕ
unfolding fill_bytes
dynamic_bytes selector signature static_words arg =
    selector signature
    ++ (concat static_words
        ++ (fill_bytes 32 (32 * (length static_words + 1))
            ++ (fill_bytes 32 (length arg) ++ (arg ++ padding (length arg)))))

unfoldable pub dynamic_bytes_call : (Text → List ℕ) → Text → List (List ℕ) → List ℕ → Text
unfolding dynamic_bytes encode_hex
dynamic_bytes_call selector signature static_words arg =
    bytes "0x" ++ encode_hex (dynamic_bytes selector signature static_words arg)
