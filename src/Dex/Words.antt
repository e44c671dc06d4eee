-- ===== src/Dex/Words.antt =====
-- Words of 32 bytes, and the responses that are made of them.
use native.Mathlib.Nat.{pow-suc}
use titanarb_engine.Base.{
  ==_iff, not-==, true, false, ◌==◌, Text, ℕ, zero, suc, ◌+◌, ◌*◌, ◌/◌, ◌%◌, ◌^◌, ◌≤◌, ◌<◌, ◌≡◌,
  refl, some, none, List, [], ◌∷◌, ◌++◌, arith, All, All-append, length, length-append, take_append,
  drop_append, concat, ap, ◌∙◌, ◌-◌, bytes,
}
use titanarb_engine.Base.Int.{pos, negsuc}
use titanarb_engine.Dex.{
  encode_hex, decode_hex, trim_0x, split_words, decode_words, from_bytes, word_uint, fill_bytes,
  uint_word, word_int,
}
use titanarb_engine.Dex.Hex.{IsByte, decode_hex-encode_hex, trim_0x-prefix}

from_bytes-snoc :
    (acc : ℕ) (bs : List ℕ) (b : ℕ) → from_bytes acc (bs ++ b ∷ []) ≡ from_bytes acc bs * 256 + b
unfolding from_bytes
from_bytes-snoc acc [] b = refl
from_bytes-snoc acc (x ∷ bs) b = from_bytes-snoc (acc * 256 + x) bs b

pub length-fill_bytes : (k v : ℕ) → length (fill_bytes k v) ≡ k
unfolding fill_bytes
length-fill_bytes zero v = refl
length-fill_bytes (suc k) v =
    omega (
      arith,
      length-append (fill_bytes k (v / 256)) ((v % 256) ∷ []),
      length-fill_bytes k (v / 256),
    )

fill_bytes-IsByte : (k v : ℕ) → All IsByte (fill_bytes k v)
unfolding fill_bytes
fill_bytes-IsByte zero v = tt
fill_bytes-IsByte (suc k) v =
    All-append IsByte (fill_bytes k (v / 256)) _ (fill_bytes-IsByte k (v / 256)) (omega arith)

pub from_bytes-fill_bytes : (k v : ℕ) → v < 256 ^ k → from_bytes 0 (fill_bytes k v) ≡ v
unfolding from_bytes fill_bytes
from_bytes-fill_bytes zero v h = omega arith
from_bytes-fill_bytes (suc k) v h =
    let small : v / 256 < 256 ^ k = omega (arith, pow-suc 256 k) in
    omega (
      arith,
      from_bytes-snoc 0 (fill_bytes k (v / 256)) (v % 256),
      from_bytes-fill_bytes k (v / 256) small,
    )

-- A non-negative value of at most 256 bits is read back from its word, which has 32 bytes; a larger
-- one is refused.
pub word_uint-uint_word :
    (n : ℕ)
    → (n < 2 ^ 256
        → (w : List ℕ) × (uint_word (some (pos n)) ≡ some w) × (length w ≡ 32) × (word_uint w ≡ n))
      × (2 ^ 256 ≤ n → uint_word (some (pos n)) ≡ none)
unfolding uint_word word_uint
word_uint-uint_word n = (
  λ h. (fill_bytes 32 n, ground arith, length-fill_bytes 32 n, from_bytes-fill_bytes 32 n h),
  λ h. ground arith,
)

pub record IsWord (w : List ℕ) : Type 0 where
  pub size : length w ≡ 32
  pub valid : All IsByte w

concat-IsByte : (ws : List (List ℕ)) → All IsWord ws → All IsByte (concat ws)
concat-IsByte [] h = tt
concat-IsByte (w ∷ ws) h = All-append IsByte w (concat ws) h.0.valid (concat-IsByte ws h.1)

pub length-concat : (ws : List (List ℕ)) → All IsWord ws → length (concat ws) ≡ 32 * length ws
length-concat [] h = refl
length-concat (w ∷ ws) h =
    omega (arith, length-append w (concat ws), length-concat ws h.1, h.0.size)

split_words-step :
    (n : ℕ) (w rest : List ℕ)
    → length w ≡ 32
    → split_words (suc n) (w ++ rest) ≡ w ∷ split_words n rest
unfolding split_words
split_words-step n [] rest h = absurd (omega arith)
split_words-step n (b ∷ bs) rest h =
    cc (take_append (b ∷ bs) rest 32 h, drop_append (b ∷ bs) rest 32 h)

split_words-concat : (ws : List (List ℕ)) → All IsWord ws → split_words (length ws) (concat ws) ≡ ws
unfolding split_words
split_words-concat [] h = refl
split_words-concat (w ∷ ws) h =
    split_words-step (length ws) w (concat ws) h.0.size ∙ ap (◌∷◌ w) (split_words-concat ws h.1)

decode_words_aligned :
    (raw : Text) (bs : List ℕ) (n : ℕ)
    → decode_hex (trim_0x raw) ≡ some bs
    → length bs ≡ 32 * suc n
    → decode_words raw ≡ some (split_words (suc n) bs)
unfolding decode_words
decode_words_aligned raw bs n e size =
    let rounds : length bs / 32 ≡ suc n = omega (arith, size) in
    let filled : (length bs == 0) ≡ false = not-== (length bs) 0 (omega (arith, size)) in
    let aligned : (length bs % 32 == 0) ≡ true = (==_iff _ _).1 (omega (arith, size)) in
    rw (e, decode_words, filled, aligned, rounds)

-- A response that encodes at least one word decodes to exactly its words.
pub decode_words-encode_hex :
    (w : List ℕ) (ws : List (List ℕ))
    → All IsWord (w ∷ ws)
    → decode_words (bytes "0x" ++ encode_hex (concat (w ∷ ws))) ≡ some (w ∷ ws)
decode_words-encode_hex w ws h =
    decode_words_aligned _ (concat (w ∷ ws)) (length ws)
      (ap decode_hex (trim_0x-prefix (encode_hex (concat (w ∷ ws))))
        ∙ decode_hex-encode_hex (concat (w ∷ ws)) (concat-IsByte (w ∷ ws) h))
      (length-concat (w ∷ ws) h)
    ∙ ap some (split_words-concat (w ∷ ws) h)

mul-le-mul_right : (a b p : ℕ) → a ≤ b → a * p ≤ b * p
mul-le-mul_right a b p h = grind arith

from_bytes_bounds :
    (acc : ℕ) (bs : List ℕ)
    → All IsByte bs
    → (acc * 256 ^ length bs ≤ from_bytes acc bs)
      × (from_bytes acc bs < (acc + 1) * 256 ^ length bs)
unfolding from_bytes
from_bytes_bounds acc [] h = omega arith
from_bytes_bounds acc (b ∷ bs) h =
    let (low, high) = from_bytes_bounds (acc * 256 + b) bs h.1 in
    let grown = pow-suc 256 (length bs) in
    let small : b * 256 ^ length bs ≤ 255 * 256 ^ length bs =
      mul-le-mul_right b 255 _ (omega (arith, h.0)) in
    (
      omega (arith, low, ap (λ (t : ℕ). acc * t) grown),
      omega (arith, high, small, ap (λ (t : ℕ). (acc + 1) * t) grown),
    )

-- The top byte of a word decides on which side of 2 ^ 255 it lies.
word_bounds :
    (b : ℕ) (bs : List ℕ)
    → IsWord (b ∷ bs)
    → (b * 2 ^ 248 ≤ word_uint (b ∷ bs)) × (word_uint (b ∷ bs) < (b + 1) * 2 ^ 248)
unfolding word_uint from_bytes
word_bounds b bs h =
    let size : length bs ≡ 31 = omega (arith, h.size) in
    let start : 0 + b ≡ b = omega arith in rw start (rw size at (from_bytes_bounds b bs h.valid.1))

-- A word of 32 bytes stands for its value, less 2 ^ 256 from 2 ^ 255 on: two's complement.
pub word_int_lem :
    (w : List ℕ)
    → IsWord w
    → (word_uint w < 2 ^ 255 → word_int w ≡ pos (word_uint w))
      × (2 ^ 255 ≤ word_uint w
          → (word_uint w < 2 ^ 256) × (word_int w ≡ negsuc (2 ^ 256 - 1 - word_uint w)))
unfolding word_int
word_int_lem [] h = absurd (omega (arith, h.size))
word_int_lem (b ∷ bs) h = let (low, high) = word_bounds b bs h in ground (arith, h.size)
