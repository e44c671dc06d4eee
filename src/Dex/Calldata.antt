-- ===== src/Dex/Calldata.antt =====
-- Calls with one dynamic bytes argument (DynamicBytesCall of evm.go).
use mathlib.Core.List.{append_assoc}
use titanarb_engine.Base.{
  Text, ℕ, ◌+◌, ◌*◌, ◌/◌, ◌%◌, ◌-◌, ◌≡◌, ◌≢◌, refl, ap, List, ◌++◌, arith, All, Bool-cases, Bool-ne,
  inl, inr, ◌==◌, ==_iff, length-replicate, length, length-append, take, drop, take_append,
  drop_append, concat,
}
use titanarb_engine.Dex.{fill_bytes, dynamic_bytes, padding}
use titanarb_engine.Dex.Words.{IsWord, length-fill_bytes, length-concat}

length-padding : (n : ℕ) → n + length (padding n) ≡ 32 * ((n + 31) / 32)
length-padding n = elim (Bool-cases (n % 32 == 0)) [
  | inl whole ↦ rw whole (let e : n % 32 ≡ 0 = (==_iff _ _).0 whole in omega (arith, e))
  | inr partial ↦ rw partial (
      let e : n % 32 ≢ 0 = λ z. Bool-ne ((==_iff _ _).1 z) partial in
      omega (arith, e, length-replicate {A = ℕ} (32 - n % 32) 0))
]

-- Call data is the 4-byte selector and whole words: the static arguments, the offset of the bytes
-- argument (which is where it starts), its length, and its content padded to a word.
pub dynamic_bytes_lem :
    (selector : Text → List ℕ) (signature : Text) (ws : List (List ℕ)) (arg : List ℕ)
    → length (selector signature) ≡ 4
    → All IsWord ws
    → (length (dynamic_bytes selector signature ws arg)
        ≡ 4 + 32 * (length ws + 2) + 32 * ((length arg + 31) / 32))
      × (take
            (length arg)
            (drop (4 + 32 * (length ws + 1) + 32) (dynamic_bytes selector signature ws arg))
          ≡ arg)
unfolding dynamic_bytes
dynamic_bytes_lem selector signature ws arg four h = (
  omega (
    arith,
    length-append (selector signature) after,
    length-append (concat ws) after_words,
    length-append offset (size ++ (arg ++ padding (length arg))),
    length-append size (arg ++ padding (length arg)),
    length-append arg (padding (length arg)),
    length-concat ws h,
    length-fill_bytes 32 (32 * (length ws + 1)),
    length-fill_bytes 32 (length arg),
    length-padding (length arg),
    four,
  ),
  cc (
    ap (drop (4 + 32 * (length ws + 1) + 32)) grouped,
    dropped,
    take_append arg (padding (length arg)) (length arg) refl,
  ),
)
  where
    offset : List ℕ
    offset = fill_bytes 32 (32 * (length ws + 1))

    size : List ℕ
    size = fill_bytes 32 (length arg)

    after_words : List ℕ
    after_words = offset ++ (size ++ (arg ++ padding (length arg)))

    after : List ℕ
    after = concat ws ++ after_words

    before : List ℕ
    before = selector signature ++ (concat ws ++ (offset ++ size))

    grouped : dynamic_bytes selector signature ws arg ≡ before ++ (arg ++ padding (length arg))
    grouped = simp append_assoc

    before-length : length before ≡ 4 + 32 * (length ws + 1) + 32
    before-length = omega (
      arith,
      length-append (selector signature) (concat ws ++ (offset ++ size)),
      length-append (concat ws) (offset ++ size),
      length-append offset size,
      length-concat ws h,
      length-fill_bytes 32 (32 * (length ws + 1)),
      length-fill_bytes 32 (length arg),
      four,
    )

    dropped :
        drop (4 + 32 * (length ws + 1) + 32) (before ++ (arg ++ padding (length arg)))
        ≡ arg ++ padding (length arg)
    dropped = drop_append before (arg ++ padding (length arg)) _ before-length
