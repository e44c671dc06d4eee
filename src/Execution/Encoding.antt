-- ===== src/Execution/Encoding.antt =====
-- The fee argument of the Uniswap adapter (builder.go).
use titanarb_engine.Base.{
  ℕ, suc, ◌≤◌, ◌<◌, ◌≡◌, refl, sym, ap, ◌∙◌, arith, none, some, [], ◌∷◌, ◌++◌, ◌/◌, ◌%◌, replicate,
  ltb, false,
}
use titanarb_engine.Dex.{fill_bytes, word_uint}
use titanarb_engine.Dex.Words.{from_bytes-fill_bytes}
use titanarb_engine.Execution.{encode_uniswap_fee}

fill_bytes-three :
    (k v : ℕ)
    → fill_bytes (suc (suc (suc k))) v
      ≡ ((fill_bytes k (v / 256 / 256 / 256) ++ (v / 256 / 256 % 256) ∷ []) ++ (v / 256 % 256) ∷ [])
        ++ (v % 256) ∷ []
unfolding fill_bytes
fill_bytes-three k v = refl

fill_bytes-zero : fill_bytes 29 0 ≡ replicate 29 0
unfolding fill_bytes
fill_bytes-zero = refl

fill_bytes-fee :
    (fee : ℕ)
    → fee ≤ 16777215
    → fill_bytes 32 fee
      ≡ replicate 29 0 ++ (fee / 65536 % 256) ∷ (fee / 256 % 256) ∷ (fee % 256) ∷ []
fill_bytes-fee fee h =
    let top : fee / 256 / 256 / 256 ≡ 0 = omega arith in
    let high : fee / 256 / 256 ≡ fee / 65536 = omega arith in
    fill_bytes-three 29 fee ∙ rw (top, high, fill_bytes-zero)

-- A fee of at most 24 bits is encoded as the 32-byte big-endian word of its value, which is
-- abi.encode(uint24(fee)), so that the word reads back as the fee; a larger one is refused.
pub encode_uniswap_fee_lem :
    (fee : ℕ)
    → (fee ≤ 16777215
        → (encode_uniswap_fee fee ≡ some (fill_bytes 32 fee))
          × (word_uint (fill_bytes 32 fee) ≡ fee))
      × (16777215 < fee → encode_uniswap_fee fee ≡ none)
unfolding encode_uniswap_fee word_uint
encode_uniswap_fee_lem fee = (
  λ h.
      let small : ltb 16777215 fee ≡ false = ground arith in
      (
        rw (small, encode_uniswap_fee) (ap some (sym (fill_bytes-fee fee h))),
        from_bytes-fill_bytes 32 fee (omega arith),
      ),
  λ h. ground arith,
)
