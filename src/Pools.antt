-- ===== src/Pools.antt =====
-- go/internal/pools/pools.go: pools of the two DEXes.
-- A `*big.Int` is an `Option` of an integer. RPC calls are arguments.
pub mod Logs
pub mod Discovery
mod Tests
use titanarb_engine.Base.{
  ℕ, ◌≡◌, Bool, true, false, ◌&&◌, ◌||◌, Option, none, some, Text, bytes, equal_fold, ltb, text_eq,
}
use titanarb_engine.Base.Int.{ℤ, pos, negsuc}

abbrev pub uniswap_v3 : Text
uniswap_v3 = bytes "uniswap_v3"

abbrev pub camelot_v3 : Text
camelot_v3 = bytes "camelot_v3"

pub record Pool : Type 0 where
  pub address : Text
  pub token0 : Text
  pub token1 : Text
  pub dex : Text
  pub fee : ℕ
  pub liquidity : Option ℤ
  pub sqrt_price_x96 : Option ℤ
  pub last_updated_block : ℕ

pub record Swap : Type 0 where
  pub pool : Text
  pub amount0 : ℤ
  pub amount1 : ℤ
  pub sqrt_price_x96 : ℕ
  pub liquidity : ℕ
  pub block : ℕ

unfoldable pub supports : Pool → Text → Text → Bool
supports p token_in token_out =
    (equal_fold token_in p.token0 && equal_fold token_out p.token1)
    || (equal_fold token_in p.token1 && equal_fold token_out p.token0)

-- v.Sign() > 0
abbrev pub positive : ℤ → Bool
positive (pos n) = ltb 0 n
positive (negsuc n) = false

-- v != nil && v.Sign() > 0
abbrev pub is_positive : Option ℤ → Bool
is_positive none = false
is_positive (some v) = positive v
