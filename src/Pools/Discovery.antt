-- ===== src/Pools/Discovery.antt =====
-- go/internal/pools/pools.go: discovery of the pools of a pair, and the refresh of a pool. `node` answers
-- a call for its target, calldata and block; whether it reads the state at the block is its own.
pub mod Answered
pub mod Shown
pub mod Pairs
pub mod Refreshed
use titanarb_engine.Base.{
  ℕ, ◌%◌, Bool, true, false, not, Option, none, some, ◌⊎◌, inl, inr, List, [], ◌∷◌, ◌++◌, length,
  Text, bytes, equal_fold, text_eq, ltb, ◌==◌, if◌then◌else◌,
}
use titanarb_engine.Base.Int.{pos}
use titanarb_engine.Dex.{
  address_word, decode_words, static_call, word_address, word_uint, fill_bytes,
}
use titanarb_engine.Pools.{Pool, uniswap_v3, camelot_v3, is_positive}

-- The settings of Discoverer that its reads use.
pub record Discoverer : Type 0 where
  pub uniswap_factory : Text
  pub camelot_factory : Text
  pub fees : List ℕ

pub data DiscoveryError : Type 0 where
  invalid_address address_missing invalid_response unsupported_dex : DiscoveryError
  node_error : Text → DiscoveryError

-- A result, or an error, and the pools that the observer was shown on the way.
abbrev pub Found : Type 0 → Type 0
Found A = (DiscoveryError ⊎ A) × List Pool

infixl 5 ◌>>=◌ ◌>>◌
unfoldable pub ◌>>=◌ : {A B : Type 0} → Found A → (A → Found B) → Found B
◌>>=◌ (inl e, seen) f = (inl e, seen)
◌>>=◌ (inr a, seen) f = ((f a).0, seen ++ (f a).1)

abbrev pub ◌>>◌ : {A B : Type 0} → Found A → Found B → Found B
m >> k = m >>= λ _. k

abbrev pub pure : {A : Type 0} → A → Found A
pure a = (inr a, [])

abbrev pub fails : {A : Type 0} → DiscoveryError → Found A
fails e = (inl e, [])

-- notifyPool
abbrev pub notify_pool : Pool → Found Unit
notify_pool p = (inr tt, p ∷ [])

unfoldable pub word_or_fail : Text → Found (List ℕ)
word_or_fail address = elim (address_word address) [
  | none ↦ fails invalid_address
  | some w ↦ pure w
]

-- The first word of a response.
unfoldable pub first_word_of : Text → Found (List ℕ)
first_word_of raw = elim (decode_words raw) [
  | none ↦ fails invalid_response
  | some [] ↦ fails invalid_response
  | some (w ∷ ws) ↦ pure w
]

-- isZeroAddress
unfoldable pub is_zero_address : Text → Bool
is_zero_address address = equal_fold address (bytes "0x0000000000000000000000000000000000000000")

-- What a factory answers: a pool, whose state is read, or the zero address for none.
unfoldable pub pool_from : (Text → ℕ → Found Pool) → Text → ℕ → Found (Option Pool)
pool_from state raw block = do
  w ← first_word_of raw
  if is_zero_address (word_address w)
      then pure none
      else (do pool ← state (word_address w) block; pure (some pool))

-- The tokens and the liquidity of a pool.
pub record CoreState : Type 0 where
  pub token0 : Text
  pub token1 : Text
  pub liquidity : ℕ

module _ (selector : Text → List ℕ) (node : Text → Text → ℕ → Text ⊎ Text) where
  -- call
  unfoldable pub ask : Text → Text → ℕ → Found Text
  ask to payload block =
      if length to == 0
      then fails address_missing
      else elim (node to payload block) [ inl m ↦ fails (node_error m) | inr raw ↦ pure raw ]

  -- A call without arguments.
  unfoldable pub ask_for : Text → Text → ℕ → Found Text
  ask_for to signature block = ask to (static_call selector signature []) block

  -- corePoolState
  unfoldable pub core_pool_state : Text → ℕ → Found CoreState
  core_pool_state address block = do
    t0 ← ask_for address (bytes "token0()") block
    t1 ← ask_for address (bytes "token1()") block
    liquidity ← ask_for address (bytes "liquidity()") block
    w0 ← first_word_of t0
    w1 ← first_word_of t1
    wl ← first_word_of liquidity
    pure (record { token0 = word_address w0; token1 = word_address w1; liquidity = word_uint wl })

  -- uniswapPool after its pool is known.
  unfoldable pub uniswap_state : Text → ℕ → Found Pool
  uniswap_state address block = do
    core ← core_pool_state address block
    fee_raw ← ask_for address (bytes "fee()") block
    fee ← first_word_of fee_raw
    slot_raw ← ask_for address (bytes "slot0()") block
    slot ← first_word_of slot_raw
    let pool : Pool = record {
      address = address;
      token0 = core.token0;
      token1 = core.token1;
      dex = uniswap_v3;
      fee = word_uint fee % 4294967296;
      liquidity = some (pos core.liquidity);
      sqrt_price_x96 = some (pos (word_uint slot));
      last_updated_block = block;
    }
    notify_pool pool
    pure pool

  -- camelotPool after its pool is known.
  unfoldable pub camelot_state : Text → ℕ → Found Pool
  camelot_state address block = do
    core ← core_pool_state address block
    state_raw ← ask_for address (bytes "globalState()") block
    state ← first_word_of state_raw
    let pool : Pool = record {
      address = address;
      token0 = core.token0;
      token1 = core.token1;
      dex = camelot_v3;
      fee = 0;
      liquidity = some (pos core.liquidity);
      sqrt_price_x96 = some (pos (word_uint state));
      last_updated_block = block;
    }
    notify_pool pool
    pure pool

  -- uniswapPool
  unfoldable pub uniswap_pool : Discoverer → Text → Text → ℕ → ℕ → Found (Option Pool)
  uniswap_pool d a b fee block = do
    aw ← word_or_fail a
    bw ← word_or_fail b
    raw ←
        ask d.uniswap_factory
          (static_call selector (bytes "getPool(address,address,uint24)")
            (aw ∷ bw ∷ fill_bytes 32 fee ∷ []))
          block
    pool_from uniswap_state raw block

  -- camelotPool
  unfoldable pub camelot_pool : Discoverer → Text → Text → ℕ → Found (Option Pool)
  camelot_pool d a b block = do
    aw ← word_or_fail a
    bw ← word_or_fail b
    raw ←
        ask d.camelot_factory
          (static_call selector (bytes "poolByPair(address,address)") (aw ∷ bw ∷ [])) block
    pool_from camelot_state raw block

-- The call for the state of a pool of a DEX.
unfoldable pub state_call : Text → Found Text
state_call dex =
    if text_eq dex camelot_v3
    then pure (bytes "globalState()")
    else if text_eq dex uniswap_v3
    then pure (bytes "slot0()")
    else fails unsupported_dex

-- A pool that is there and liquid.
unfoldable pub liquid_only : Option Pool → List Pool
liquid_only none = []
liquid_only (some p) = if is_positive p.liquidity then p ∷ [] else []

module _ (selector : Text → List ℕ) (node : Text → Text → ℕ → Text ⊎ Text) where
  -- DiscoverUniswapFeeAt
  unfoldable pub discover_uniswap_fee_at : Discoverer → Text → Text → ℕ → ℕ → Found (List Pool)
  discover_uniswap_fee_at d a b fee block = do
    pool ← uniswap_pool selector node d a b fee block
    pure (liquid_only pool)

  -- DiscoverCamelotPairAt
  unfoldable pub discover_camelot_pair_at : Discoverer → Text → Text → ℕ → Found (List Pool)
  discover_camelot_pair_at d a b block = do
    pool ← camelot_pool selector node d a b block
    pure (liquid_only pool)

  -- The loop of DiscoverPairAt over the fees.
  unfoldable pub discover_fees : Discoverer → Text → Text → ℕ → List ℕ → Found (List Pool)
  discover_fees d a b block [] = pure []
  discover_fees d a b block (fee ∷ fees) = do
    pool ← uniswap_pool selector node d a b fee block
    rest ← discover_fees d a b block fees
    pure (liquid_only pool ++ rest)

  -- DiscoverPairAt
  unfoldable pub discover_pair_at : Discoverer → Text → Text → ℕ → Found (List Pool)
  discover_pair_at d a b block = do
    uniswap ← discover_fees d a b block d.fees
    pool ← camelot_pool selector node d a b block
    pure (uniswap ++ liquid_only pool)

  -- RefreshPoolAt
  unfoldable pub refresh_pool_at : Pool → ℕ → Found Pool
  refresh_pool_at pool block = do
    liquidity_raw ← ask_for selector node pool.address (bytes "liquidity()") block
    liquidity ← first_word_of liquidity_raw
    method ← state_call pool.dex
    state_raw ← ask_for selector node pool.address method block
    state ← first_word_of state_raw
    let updated : Pool = record pool {
      liquidity = some (pos (word_uint liquidity));
      sqrt_price_x96 = some (pos (word_uint state));
      last_updated_block = block;
    }
    notify_pool updated
    pure updated
