-- ===== src/Wallet.antt =====
-- go/internal/wallet/wallet.go: the nonce manager. Each method holds its lock, so a history of calls is
-- a list. The wallet's key and its signatures belong to go-ethereum.
pub mod Positions
pub mod Nonces
mod Tests
use titanarb_engine.Base.{
  ℕ, zero, suc, ◌+◌, ◌%◌, ◌≡◌, Bool, true, false, ◌||◌, Option, none, some, List, [], ◌∷◌, ltb,
  ◌==◌, if◌then◌else◌, u64,
}

-- NonceManager, by its field `next`; `none` for nil.
abbrev pub NonceManager : Type 0
NonceManager = Option ℕ

-- The nonce that is handed out, for a pending count.
abbrev pub nonce_from : ℕ → NonceManager → ℕ
nonce_from pending none = pending
nonce_from pending (some n) = if ltb n pending then pending else n

-- Next, for the chain's answer to the pending transaction count: `none` is its error.
unfoldable pub next_nonce : Option ℕ → NonceManager → Option ℕ × NonceManager
next_nonce none m = (none, m)
next_nonce (some pending) m = let n = nonce_from pending m in (some n, some ((n + 1) % u64))

pub release : ℕ → NonceManager → NonceManager
release nonce none = none
release nonce (some n) = if n == (nonce + 1) % u64 then some nonce else some n
