-- ===== src/Wallet/Tests.antt =====
-- Two reservations, of which the first is given back.
use titanarb_engine.Base.{◌≡◌, refl, some, none, List, [], ◌∷◌, arith, Distinct}
use titanarb_engine.Wallet.{next_nonce, release}
use titanarb_engine.Wallet.Nonces.{
  NonceCall, reserves, gives_back, run_nonce, run_nonces, no_nonces, IsUnder, reserved-Distinct,
}

abbrev calls : List NonceCall
calls =
    reserves (some 5) ∷ reserves none ∷ reserves (some 5) ∷ gives_back 1 ∷ reserves (some 6) ∷ []

calls_run : run_nonces calls no_nonces ≡ record { manager = some 8; reserved = 7 ∷ 6 ∷ [] }
unfolding run_nonces run_nonce next_nonce release
calls_run = refl

reserved-Distinct_example :
    Distinct (run_nonces calls no_nonces).reserved
    × IsUnder (run_nonces calls no_nonces).manager (run_nonces calls no_nonces).reserved
reserved-Distinct_example = reserved-Distinct 100 calls (omega arith) (omega arith)
