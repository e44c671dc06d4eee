-- ===== src/Wallet/Nonces.antt =====
-- Histories of reservations and releases of nonces (wallet.go).
use titanarb_engine.Base.{
  ℕ, suc, ◌+◌, ◌%◌, ◌≤◌, ◌<◌, ◌≡◌, refl, inl, inr, Option, none, some, List, [], ◌∷◌, arith, u64,
  length, Distinct, All, All-map, All-In, Option-cases, Bool-cases, ltb, ◌==◌,
}
use titanarb_engine.Wallet.{NonceManager, next_nonce, release, nonce_from}
use titanarb_engine.Wallet.Positions.{
  nth, without, not-In-under, Distinct-without, All-without, In-nth, All-without_top, All-below,
}

-- A caller reserves a nonce, or gives back the reserved one at a position of the list of them.
pub data NonceCall : Type 0 where
  reserves : Option ℕ → NonceCall
  gives_back : ℕ → NonceCall

-- The manager with the nonces that are reserved and not given back.
pub record Ledger : Type 0 where
  pub manager : NonceManager
  pub reserved : List ℕ

abbrev add_reserved : Option ℕ → List ℕ → List ℕ
add_reserved none ns = ns
add_reserved (some n) ns = n ∷ ns

abbrev release_some : Option ℕ → NonceManager → NonceManager
release_some none m = m
release_some (some n) m = release n m

unfoldable pub run_nonce : NonceCall → Ledger → Ledger
run_nonce (reserves answer) l =
    let (n, m) = next_nonce answer l.manager in
    record { manager = m; reserved = add_reserved n l.reserved }
run_nonce (gives_back i) l = record {
  manager = release_some (nth i l.reserved) l.manager;
  reserved = without i l.reserved;
}

unfoldable pub run_nonces : List NonceCall → Ledger → Ledger
run_nonces [] l = l
run_nonces (c ∷ cs) l = run_nonces cs (run_nonce c l)

-- The chain's pending counts stay below a bound.
abbrev pub IsBelow : ℕ → NonceCall → Type 0
IsBelow b (reserves none) = Unit
IsBelow b (reserves (some n)) = n < b
IsBelow b (gives_back i) = Unit

-- Every reserved nonce is below the next one.
abbrev pub IsUnder : NonceManager → List ℕ → Type 0
IsUnder none ns = ns ≡ []
IsUnder (some n) ns = All (λ r. r < n) ns

abbrev AtMost : ℕ → NonceManager → Type 0
AtMost b none = Unit
AtMost b (some n) = n ≤ b

record IsSound (b : ℕ) (l : Ledger) : Type 0 where
  bound : AtMost b l.manager
  under : IsUnder l.manager l.reserved
  distinct : Distinct l.reserved

-- The nonce that is handed out lies above all reserved ones.
nonce_from-bounds :
    (b pending : ℕ) (m : NonceManager) (ns : List ℕ)
    → AtMost b m
    → IsUnder m ns
    → pending < b
    → (nonce_from pending m ≤ b) × All (λ r. r < nonce_from pending m) ns
nonce_from-bounds b pending none ns bound under h = (omega arith, rw under tt)
nonce_from-bounds b pending (some n) ns bound under h = elim (Bool-cases (ltb n pending)) [
  | inl ahead ↦ rw ahead (omega arith, All-below n pending ns (ground arith) under)
  | inr behind ↦ rw behind (bound, under)
]

reserve-IsSound :
    (b pending : ℕ) (l : Ledger)
    → IsSound b l
    → pending < b
    → b + 1 < u64
    → IsSound (b + 1) (run_nonce (reserves (some pending)) l)
unfolding run_nonce next_nonce
reserve-IsSound b pending l s h fits =
    let n = nonce_from pending l.manager in
    let (small, above) = nonce_from-bounds b pending l.manager l.reserved s.bound s.under h in
    let same : (n + 1) % u64 ≡ n + 1 = omega (arith, small) in
    record {
      bound = rw same (omega (arith, small));
      under =
          (omega (arith, same), All-below n ((n + 1) % u64) l.reserved (omega (arith, same)) above);
      distinct = (not-In-under n l.reserved above, s.distinct);
    }

IsUnder-without : (i : ℕ) (m : NonceManager) (ns : List ℕ) → IsUnder m ns → IsUnder m (without i ns)
IsUnder-without i none ns h = rw h refl
IsUnder-without i (some n) ns h = All-without (λ r. r < n) i ns h

release-bounds :
    (b i n : ℕ) (m : NonceManager) (ns : List ℕ)
    → AtMost b m
    → IsUnder m ns
    → Distinct ns
    → nth i ns ≡ some n
    → b + 1 < u64
    → AtMost b (release n m) × IsUnder (release n m) (without i ns)
unfolding release
release-bounds b i n none ns bound under d e fits = (tt, rw under refl)
release-bounds b i n (some top) ns bound under d e fits = elim (Bool-cases (top == (n + 1) % u64)) [
  | inr other ↦ rw (other, release) (bound, All-without (λ r. r < top) i ns under)
  | inl last ↦
      let wrapped : top ≡ (n + 1) % u64 = ground arith in
      let below : n < top = All-In (λ r. r < top) n ns (In-nth n i ns e) under in
      let same : top ≡ n + 1 = omega (arith, wrapped, below, bound, fits) in
      rw (last, release) (omega (arith, same, bound), All-without_top n i ns e d (rw same at under))
]

release-IsSound :
    (b i : ℕ) (l : Ledger) → IsSound b l → b + 1 < u64 → IsSound b (run_nonce (gives_back i) l)
unfolding run_nonce
release-IsSound b i l s fits = elim (Option-cases (nth i l.reserved)) [
  | inl missing ↦
      rw (missing, run_nonce)
        (record {
          bound = s.bound;
          under = IsUnder-without i l.manager l.reserved s.under;
          distinct = Distinct-without i l.reserved s.distinct;
        })
  | inr (n, e) ↦
      let (bound, under) =
        release-bounds b i n l.manager l.reserved s.bound s.under s.distinct e fits in
      rw (e, run_nonce)
        (record {
          bound = bound;
          under = under;
          distinct = Distinct-without i l.reserved s.distinct;
        })
]

IsSound-grow : (b : ℕ) (l : Ledger) → IsSound b l → IsSound (b + 1) l
IsSound-grow b l s = record {
  bound = grown l.manager s.bound;
  under = s.under;
  distinct = s.distinct;
}
  where
    grown : (m : NonceManager) → AtMost b m → AtMost (b + 1) m
    grown none h = tt
    grown (some n) h = omega arith

run_nonces-IsSound :
    (b : ℕ) (cs : List NonceCall) (l : Ledger)
    → IsSound b l
    → All (IsBelow b) cs
    → b + length cs + 1 < u64
    → IsSound (b + length cs) (run_nonces cs l)
unfolding run_nonces run_nonce next_nonce
run_nonces-IsSound b [] l s h fits = let same : b + 0 ≡ b = omega arith in rw same s
run_nonces-IsSound b (c ∷ cs) l s h fits =
    let same : b + suc (length cs) ≡ (b + 1) + length cs = omega arith in
    rw same (
      run_nonces-IsSound (b + 1) cs (run_nonce c l) (one c h.0)
        (All-map (λ (k : NonceCall) g. IsBelow-grow k g) cs h.1) (omega arith))
  where
    IsBelow-grow : (k : NonceCall) → IsBelow b k → IsBelow (b + 1) k
    IsBelow-grow (reserves none) g = tt
    IsBelow-grow (reserves (some n)) g = omega arith
    IsBelow-grow (gives_back i) g = tt

    one : (k : NonceCall) → IsBelow b k → IsSound (b + 1) (run_nonce k l)
    one (reserves none) g = IsSound-grow b l s
    one (reserves (some n)) g = reserve-IsSound b n l s g (omega arith)
    one (gives_back i) g = IsSound-grow b _ (release-IsSound b i l s (omega arith))

abbrev pub no_nonces : Ledger
no_nonces = record { manager = none; reserved = [] }

-- Whatever the pending counts, the failed reservations and the order in which nonces are given back,
-- the reserved nonces are different from one another, and the next one lies above them all. The
-- pending counts and the number of calls together stay below 2 ^ 64.
pub reserved-Distinct :
    (b : ℕ) (cs : List NonceCall)
    → All (IsBelow b) cs
    → b + length cs + 1 < u64
    → Distinct (run_nonces cs no_nonces).reserved
      × IsUnder (run_nonces cs no_nonces).manager (run_nonces cs no_nonces).reserved
reserved-Distinct b cs h fits =
    let s =
      run_nonces-IsSound b cs no_nonces (record { bound = tt; under = refl; distinct = tt }) h
        fits in
    (s.distinct, s.under)

-- The last nonce handed out, given back, is handed out again if the chain's count is not above it.
pub release-next_nonce :
    (pending again : ℕ) (m : NonceManager)
    → nonce_from pending m + 1 < u64
    → again ≤ nonce_from pending m
    → (next_nonce (some again) (release (nonce_from pending m) (next_nonce (some pending) m).1)).0
      ≡ some (nonce_from pending m)
unfolding next_nonce release
release-next_nonce pending again m h k = ground arith
