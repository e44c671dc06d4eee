-- ===== src/Pools/Discovery/Pairs.antt =====
-- The pools of a pair (pools.go, DiscoverPairAt).
use titanarb_engine.Base.{
  ℕ, ◌≡◌, subst, true, false, Option, none, some, ◌⊎◌, inl, inr, List, [], ◌∷◌, Text, In, All,
  All-append, All-map, Bool-cases, inr-inj,
}
use titanarb_engine.Pools.{Pool, is_positive}
use titanarb_engine.Pools.Discovery.{
  Discoverer, is_zero_address, liquid_only, discover_fees, discover_pair_at,
}
use titanarb_engine.Pools.Discovery.Answered.{>>=-found}
use titanarb_engine.Pools.Discovery.Shown.{
  Read, Offered, Offered-more, uniswap_pool-Offered, camelot_pool-Offered,
}

module _ (selector : Text → List ℕ) (node : Text → Text → ℕ → Text ⊎ Text) (d : Discoverer)
    (a b : Text) (block : ℕ) where
  -- A pool that discovery returns.
  pub record IsDiscovered (seen : List Pool) (p : Pool) : Type 0 where
    pub placed : is_zero_address p.address ≡ false
    pub known : Read selector node block p.address p seen
    pub liquid : is_positive p.liquidity ≡ true

  liquid_only-IsDiscovered :
      (r : Option Pool) (xs seen : List Pool)
      → ((p : Pool) → In p xs → In p seen)
      → Offered selector node block r xs
      → All (IsDiscovered seen) (liquid_only r)
  unfolding liquid_only
  liquid_only-IsDiscovered none xs seen more h = tt
  liquid_only-IsDiscovered (some p) xs seen more h =
      let (z, r) = Offered-more selector node block (some p) xs seen more h in
      elim (Bool-cases (is_positive p.liquidity)) [
        | inl deep ↦ rw deep (record { placed = z; known = r; liquid = deep }, tt)
        | inr dry ↦ rw dry tt
      ]

  IsDiscovered-more :
      (xs ys ps : List Pool)
      → ((p : Pool) → In p xs → In p ys)
      → All (IsDiscovered xs) ps
      → All (IsDiscovered ys) ps
  IsDiscovered-more xs ys ps more h =
      All-map
        (λ p i. record {
          placed = i.placed;
          known = record {
            named = i.known.named;
            state = i.known.state;
            token0 = i.known.token0;
            token1 = i.known.token1;
            shown = more p i.known.shown;
          };
          liquid = i.liquid;
        })
        ps h

  discover_fees-IsDiscovered :
      (fees : List ℕ) (ps : List Pool)
      → (discover_fees selector node d a b block fees).0 ≡ inr ps
      → All (IsDiscovered (discover_fees selector node d a b block fees).1) ps
  unfolding discover_fees
  discover_fees-IsDiscovered [] ps h = subst (All (IsDiscovered [])) (inr-inj h) tt
  discover_fees-IsDiscovered (fee ∷ fees) ps h =
      let (pool, k, h, later, now) = >>=-found _ _ ps h in
      let (rest, k', h, _, then_) = >>=-found _ _ ps h in
      let offered = uniswap_pool-Offered selector node block d a b fee pool k in
      let first = liquid_only-IsDiscovered pool _ _ now offered in
      let others =
        IsDiscovered-more _ _ rest (λ p i. later p (then_ p i))
          (discover_fees-IsDiscovered fees rest k') in
      subst (All (IsDiscovered (discover_fees selector node d a b block (fee ∷ fees)).1))
        (inr-inj h) (All-append _ (liquid_only pool) rest first others)

  -- Each pool that DiscoverPairAt returns for a pair and a block has an address that is not zero, was
  -- shown to the observer, is liquid, and its liquidity, price and tokens are what the node answered for
  -- this pool and block, in the call for the state of its DEX.
  pub discover_pair_at-IsDiscovered :
      (ps : List Pool)
      → (discover_pair_at selector node d a b block).0 ≡ inr ps
      → All (IsDiscovered (discover_pair_at selector node d a b block).1) ps
  unfolding discover_pair_at
  discover_pair_at-IsDiscovered ps h =
      let (uniswap, k, h, later, now) = >>=-found _ _ ps h in
      let (pool, k', h, _, then_) = >>=-found _ _ ps h in
      let first = IsDiscovered-more _ _ uniswap now (discover_fees-IsDiscovered d.fees uniswap k) in
      let offered = camelot_pool-Offered selector node block d a b pool k' in
      let last = liquid_only-IsDiscovered pool _ _ (λ p i. later p (then_ p i)) offered in
      subst (All (IsDiscovered (discover_pair_at selector node d a b block).1)) (inr-inj h)
        (All-append _ uniswap (liquid_only pool) first last)
