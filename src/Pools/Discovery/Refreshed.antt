-- ===== src/Pools/Discovery/Refreshed.antt =====
-- A refreshed pool (pools.go, RefreshPoolAt).
use titanarb_engine.Base.{
  ℕ, ◌≡◌, refl, subst, some, ◌⊎◌, inl, inr, List, Text, bytes, text_eq, text_eq_iff, In, Bool-cases,
  inr-inj, inl-ne-inr,
}
use titanarb_engine.Base.Int.{pos}
use titanarb_engine.Dex.{word_uint}
use titanarb_engine.Pools.{Pool, uniswap_v3, camelot_v3}
use titanarb_engine.Pools.Discovery.{state_call, refresh_pool_at}
use titanarb_engine.Pools.Discovery.Answered.{IsState, answers_of, >>=-found}

module _ (selector : Text → List ℕ) (node : Text → Text → ℕ → Text ⊎ Text) (pool : Pool)
    (block : ℕ) where
  -- The state of a pool was renewed, and nothing else of it.
  pub record IsRefreshed (seen : List Pool) (p : Pool) : Type 0 where
    pub state : IsState selector node block p
    pub address : p.address ≡ pool.address
    pub tokens : (p.token0 ≡ pool.token0) × (p.token1 ≡ pool.token1)
    pub venue : (p.dex ≡ pool.dex) × (p.fee ≡ pool.fee)
    pub shown : In p seen

  state_call_lem :
      (method : Text)
      → (state_call pool.dex).0 ≡ inr method
      → ((pool.dex ≡ uniswap_v3) × (bytes "slot0()" ≡ method))
        ⊎ ((pool.dex ≡ camelot_v3) × (bytes "globalState()" ≡ method))
  unfolding state_call
  state_call_lem method h = elim (Bool-cases (text_eq pool.dex camelot_v3)) [
    | inl camelot ↦
        inr ((text_eq_iff pool.dex camelot_v3).0 camelot, inr-inj (rw (camelot, state_call) at h))
    | inr other ↦ elim (Bool-cases (text_eq pool.dex uniswap_v3)) [
      | inl uniswap ↦ inl (
        (text_eq_iff pool.dex uniswap_v3).0 uniswap,
        inr-inj (rw (other, uniswap, state_call) at h),
      )
      | inr unknown ↦ absurd (inl-ne-inr (rw (other, unknown, state_call) at h))
    ]
  ]

  -- RefreshPoolAt renews the liquidity, the price and the block of a pool of either DEX from what the node
  -- answers at that block, keeps the rest, and shows the pool to the observer.
  pub refresh_pool_at-IsRefreshed :
      (p : Pool)
      → (refresh_pool_at selector node pool block).0 ≡ inr p
      → IsRefreshed (refresh_pool_at selector node pool block).1 p
  unfolding refresh_pool_at
  refresh_pool_at-IsRefreshed p h =
      let (liquidity_raw, asked, h, s1, _) = >>=-found _ _ p h in
      let (liquidity, told, h, s2, _) = >>=-found _ _ p h in
      let (method, chosen, h, s3, _) = >>=-found _ _ p h in
      let (state_raw, asked', h, s4, _) = >>=-found _ _ p h in
      let (state, told', h, s5, _) = >>=-found _ _ p h in
      let (_, _, h, s6, left) = >>=-found _ _ p h in
      let answers =
        answers_of selector node pool.address method block state_raw state
          (λ w. some (pos (word_uint state)) ≡ some (pos (word_uint w))) asked' told' refl in
      subst (IsRefreshed (refresh_pool_at selector node pool block).1) (inr-inj h) (record {
        state = record {
          read_at = refl;
          liquid =
              answers_of selector node pool.address (bytes "liquidity()") block liquidity_raw
                liquidity _ asked told refl;
          price = elim (state_call_lem method chosen) [
            | inl (dex, same) ↦ inl (dex, rw same answers)
            | inr (dex, same) ↦ inr (dex, rw same answers)
          ];
        };
        address = refl;
        tokens = (refl, refl);
        venue = (refl, refl);
        shown = s1 _ (s2 _ (s3 _ (s4 _ (s5 _ (left _ (inl refl))))));
      })
