-- ===== src/Pools/Discovery/Shown.antt =====
-- What discovery finds, and what the observer sees of it (pools.go).
use titanarb_engine.Base.{
  ℕ, ◌≡◌, refl, sym, ◌∙◌, ap, subst, false, Option, none, some, ◌⊎◌, inl, inr, List, [], Text,
  bytes, In, Bool-cases, inr-inj,
}
use titanarb_engine.Dex.{word_address}
use titanarb_engine.Pools.{Pool}
use titanarb_engine.Pools.Discovery.{
  Discoverer, DiscoveryError, Found, ◌>>=◌, pure, is_zero_address, uniswap_state, camelot_state,
  pool_from, uniswap_pool, camelot_pool,
}
use titanarb_engine.Pools.Discovery.Answered.{
  IsState, Answers, answers_of, core_pool_state-IsCore, >>=-found,
}

module _ (selector : Text → List ℕ) (node : Text → Text → ℕ → Text ⊎ Text) (block : ℕ) where
  -- The state of a pool at an address, with its tokens, which was shown.
  pub record Read (address : Text) (p : Pool) (seen : List Pool) : Type 0 where
    pub named : p.address ≡ address
    pub state : IsState selector node block p
    pub token0 :
        Answers selector node p.address (bytes "token0()") block (λ w. p.token0 ≡ word_address w)
    pub token1 :
        Answers selector node p.address (bytes "token1()") block (λ w. p.token1 ≡ word_address w)
    pub shown : In p seen

  uniswap_state-Read :
      (address : Text) (p : Pool)
      → (uniswap_state selector node address block).0 ≡ inr p
      → Read address p (uniswap_state selector node address block).1
  unfolding uniswap_state
  uniswap_state-Read address p h =
      let (core, known, h, s1, _) = >>=-found _ _ p h in
      let (fee_raw, _, h, s2, _) = >>=-found _ _ p h in
      let (fee, _, h, s3, _) = >>=-found _ _ p h in
      let (slot_raw, asked, h, s4, _) = >>=-found _ _ p h in
      let (slot, told, h, s5, _) = >>=-found _ _ p h in
      let c = core_pool_state-IsCore selector node address block core known in
      let (_, _, h, s6, left) = >>=-found _ _ p h in
      subst (λ q. Read address q (uniswap_state selector node address block).1) (inr-inj h)
        (record {
          named = refl;
          state = record {
            read_at = refl;
            liquid = c.depth;
            price = inl (
              refl,
              answers_of selector node address (bytes "slot0()") block slot_raw slot _ asked told
                  refl,
            );
          };
          token0 = c.first;
          token1 = c.second;
          shown = s1 _ (s2 _ (s3 _ (s4 _ (s5 _ (left _ (inl refl))))));
        })

  camelot_state-Read :
      (address : Text) (p : Pool)
      → (camelot_state selector node address block).0 ≡ inr p
      → Read address p (camelot_state selector node address block).1
  unfolding camelot_state
  camelot_state-Read address p h =
      let (core, known, h, s1, _) = >>=-found _ _ p h in
      let (state_raw, asked, h, s2, _) = >>=-found _ _ p h in
      let (state, told, h, s3, _) = >>=-found _ _ p h in
      let c = core_pool_state-IsCore selector node address block core known in
      let (_, _, h, s4, left) = >>=-found _ _ p h in
      subst (λ q. Read address q (camelot_state selector node address block).1) (inr-inj h)
        (record {
          named = refl;
          state = record {
            read_at = refl;
            liquid = c.depth;
            price = inr (
              refl,
              answers_of selector node address (bytes "globalState()") block state_raw state _ asked
                  told refl,
            );
          };
          token0 = c.first;
          token1 = c.second;
          shown = s1 _ (s2 _ (s3 _ (left _ (inl refl))));
        })

  -- A pool of a factory: its address is not zero, and it was read.
  abbrev pub Offered : Option Pool → List Pool → Type 0
  Offered none seen = Unit
  Offered (some p) seen = (is_zero_address p.address ≡ false) × Read p.address p seen

  pub Offered-more :
      (r : Option Pool) (xs ys : List Pool)
      → ((p : Pool) → In p xs → In p ys)
      → Offered r xs
      → Offered r ys
  Offered-more none xs ys more h = tt
  Offered-more (some p) xs ys more (z, r) = (
    z,
    record {
      named = r.named;
      state = r.state;
      token0 = r.token0;
      token1 = r.token1;
      shown = more p r.shown;
    },
  )

  Read-Offered :
      (address : Text) (p : Pool) (seen : List Pool)
      → is_zero_address address ≡ false
      → Read address p seen
      → Offered (some p) seen
  Read-Offered address p seen z r =
      (ap is_zero_address r.named ∙ z, subst (λ a. Read a p seen) (sym r.named) r)

  module _ (state : Text → ℕ → Found Pool)
      (state-Read : (address : Text) (p : Pool)
        → (state address block).0 ≡ inr p
        → Read address p (state address block).1) where
    pool_from-Offered :
        (raw : Text) (r : Option Pool)
        → (pool_from state raw block).0 ≡ inr r
        → Offered r (pool_from state raw block).1
    unfolding pool_from
    pool_from-Offered raw r h =
        let (w, _, h, more, _) = >>=-found _ _ r h in
        Offered-more r _ _ more (elim (Bool-cases (is_zero_address (word_address w))) [
          | inl gone ↦
              let h' : ◌≡◌ {A = DiscoveryError ⊎ Option Pool} (inr none) (inr r) = rw gone at h in
              rw gone (subst (λ r. Offered r []) (inr-inj h') tt)
          | inr there ↦ rw there (found w r there (rw there at h))
        ])
      where
        found :
            (w : List ℕ) (r : Option Pool)
            → is_zero_address (word_address w) ≡ false
            → (state (word_address w) block >>= λ p. pure (some p)).0 ≡ inr r
            → Offered r (state (word_address w) block >>= λ p. pure (some p)).1
        found w r there h =
            let (p, known, h, _, more) = >>=-found _ _ r h in
            subst (λ r. Offered r (state (word_address w) block >>= λ p. pure (some p)).1)
              (inr-inj h)
              (Offered-more (some p) _ _ more
                (Read-Offered (word_address w) p _ there (state-Read (word_address w) p known)))

  pub uniswap_pool-Offered :
      (d : Discoverer) (a b : Text) (fee : ℕ) (r : Option Pool)
      → (uniswap_pool selector node d a b fee block).0 ≡ inr r
      → Offered r (uniswap_pool selector node d a b fee block).1
  unfolding uniswap_pool
  uniswap_pool-Offered d a b fee r h =
      let (_, _, h, s1, _) = >>=-found _ _ r h in
      let (_, _, h, s2, _) = >>=-found _ _ r h in
      let (raw, _, h, s3, _) = >>=-found _ _ r h in
      let offered = pool_from-Offered (uniswap_state selector node) uniswap_state-Read raw r h in
      Offered-more r _ _ (λ p i. s1 p (s2 p (s3 p i))) offered

  pub camelot_pool-Offered :
      (d : Discoverer) (a b : Text) (r : Option Pool)
      → (camelot_pool selector node d a b block).0 ≡ inr r
      → Offered r (camelot_pool selector node d a b block).1
  unfolding camelot_pool
  camelot_pool-Offered d a b r h =
      let (_, _, h, s1, _) = >>=-found _ _ r h in
      let (_, _, h, s2, _) = >>=-found _ _ r h in
      let (raw, _, h, s3, _) = >>=-found _ _ r h in
      let offered = pool_from-Offered (camelot_state selector node) camelot_state-Read raw r h in
      Offered-more r _ _ (λ p i. s1 p (s2 p (s3 p i))) offered
