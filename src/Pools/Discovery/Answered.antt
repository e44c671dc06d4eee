-- ===== src/Pools/Discovery/Answered.antt =====
-- What the node answered for a pool that is found or refreshed (pools.go).
use titanarb_engine.Base.{
  ℕ, ◌≡◌, refl, sym, ◌∙◌, ap, some, ◌⊎◌, inl, inr, List, [], ◌∷◌, length, Text, bytes, ◌==◌, In,
  In-append_left, In-append_right, Bool-cases, Option-cases, sum_cases, inl-ne-inr, inr-inj,
}
use titanarb_engine.Base.Int.{pos}
use titanarb_engine.Dex.{decode_words, static_call, word_address, word_uint}
use titanarb_engine.Pools.{Pool, uniswap_v3, camelot_v3}
use titanarb_engine.Pools.Discovery.{
  Found, CoreState, ◌>>=◌, first_word_of, ask, ask_for, core_pool_state,
}

-- A chain that succeeds does so step by step, and shows what its steps show.
pub >>=-found :
    {A B : Type 0} (m : Found A) (f : A → Found B) (b : B)
    → (m >>= f).0 ≡ inr b
    → (a : A) × (m.0 ≡ inr a)
      × ((f a).0 ≡ inr b)
      × ((p : Pool) → In p (f a).1 → In p (m >>= f).1)
      × ((p : Pool) → In p m.1 → In p (m >>= f).1)
unfolding ◌>>=◌
>>=-found (inl e, seen) f b h = absurd (inl-ne-inr h)
>>=-found (inr a, seen) f b h =
    (a, refl, h, λ p i. In-append_right p seen (f a).1 i, λ p i. In-append_left p seen (f a).1 i)

first_word_of_lem :
    (raw : Text) (w : List ℕ)
    → (first_word_of raw).0 ≡ inr w
    → (ws : List (List ℕ)) × (decode_words raw ≡ some (w ∷ ws))
unfolding first_word_of
first_word_of_lem raw w h = elim (Option-cases (decode_words raw)) [
  | inl gone ↦ absurd (inl-ne-inr (rw (gone, first_word_of) at h))
  | inr ([], e) ↦ absurd (inl-ne-inr (rw (e, first_word_of) at h))
  | inr (v ∷ ws, e) ↦
      let same : v ≡ w = inr-inj (rw (e, first_word_of) at h) in
      (ws, e ∙ ap (λ v. some (v ∷ ws)) same)
]

module _ (selector : Text → List ℕ) (node : Text → Text → ℕ → Text ⊎ Text) where
  -- The node answers a call without arguments with a word that has a property.
  abbrev pub Answers : Text → Text → ℕ → (List ℕ → Type 0) → Type 0
  Answers address signature block P =
      (raw : Text) × (w : List ℕ) × (ws : List (List ℕ)) × (node address
          (static_call selector signature []) block
        ≡ inr raw)
      × (decode_words raw ≡ some (w ∷ ws))
      × P w

  ask_for_lem :
      (address signature : Text) (block : ℕ) (raw : Text)
      → (ask_for selector node address signature block).0 ≡ inr raw
      → node address (static_call selector signature []) block ≡ inr raw
  unfolding ask_for ask
  ask_for_lem address signature block raw h = elim (Bool-cases (length address == 0)) [
    | inl empty ↦ absurd (inl-ne-inr (rw (empty, ask_for, ask) at h))
    | inr named ↦ elim (sum_cases (node address (static_call selector signature []) block)) [
      | inl (m, e) ↦ absurd (inl-ne-inr (rw (named, e, ask_for, ask) at h))
      | inr (got, e) ↦
          let same : got ≡ raw = inr-inj (rw (named, e, ask_for, ask) at h) in e ∙ ap inr same
    ]
  ]

  pub answers_of :
      (address signature : Text) (block : ℕ) (raw : Text) (w : List ℕ) (P : List ℕ → Type 0)
      → (ask_for selector node address signature block).0 ≡ inr raw
      → (first_word_of raw).0 ≡ inr w
      → P w
      → Answers address signature block P
  answers_of address signature block raw w P h k p =
      let (ws, e) = first_word_of_lem raw w k in
      (raw, w, ws, ask_for_lem address signature block raw h, e, p)

  -- The state of a pool at a block is what the node answers.
  pub record IsState (block : ℕ) (p : Pool) : Type 0 where
    pub read_at : p.last_updated_block ≡ block
    pub liquid :
        Answers p.address (bytes "liquidity()") block (λ w. p.liquidity ≡ some (pos (word_uint w)))
    pub price :
        ((p.dex ≡ uniswap_v3)
          × Answers p.address
              (bytes "slot0()")
              block
              (λ w. p.sqrt_price_x96 ≡ some (pos (word_uint w))))
        ⊎ ((p.dex ≡ camelot_v3)
            × Answers p.address
                (bytes "globalState()")
                block
                (λ w. p.sqrt_price_x96 ≡ some (pos (word_uint w))))

  -- The core state is what the node answers.
  pub record IsCore (address : Text) (block : ℕ) (c : CoreState) : Type 0 where
    pub first : Answers address (bytes "token0()") block (λ w. c.token0 ≡ word_address w)
    pub second : Answers address (bytes "token1()") block (λ w. c.token1 ≡ word_address w)
    pub depth :
        Answers address
          (bytes "liquidity()")
          block
          (λ w. some (pos c.liquidity) ≡ some (pos (word_uint w)))

  pub core_pool_state-IsCore :
      (address : Text) (block : ℕ) (c : CoreState)
      → (core_pool_state selector node address block).0 ≡ inr c
      → IsCore address block c
  unfolding core_pool_state
  core_pool_state-IsCore address block c h =
      let (t0, a0, h, _, _) = >>=-found _ _ c h in
      let (t1, a1, h, _, _) = >>=-found _ _ c h in
      let (tl, al, h, _, _) = >>=-found _ _ c h in
      let (w0, b0, h, _, _) = >>=-found _ _ c h in
      let (w1, b1, h, _, _) = >>=-found _ _ c h in
      let (wl, bl, h, _, _) = >>=-found _ _ c h in
      let made = inr-inj h in
      record {
        first =
            answers_of address (bytes "token0()") block t0 w0 _ a0 b0
              (ap (λ c. c.token0) (sym made));
        second =
            answers_of address (bytes "token1()") block t1 w1 _ a1 b1
              (ap (λ c. c.token1) (sym made));
        depth =
            answers_of address (bytes "liquidity()") block tl wl _ al bl
              (ap (λ c. some (pos c.liquidity)) (sym made));
      }
