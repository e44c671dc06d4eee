-- ===== src/Rpc/Choice/Chosen.antt =====
-- chooseReadProvider as a whole: which provider, and how long to wait for it (client.go).
use titanarb_engine.Base.{
  ℕ, ◌+◌, ◌≤◌, ◌≡◌, refl, sym, ◌∙◌, Bool, true, some, get_elem?, arith, Option-cases, some-inj, inl,
  inr, ap, subst,
}
use titanarb_engine.Rpc.Limiter.{reserve_delay}
use titanarb_engine.Rpc.Limiter.Spacing.{slot}
use titanarb_engine.Rpc.Provider.{Provider, RequestClass, is_critical, tier_rank}
use titanarb_engine.Rpc.Choice.{
  Client, choose_read_provider, read_index, delay_with_cooldown, wait_for, after_choice,
}
use titanarb_engine.Rpc.Choice.Usable.{IsUsable, read_index-IsServed, read_index-tier}

delay_with_cooldown-bounds :
    (wait now : ℕ) (p : Provider)
    → (p.cooldown_until ≤ now + delay_with_cooldown wait now p)
      × (wait ≤ delay_with_cooldown wait now p)
unfolding delay_with_cooldown
delay_with_cooldown-bounds wait now p = ground arith

module _ (class : RequestClass) (now : ℕ) (c : Client) where
  -- A provider of the client that is chosen, with the delay and the client afterwards.
  pub record IsChosen (index : ℕ) (p : Provider) (wait : ℕ) (after : Client) : Type 0 where
    pub stands : get_elem? c.providers index ≡ some p
    pub chosen : choose_read_provider class now c ≡ some (index, wait, after)
    pub active : after.active ≡ index

  after_choice-IsChosen :
      (i : ℕ) (p : Provider)
      → read_index class now c.providers ≡ some i
      → get_elem? c.providers i ≡ some p
      → (wait : ℕ) × (after : Client) × IsChosen i p wait after
  unfolding choose_read_provider after_choice
  after_choice-IsChosen i p e f = (
    wait_for now p,
    after_choice now i p c,
    record { stands = f; chosen = rw (e, f, choose_read_provider) refl; active = refl },
  )

  -- If some provider is out of its cooldown and does not lag behind the best known block, then a
  -- provider is chosen of which the same holds. If in addition some such provider is past its
  -- probation, so is the chosen one.
  pub choose_read_provider-IsUsable :
      (past_probation : Bool) (i : ℕ) (p : Provider)
      → get_elem? c.providers i ≡ some p
      → IsUsable past_probation now c.providers p
      → (j : ℕ) × (q : Provider) × (wait : ℕ) × (after : Client) × IsChosen j q wait after
        × IsUsable past_probation now c.providers q
  choose_read_provider-IsUsable past_probation i p e usable =
      let s = read_index-IsServed class now c.providers past_probation i p e usable in
      let (wait, after, chosen) = after_choice-IsChosen s.index s.provider s.chosen s.stands in
      (s.index, s.provider, wait, after, chosen, s.usable)

  -- A critical request goes to the best tier that there is among the providers that are out of their
  -- cooldown and their probation and do not lag.
  pub choose_read_provider-tier :
      (i : ℕ) (p : Provider)
      → get_elem? c.providers i ≡ some p
      → IsUsable true now c.providers p
      → is_critical class ≡ true
      → (j : ℕ) × (q : Provider) × (wait : ℕ) × (after : Client) × IsChosen j q wait after
        × (tier_rank class q.cfg.tier ≤ tier_rank class p.cfg.tier)
  choose_read_provider-tier i p e usable strict =
      let (s, tier) = read_index-tier class now c.providers i p e usable strict in
      let (wait, after, chosen) = after_choice-IsChosen s.index s.provider s.chosen s.stands in
      (s.index, s.provider, wait, after, chosen, tier)

  -- Whichever provider is chosen, the delay lasts until its cooldown is over and until the slot that
  -- its rate limiter reserved.
  pub choose_read_provider-delay :
      (index : ℕ) (p : Provider) (wait : ℕ) (after : Client)
      → get_elem? c.providers index ≡ some p
      → choose_read_provider class now c ≡ some (index, wait, after)
      → (p.cooldown_until ≤ now + wait) × (slot p.limiter now ≤ now + wait)
  unfolding choose_read_provider slot wait_for
  choose_read_provider-delay index p wait after f e =
      elim (Option-cases (read_index class now c.providers)) [
        | inl lost ↦ absurd (ground (arith, rw (lost, choose_read_provider) at e))
        | inr (i, got) ↦ elim (Option-cases (get_elem? c.providers i)) [
          | inl lost ↦ absurd (ground (arith, rw (got, lost, choose_read_provider) at e))
          | inr (q, stands) ↦
              let e' = some-inj (rw (got, stands, choose_read_provider) at e) in
              let same : i ≡ index = ap (λ t. t.0) e' in
              let p' : q ≡ p =
                some-inj
                  (sym stands ∙ subst (λ n. get_elem? c.providers n ≡ some p) (sym same) f) in
              let d : wait_for now q ≡ wait = ap (λ t. t.1) e' in
              let b = delay_with_cooldown-bounds (reserve_delay q.limiter now).0 now q in
              rw (← p', ← d) (omega (arith, b))
        ]
      ]

  -- A provider that is chosen is one of the client's.
  pub chosen-stands :
      (index wait : ℕ) (after : Client)
      → choose_read_provider class now c ≡ some (index, wait, after)
      → (p : Provider) × (get_elem? c.providers index ≡ some p)
  unfolding choose_read_provider
  chosen-stands index wait after e = elim (Option-cases (read_index class now c.providers)) [
    | inl lost ↦ absurd (ground (arith, rw (lost, choose_read_provider) at e))
    | inr (i, got) ↦ elim (Option-cases (get_elem? c.providers i)) [
      | inl lost ↦ absurd (ground (arith, rw (got, lost, choose_read_provider) at e))
      | inr (q, stands) ↦
          let e' = some-inj (rw (got, stands, choose_read_provider) at e) in
          let same : i ≡ index = ap (λ t. t.0) e' in
          (q, subst (λ n. get_elem? c.providers n ≡ some q) same stands)
    ]
  ]
