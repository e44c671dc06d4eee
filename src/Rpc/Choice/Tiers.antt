-- ===== src/Rpc/Choice/Tiers.antt =====
-- The tier that a pass prefers for reads (preferredReadTierLocked of client.go).
use titanarb_engine.Base.{
  ℕ, ◌+◌, suc, ◌≤◌, ◌≡◌, ◌≢◌, refl, sym, subst, ◌⊎◌, inl, inr, Bool, false, ◌&&◌, ◌||◌, some, List,
  [], ◌∷◌, get_elem?, arith, Bool-cases, Bool-ne, ltb, leb, ◌==◌,
}
use titanarb_engine.Rpc.Limiter.{delay}
use titanarb_engine.Rpc.Provider.{Provider, RequestClass, tier_rank}
use titanarb_engine.Rpc.Choice.{
  TierChoice, add_tier, tier_choice, preferred_read_tier, is_passed_over, read_tier_spill_delay,
}
use titanarb_engine.Rpc.Choice.Scan.{tier_rank-le, cons_each, StandAt, head_at, tail_at}

add_tier_cases :
    (rank wait : ℕ) (t : TierChoice)
    → rank ≤ 3
    → (((add_tier rank wait t).ready ≡ t.ready) ⊎ ((add_tier rank wait t).ready ≡ rank))
      × (((add_tier rank wait t).delayed ≡ t.delayed) ⊎ ((add_tier rank wait t).delayed ≡ rank))
      × (((add_tier rank wait t).ready ≢ 99) ⊎ ((add_tier rank wait t).delayed ≢ 99))
unfolding add_tier
add_tier_cases rank wait t low = elim (Bool-cases (leb wait read_tier_spill_delay)) [
  | inl soon ↦ elim (Bool-cases (ltb rank t.ready)) [
    | inl better ↦ rw (soon, better, add_tier) (inr refl, inl refl, inl (λ e. omega arith))
    | inr worse ↦ rw (soon, worse, add_tier) (inl refl, inl refl, inl (λ e. ground arith))
  ]
  | inr late ↦
      elim (Bool-cases
        (t.delayed == 99 || ltb wait t.delayed_by || wait == t.delayed_by && ltb rank t.delayed)) [
          | inl better ↦ rw (late, better, add_tier) (inl refl, inr refl, inr (λ e. omega arith))
          | inr worse ↦ rw (late, worse, add_tier) (inl refl, inl refl, inr (λ e. ground arith))
        ]
]

module _ (class : RequestClass) (first : Bool) (best now : ℕ) (all : List Provider) where
  -- Some provider that the pass may take has the rank.
  pub record IsOffered (rank : ℕ) : Type 0 where
    pub place : ℕ
    pub provider : Provider
    pub stands : get_elem? all place ≡ some provider
    pub kept : is_passed_over first best now provider ≡ false
    pub ranked : tier_rank class provider.cfg.tier ≡ rank

  record IsTierChoice (t : TierChoice) : Type 0 where
    ready : (t.ready ≡ 99) ⊎ IsOffered t.ready
    delayed : (t.delayed ≡ 99) ⊎ IsOffered t.delayed

  module _ (i : ℕ) (p : Provider) (here : get_elem? all i ≡ some p)
      (kept : is_passed_over first best now p ≡ false) (t : TierChoice) (s : IsTierChoice t) where
    add_tier-IsTierChoice : (wait : ℕ) → IsTierChoice (add_tier (tier_rank class p.cfg.tier) wait t)
    add_tier-IsTierChoice wait =
        let cases =
          add_tier_cases (tier_rank class p.cfg.tier) wait t (tier_rank-le class p.cfg.tier) in
        record { ready = pick t.ready s.ready cases.0; delayed = pick t.delayed s.delayed cases.1 }
      where
        pick :
            {r : ℕ} (old : ℕ)
            → (old ≡ 99) ⊎ IsOffered old
            → (r ≡ old) ⊎ (r ≡ tier_rank class p.cfg.tier)
            → (r ≡ 99) ⊎ IsOffered r
        pick old h (inl e) = subst (λ n. (n ≡ 99) ⊎ IsOffered n) (sym e) h
        pick old h (inr e) =
            inr (record { place = i; provider = p; stands = here; kept = kept; ranked = sym e })

  tier_choice_lem :
      (i : ℕ) (ps : List Provider) (t : TierChoice)
      → StandAt all i ps
      → IsTierChoice t
      → let u = tier_choice class first best now ps t in
        IsTierChoice u
        × ((t.ready ≢ 99) ⊎ (t.delayed ≢ 99) → (u.ready ≢ 99) ⊎ (u.delayed ≢ 99))
        × ((k : ℕ) (q : Provider)
            → get_elem? ps k ≡ some q
            → is_passed_over first best now q ≡ false
            → (u.ready ≢ 99) ⊎ (u.delayed ≢ 99))
  unfolding tier_choice
  tier_choice_lem i [] t at s = (s, (λ h. h), λ k q e. absurd (ground (arith, e)))
  tier_choice_lem i (p ∷ ps) t at s = elim (Bool-cases (is_passed_over first best now p)) [
    | inl over ↦
        let (s', up, each) = tier_choice_lem (suc i) ps t (tail_at all i p ps at) s in
        rw (over, tier_choice) (s', up, cons_each _ p ps (λ k. absurd (Bool-ne over k)) each)
    | inr kept ↦
        let rank = tier_rank class p.cfg.tier in
        let low = tier_rank-le class p.cfg.tier in
        let small : leb 99 rank ≡ false = ground arith in
        let t' = add_tier rank (delay p.limiter now) t in
        let set = (add_tier_cases rank (delay p.limiter now) t low).2 in
        let (s', up, each) =
          tier_choice_lem (suc i) ps t' (tail_at all i p ps at)
            (add_tier-IsTierChoice i p (head_at all i p ps at) kept t s (delay p.limiter now)) in
        rw (kept, small, tier_choice) (s', (λ h. up set), cons_each _ p ps (λ k. up set) each)
  ]

  -- If the pass may take some provider, it prefers the rank of one that it may take.
  pub preferred-IsOffered :
      (i : ℕ) (p : Provider)
      → get_elem? all i ≡ some p
      → is_passed_over first best now p ≡ false
      → IsOffered (preferred_read_tier class first best now all)
  unfolding preferred_read_tier
  preferred-IsOffered i p e kept =
      let start : TierChoice = record { ready = 99; delayed = 99; delayed_by = 0 } in
      let (s, _, each) =
        tier_choice_lem 0 all start (λ k q h. from_start k q h)
          (record { ready = inl refl; delayed = inl refl }) in
      let u = tier_choice class first best now all start in
      elim (Bool-cases (u.ready == 99)) [
        | inl unset ↦ rw unset (
            offered s.delayed
              (λ d. elim (each i p e kept) [ inl r ↦ r (ground (arith, unset)) | inr r ↦ r d ]))
        | inr set ↦ rw set (offered s.ready (λ r. absurd (ground (arith, r, set))))
      ]
    where
      from_start :
          (k : ℕ) (q : Provider) → get_elem? all k ≡ some q → get_elem? all (0 + k) ≡ some q
      from_start k q h =
          let same : 0 + k ≡ k = omega arith in subst (λ n. get_elem? all n ≡ some q) (sym same) h

      offered : {r : ℕ} → (r ≡ 99) ⊎ IsOffered r → r ≢ 99 → IsOffered r
      offered (inl e) n = absurd (n e)
      offered (inr o) n = o
