-- ===== src/Rpc/Choice/Scan.antt =====
-- The two passes of chooseReadProvider over the providers (client.go).
use titanarb_engine.Base.{
  ℕ, zero, suc, ◌+◌, ◌≤◌, ◌<◌, ◌≡◌, refl, subst, ◌⊎◌, inl, inr, Bool, true, false, ◌&&◌, ◌||◌, none,
  some, List, [], ◌∷◌, Text, get_elem?, arith, Bool-cases, Option-cases, ltb, leb, ◌==◌, some-inj,
  Bool-ne,
}
use titanarb_engine.Rpc.Provider.{Provider, RequestClass, is_critical, tier_rank}
use titanarb_engine.Rpc.Choice.{
  Best, is_passed_over, weigh, pass_from, take_better, enter_tier, read_score,
}

pub tier_rank-le : (class : RequestClass) (tier : Text) → tier_rank class tier ≤ 3
unfolding tier_rank
tier_rank-le class tier = ground arith

-- The entries of a list stand in another one from an index on.
abbrev pub StandAt : List Provider → ℕ → List Provider → Type 0
StandAt all i ps = (k : ℕ) (q : Provider) → get_elem? ps k ≡ some q → get_elem? all (i + k) ≡ some q

module _ (all : List Provider) (i : ℕ) (p : Provider) (ps : List Provider)
    (at : StandAt all i (p ∷ ps)) where
  pub head_at : get_elem? all i ≡ some p
  head_at =
      let same : i + 0 ≡ i = omega arith in subst (λ n. get_elem? all n ≡ some p) same (at 0 p refl)

  pub tail_at : StandAt all (suc i) ps
  tail_at k q e =
      let same : i + suc k ≡ suc i + k = omega arith in
      subst (λ n. get_elem? all n ≡ some q) same (at (suc k) q e)

pub cons_each :
    (Q : Provider → Type 0) (p : Provider) (ps : List Provider)
    → Q p
    → ((k : ℕ) (q : Provider) → get_elem? ps k ≡ some q → Q q)
    → (k : ℕ) (q : Provider) → get_elem? (p ∷ ps) k ≡ some q
    → Q q
cons_each Q p ps h rest zero q e = subst Q (some-inj e) h
cons_each Q p ps h rest (suc k) q e = rest k q e

module _ (class : RequestClass) (first : Bool) (preferred best now : ℕ) (all : List Provider) where
  -- What the pass asks of a provider before it compares the scores.
  pub record IsAccepted (p : Provider) : Type 0 where
    pub kept : is_passed_over first best now p ≡ false
    pub tier : (is_critical class ≡ true) ⊎ (tier_rank class p.cfg.tier ≡ preferred)

  -- The best provider so far was accepted, and with none so far no tier is entered.
  pub record IsSound (b : Best) : Type 0 where
    pub chosen :
        (j : ℕ)
        → b.index ≡ some j
        → (q : Provider) × (get_elem? all j ≡ some q)
          × IsAccepted q
          × (is_critical class ≡ true → tier_rank class q.cfg.tier ≡ b.tier)
    pub unset : b.index ≡ none → b.tier ≡ 99

  module _ (i : ℕ) (p : Provider) (b : Best) where
    -- A round leaves the choice as it is, or takes the provider.
    weigh_cases :
        ((weigh class first preferred best now i p b ≡ b)
          × (IsAccepted p → (is_critical class ≡ true) × (b.tier < tier_rank class p.cfg.tier)))
        ⊎ (IsAccepted p
            × (is_critical class ≡ true → tier_rank class p.cfg.tier ≤ b.tier)
            × (weigh class first preferred best now i p b
                ≡ take_better i
                    (read_score class now p)
                    (enter_tier (is_critical class) (tier_rank class p.cfg.tier) b)))
    unfolding weigh
    weigh_cases = elim (Bool-cases (is_passed_over first best now p)) [
      | inl over ↦ inl (rw (over, weigh) refl, λ a. absurd (Bool-ne over a.kept))
      | inr kept ↦ elim (Bool-cases (is_critical class)) [
        | inl strict ↦ elim (Bool-cases (ltb b.tier (tier_rank class p.cfg.tier))) [
          | inl worse ↦
              inl
                (rw (kept, strict, worse, small, weigh) refl, λ a. (strict, ground (arith, worse)))
          | inr entered ↦ inr (
            accepted kept (inl strict),
            (λ _. ground (arith, entered)),
            rw (kept, strict, entered, small, weigh) refl,
          )
        ]
        | inr flexible ↦ elim (Bool-cases (tier_rank class p.cfg.tier == preferred)) [
          | inl same ↦ inr (
            accepted kept (inr (ground (arith, same))),
            (λ h. absurd (Bool-ne h flexible)),
            rw (kept, flexible, same, small, weigh) refl,
          )
          | inr other ↦ inl (
            rw (kept, flexible, other, small, weigh) refl,
            λ a. absurd (not_accepted flexible other a),
          )
        ]
      ]
    ]
      where
        small : leb 99 (tier_rank class p.cfg.tier) ≡ false
        small = let low = tier_rank-le class p.cfg.tier in ground arith

        accepted :
            is_passed_over first best now p ≡ false
            → (is_critical class ≡ true) ⊎ (tier_rank class p.cfg.tier ≡ preferred)
            → IsAccepted p
        accepted k t = record { kept = k; tier = t }

        not_accepted :
            is_critical class ≡ false
            → (tier_rank class p.cfg.tier == preferred) ≡ false
            → IsAccepted p
            → ⊥
        not_accepted flexible other a = elim a.tier [
          | inl strict ↦ Bool-ne strict flexible
          | inr same ↦ absurd (ground (arith, same, other))
        ]

    take_better_cases :
        (score : ℕ) (c : Best)
        → (take_better i score c ≡ record c { index = some i; score = score })
          ⊎ ((take_better i score c ≡ c) × ((j : ℕ) × (c.index ≡ some j)))
    unfolding take_better
    take_better_cases score c = elim (Option-cases c.index) [
      | inl unset ↦ inl (rw (unset, take_better) refl)
      | inr (j, e) ↦ elim (Bool-cases (ltb score c.score || score == c.score && ltb i j)) [
        | inl better ↦ inl (rw (e, better, take_better) refl)
        | inr worse ↦ inr (ground (arith, e, worse), (j, e))
      ]
    ]

take_better-tier : (i score : ℕ) (c : Best) → (take_better i score c).tier ≡ c.tier
unfolding take_better
take_better-tier i score c = ground arith

enter_tier_cases :
    (strict : Bool) (rank : ℕ) (b : Best)
    → (enter_tier strict rank b ≡ b)
      ⊎ ((strict ≡ true) × (enter_tier strict rank b ≡ record b { index = none; tier = rank }))
unfolding enter_tier
enter_tier_cases true rank b = elim (Bool-cases (ltb rank b.tier)) [
  | inl better ↦ inr (refl, rw better refl)
  | inr same ↦ inl (rw same refl)
]
enter_tier_cases false rank b = inl refl

enter_tier-tier :
    (strict : Bool) (rank : ℕ) (b : Best)
    → (strict ≡ true → rank ≤ b.tier)
    → strict ≡ true
    → rank ≡ (enter_tier strict rank b).tier
unfolding enter_tier
enter_tier-tier true rank b h e = let low = h refl in ground arith
enter_tier-tier false rank b h e = cc

module _ (class : RequestClass) (first : Bool) (preferred best now : ℕ) (all : List Provider) where
  module _ (i : ℕ) (p : Provider) (b : Best) (here : get_elem? all i ≡ some p)
      (sound : IsSound class first preferred best now all b) where
    -- After a round that takes the provider, the choice is sound, and there is one.
    taken-IsSound :
        IsAccepted class first preferred best now all p
        → (is_critical class ≡ true → tier_rank class p.cfg.tier ≤ b.tier)
        → let c =
            take_better i
              (read_score class now p)
              (enter_tier (is_critical class) (tier_rank class p.cfg.tier) b) in
          IsSound class first preferred best now all c × ((j : ℕ) × (c.index ≡ some j))
    taken-IsSound a low =
        let r = tier_rank class p.cfg.tier in
        let entered = enter_tier (is_critical class) r b in
        elim (take_better_cases class first preferred best now all i p b (read_score class now p)
          entered) [
            | inl e ↦ rw e (
              record {
                chosen = λ j k. (
                  p,
                  subst (λ n. get_elem? all n ≡ some p) (some-inj k) here,
                  a,
                  (λ s. enter_tier-tier (is_critical class) r b low s),
                );
                unset = λ k. absurd (ground (arith, k));
              },
              (i, refl),
            )
            | inr (e, (j, f)) ↦ elim (enter_tier_cases (is_critical class) r b) [
              | inl same ↦ rw (e, same) (sound, (j, rw same at f))
              | inr (s, reset) ↦ absurd (ground (arith, rw reset at f))
            ]
          ]

    taken_tier :
        (take_better i
          (read_score class now p)
          (enter_tier (is_critical class) (tier_rank class p.cfg.tier) b)).tier
        ≤ b.tier
    unfolding take_better enter_tier
    taken_tier = ground arith

    -- A round keeps the choice sound, never loses it, and never goes to a worse tier; after it the
    -- provider, if it is accepted, is served at least as well.
    weigh_lem :
        let c = weigh class first preferred best now i p b in
        IsSound class first preferred best now all c
        × (c.tier ≤ b.tier)
        × ((j : ℕ) → b.index ≡ some j → (k : ℕ) × (c.index ≡ some k))
        × (IsAccepted class first preferred best now all p
            → ((k : ℕ) × (c.index ≡ some k))
              × (is_critical class ≡ true → c.tier ≤ tier_rank class p.cfg.tier))
    weigh_lem = elim (weigh_cases class first preferred best now all i p b) [
      | inl (same, skipped) ↦ rw same (
        sound,
        omega arith,
        (λ j e. (j, e)),
        λ a. (set (skipped a), λ s. omega (arith, skipped a)),
      )
      | inr (a, low, taken) ↦
          let (s, k) = taken-IsSound a low in
          rw taken (s, taken_tier, (λ j e. k), λ a'. (k, λ strict. better low strict))
    ]
      where
        set :
            (is_critical class ≡ true) × (b.tier < tier_rank class p.cfg.tier)
            → (k : ℕ) × (b.index ≡ some k)
        set (strict, worse) = elim (Option-cases b.index) [
          | inl unset ↦
              let none_yet = sound.unset unset in
              let low = tier_rank-le class p.cfg.tier in absurd (omega arith)
          | inr (k, e) ↦ (k, e)
        ]

        better :
            (is_critical class ≡ true → tier_rank class p.cfg.tier ≤ b.tier)
            → is_critical class ≡ true
            → (take_better i
                (read_score class now p)
                (enter_tier (is_critical class) (tier_rank class p.cfg.tier) b)).tier
              ≤ tier_rank class p.cfg.tier
        better low strict =
            let e = enter_tier-tier (is_critical class) (tier_rank class p.cfg.tier) b low strict in
            omega (
              arith,
              e,
              take_better-tier i (read_score class now p)
                  (enter_tier (is_critical class) (tier_rank class p.cfg.tier) b),
            )

  -- A pass is sound, and serves every accepted provider at least as well as its tier.
  pub pass_from_lem :
      (i : ℕ) (ps : List Provider) (b : Best)
      → StandAt all i ps
      → IsSound class first preferred best now all b
      → let c = pass_from class first preferred best now i ps b in
        IsSound class first preferred best now all c
        × (c.tier ≤ b.tier)
        × ((j : ℕ) → b.index ≡ some j → (k : ℕ) × (c.index ≡ some k))
        × ((k : ℕ) (q : Provider)
            → get_elem? ps k ≡ some q
            → IsAccepted class first preferred best now all q
            → ((m : ℕ) × (c.index ≡ some m))
              × (is_critical class ≡ true → c.tier ≤ tier_rank class q.cfg.tier))
  unfolding pass_from
  pass_from_lem i [] b at sound =
      (sound, omega arith, (λ j e. (j, e)), λ k q e a. absurd (ground (arith, e)))
  pass_from_lem i (p ∷ ps) b at sound =
      let step = weigh_lem i p b (head_at all i p ps at) sound in
      let c = weigh class first preferred best now i p b in
      let rest = pass_from_lem (suc i) ps c (tail_at all i p ps at) step.0 in
      (
        rest.0,
        omega (arith, step.1, rest.1),
        (λ j e. let (k, f) = step.2 j e in rest.2 k f),
        cons_each
            (λ q.
              IsAccepted class first preferred best now all q
              → ((m : ℕ) × ((pass_from class first preferred best now (suc i) ps c).index ≡ some m))
                × (is_critical class ≡ true
                    → (pass_from class first preferred best now (suc i) ps c).tier
                      ≤ tier_rank class q.cfg.tier))
            p ps
            (λ a.
              let (set, tier) = step.3 a in
              (rest.2 set.0 set.1, λ s. let low = tier s in omega (arith, low, rest.1)))
            rest.3,
      )
