-- ===== src/Rpc/Choice/Usable.antt =====
-- What chooseReadProvider guarantees of the provider that it chooses (client.go).
use titanarb_engine.Base.{
  ℕ, ◌+◌, ◌≤◌, ◌≡◌, refl, sym, subst, inl, inr, Bool, true, false, none, some, List, get_elem?,
  arith, Bool-cases, Option-cases, if◌then◌else◌,
}
use titanarb_engine.Rpc.Provider.{Provider, RequestClass, is_critical, tier_rank}
use titanarb_engine.Rpc.Choice.{
  Best, is_passed_over, pass_over, no_best, best_known_block, preferred_read_tier, read_index,
}
use titanarb_engine.Rpc.Choice.Scan.{IsSound, IsAccepted, pass_from_lem, StandAt}
use titanarb_engine.Rpc.Choice.Tiers.{preferred-IsOffered}

from_start : (all : List Provider) → StandAt all 0 all
from_start all k q h =
    let same : 0 + k ≡ k = omega arith in subst (λ n. get_elem? all n ≡ some q) (sym same) h

-- The tests of a provider for the first pass, which minds the probation, or for the second.
abbrev pub IsUsable : Bool → ℕ → List Provider → Provider → Type 0
IsUsable first now ps p = is_passed_over first (best_known_block ps) now p ≡ false

module _ (class : RequestClass) (first : Bool) (now : ℕ) (ps : List Provider) where
  preferred_of : ℕ
  preferred_of =
      if is_critical class then 99 else preferred_read_tier class first (best_known_block ps) now ps

  -- With a usable provider the pass accepts one.
  some-IsAccepted :
      (i : ℕ) (p : Provider)
      → get_elem? ps i ≡ some p
      → IsUsable first now ps p
      → (k : ℕ) × (q : Provider) × (get_elem? ps k ≡ some q)
        × IsAccepted class first preferred_of (best_known_block ps) now ps q
  unfolding preferred_of
  some-IsAccepted i p e usable = elim (Bool-cases (is_critical class)) [
    | inl strict ↦ (i, p, e, record { kept = usable; tier = inl strict })
    | inr flexible ↦
        let o = preferred-IsOffered class first (best_known_block ps) now ps i p e usable in
        (o.place, o.provider, o.stands, record { kept = o.kept; tier = inr (rw flexible o.ranked) })
  ]

  module _ (b : Best) (unset : b.index ≡ none) (no_tier : b.tier ≡ 99) where
    start-IsSound : IsSound class first preferred_of (best_known_block ps) now ps b
    start-IsSound = record {
      chosen = λ j e. absurd (ground (arith, e, unset));
      unset = λ _. no_tier;
    }

    -- A pass takes only usable providers, and with none taken leaves no tier.
    pass_over-IsSound :
        IsSound class first preferred_of
          (best_known_block ps)
          now
          ps
          (pass_over class first now ps b)
    unfolding pass_over preferred_of
    pass_over-IsSound =
        (pass_from_lem class first preferred_of (best_known_block ps) now ps 0 ps b (from_start ps)
          start-IsSound).0

    -- With a usable provider the pass takes one.
    pass_over-set :
        (i : ℕ) (p : Provider)
        → get_elem? ps i ≡ some p
        → IsUsable first now ps p
        → (m : ℕ) × ((pass_over class first now ps b).index ≡ some m)
    unfolding pass_over preferred_of
    pass_over-set i p e usable =
        let (k, q, e', a) = some-IsAccepted i p e usable in
        ((pass_from_lem class first preferred_of (best_known_block ps) now ps 0 ps b (from_start ps)
            start-IsSound).3
          k q e' a).0

    -- A critical request is served at least as well as any usable provider would.
    pass_over-tier :
        (i : ℕ) (p : Provider)
        → get_elem? ps i ≡ some p
        → IsUsable first now ps p
        → is_critical class ≡ true
        → (pass_over class first now ps b).tier ≤ tier_rank class p.cfg.tier
    unfolding pass_over preferred_of
    pass_over-tier i p e usable strict =
        ((pass_from_lem class first preferred_of (best_known_block ps) now ps 0 ps b (from_start ps)
              start-IsSound).3
            i p e (record { kept = usable; tier = inl strict })).1
          strict

-- The first pass asks for more than the second.
weaker :
    (best now : ℕ) (p : Provider)
    → is_passed_over true best now p ≡ false
    → is_passed_over false best now p ≡ false
unfolding is_passed_over
weaker best now p h = ground arith

-- A provider that is chosen, and that passes the tests.
pub record IsServed (class : RequestClass) (first : Bool) (now : ℕ) (ps : List Provider)
    : Type 0 where
  pub index : ℕ
  pub provider : Provider
  pub chosen : read_index class now ps ≡ some index
  pub stands : get_elem? ps index ≡ some provider
  pub usable : IsUsable first now ps provider

module _ (class : RequestClass) (now : ℕ) (ps : List Provider) where
  abbrev first_pass : Best
  first_pass = pass_over class true now ps no_best

  read_first : (m : ℕ) → first_pass.index ≡ some m → read_index class now ps ≡ some m
  unfolding read_index
  read_first m e = rw (e, read_index) refl

  read_second :
      (m : ℕ)
      → first_pass.index ≡ none
      → (pass_over class false now ps first_pass).index ≡ some m
      → read_index class now ps ≡ some m
  unfolding read_index
  read_second m e f = rw (e, f, read_index) refl

  first_found :
      (m : ℕ)
      → first_pass.index ≡ some m
      → (s : IsServed class true now ps) × (is_critical class ≡ true
          → tier_rank class s.provider.cfg.tier ≡ first_pass.tier)
  first_found m e =
      let sound = pass_over-IsSound class true now ps no_best refl refl in
      let (q, stands, a, tier) = sound.chosen m e in
      (
        record {
          index = m;
          provider = q;
          chosen = read_first m e;
          stands = stands;
          usable = a.kept;
        },
        tier,
      )

  second_found :
      (i : ℕ) (p : Provider)
      → get_elem? ps i ≡ some p
      → IsUsable false now ps p
      → first_pass.index ≡ none
      → IsServed class false now ps
  second_found i p e usable unset =
      let no_tier = (pass_over-IsSound class true now ps no_best refl refl).unset unset in
      let (m, f) = pass_over-set class false now ps first_pass unset no_tier i p e usable in
      let sound = pass_over-IsSound class false now ps first_pass unset no_tier in
      let (q, stands, a, _) = sound.chosen m f in
      record {
        index = m;
        provider = q;
        chosen = read_second m unset f;
        stands = stands;
        usable = a.kept;
      }

  -- With a usable provider a usable one is chosen, in both passes.
  pub read_index-IsServed :
      (first : Bool) (i : ℕ) (p : Provider)
      → get_elem? ps i ≡ some p
      → IsUsable first now ps p
      → IsServed class first now ps
  read_index-IsServed true i p e usable =
      let (m, f) = pass_over-set class true now ps no_best refl refl i p e usable in
      (first_found m f).0
  read_index-IsServed false i p e usable = elim (Option-cases first_pass.index) [
    | inl unset ↦ second_found i p e usable unset
    | inr (m, f) ↦
        let s = (first_found m f).0 in
        record {
          index = s.index;
          provider = s.provider;
          chosen = s.chosen;
          stands = s.stands;
          usable = weaker (best_known_block ps) now s.provider s.usable;
        }
  ]

  -- A critical request goes to the best tier among the usable providers past their probation.
  pub read_index-tier :
      (i : ℕ) (p : Provider)
      → get_elem? ps i ≡ some p
      → IsUsable true now ps p
      → is_critical class ≡ true
      → (s : IsServed class true now ps) × (tier_rank class s.provider.cfg.tier
          ≤ tier_rank class p.cfg.tier)
  read_index-tier i p e usable strict =
      let (m, f) = pass_over-set class true now ps no_best refl refl i p e usable in
      let (s, tier) = first_found m f in
      let same = tier strict in
      let low = pass_over-tier class true now ps no_best refl refl i p e usable strict in
      (s, omega (arith, same, low))
