-- ===== src/Opportunity/Costs/Kept.antt =====
-- What the cache of estimates answers (engine.go).
use titanarb_engine.Base.{
  ℕ, ◌+◌, ◌<◌, ◌≡◌, ◌∙◌, ◌++◌, append_assoc, ltb→lt, decimal, refl, sym, [], ◌∷◌, if_both,
  none-ne-some, some, ◌⊎◌, inl, inr, List, length, All, Text, ltb, ◌==◌, arith, Bool-cases,
  Option-cases, text_eq, text_eq_iff, some-inj,
}
use titanarb_engine.Base.Int.{ℤ}
use titanarb_engine.Base.Digits.{decimal-inj, has_byte-decimal, split_last}
use titanarb_engine.Base.Dict.{lookup, insert}
use titanarb_engine.Opportunity.{Hop}
use titanarb_engine.Opportunity.Costs.{
  CostModel, CostEntry, CostCache, cost_key, store_cost, cached_estimate,
}
use titanarb_engine.Routes.{Route}
use titanarb_engine.Execution.Build.{Token}

module _ {V : Type 0} (P : Text × V → Type 0) where
  All-insert : (k : Text) (v : V) (m : List (Text × V)) → P (k, v) → All P m → All P (insert k v m)
  unfolding insert
  All-insert k v [] h all = (h, tt)
  All-insert k v ((j, w) ∷ m) h all =
      if_both (All P) (text_eq j k) ((k, v) ∷ m) ((j, w) ∷ insert k v m) (h, all.1)
        (all.0, All-insert k v m h all.1)

  All-lookup : (k : Text) (m : List (Text × V)) (v : V) → lookup k m ≡ some v → All P m → P (k, v)
  unfolding lookup
  All-lookup k [] v e all = absurd (none-ne-some e)
  All-lookup k ((j, w) ∷ m) v e all = elim (Bool-cases (text_eq j k)) [
    | inl here ↦
        let value : w ≡ v = some-inj (rw (here, lookup) at e) in
        rw (sym value, sym ((text_eq_iff j k).0 here)) all.0
    | inr there ↦ All-lookup k m v (rw (there, lookup) at e) all.1
  ]

-- The two separators of a key are its last two, so that it says the address, the decimals and the number
-- of hops.
cost_key-inj :
    (x y : Token) (m n : ℕ)
    → cost_key x m ≡ cost_key y n
    → (x.address ≡ y.address) × (x.decimals ≡ y.decimals) × (m ≡ n)
unfolding cost_key
cost_key-inj x y m n h =
    let colon : ℕ = b':' in
    let front : Token → Text = λ z. z.address ++ (colon ∷ decimal z.decimals) in
    let joined : (front x ++ colon ∷ decimal m) ≡ (front y ++ colon ∷ decimal n) =
      append_assoc x.address (colon ∷ decimal x.decimals) (colon ∷ decimal m)
      ∙ h
      ∙ sym (append_assoc y.address (colon ∷ decimal y.decimals) (colon ∷ decimal n)) in
    let (fronts, hops) =
      split_last colon (front x) (front y) (decimal m) (decimal n) (has_byte-decimal m)
        (has_byte-decimal n) joined in
    let (addresses, digits) =
      split_last colon x.address y.address (decimal x.decimals) (decimal y.decimals)
        (has_byte-decimal x.decimals) (has_byte-decimal y.decimals) fronts in
    (addresses, decimal-inj x.decimals y.decimals digits, decimal-inj m n hops)

-- What was asked and answered: an address, decimals, a number of hops, a time and the two fees.
abbrev pub Answers : Type 1
Answers = Text → ℕ → ℕ → ℕ → ℤ × ℤ → Type 0

-- An entry holds what was answered for an asset and a number of hops, one lifetime before it ends.
abbrev pub IsKeptEntry : Answers → ℕ → Text × CostEntry → Type 0
IsKeptEntry Answered ttl (key, entry) =
    (asset : Token) × (n t : ℕ) × (key ≡ cost_key asset n)
    × (entry.until ≡ t + ttl)
    × Answered asset.address asset.decimals n t (entry.l2, entry.l1)

abbrev pub IsKept : Answers → CostCache → Type 0
IsKept Answered c = All (IsKeptEntry Answered c.ttl) c.entries

-- A fee that a call gives was answered then or less than a lifetime before, for the same address,
-- decimals and number of hops.
abbrev pub IsRecent : Answers → Token → ℕ → ℕ → ℕ → ℕ → Text ⊎ (ℤ × ℤ) → Type 0
IsRecent Answered asset n now later ttl (inl m) = Unit
IsRecent Answered asset n now later ttl (inr l) =
    (t : ℕ) × Answered asset.address asset.decimals n t l × ((t ≡ later) ⊎ (now < t + ttl))

-- The answers of the model are what was answered.
abbrev pub IsAnswered : Answers → Token → ℕ → ℕ → Text ⊎ (ℤ × ℤ) → Type 0
IsAnswered Answered asset n later (inl m) = Unit
IsAnswered Answered asset n later (inr l) = Answered asset.address asset.decimals n later l

module _ (Answered : Answers) where
  store_cost-IsKept :
      (asset : Token) (n now later : ℕ) (answer : Text ⊎ (ℤ × ℤ)) (c : CostCache)
      → IsAnswered Answered asset n later answer
      → IsKept Answered c
      → IsKept Answered (store_cost (cost_key asset n) later answer c).1
        × IsRecent Answered asset n now later c.ttl (store_cost (cost_key asset n) later answer c).0
  unfolding store_cost
  store_cost-IsKept asset n now later (inl m) c h kept = (kept, tt)
  store_cost-IsKept asset n now later (inr l) c h kept = (
    All-insert (IsKeptEntry Answered c.ttl) (cost_key asset n)
        (record { l2 = l.0; l1 = l.1; until = later + c.ttl }) c.entries
        (asset, n, later, refl, refl, h) kept,
    (later, h, inl refl),
  )

  answered_now :
      (asset : Token) (n now later ttl : ℕ) (answer : Text ⊎ (ℤ × ℤ))
      → IsAnswered Answered asset n later answer
      → IsRecent Answered asset n now later ttl answer
  answered_now asset n now later ttl (inl m) h = tt
  answered_now asset n now later ttl (inr l) h = (later, h, inl refl)

  kept_answer :
      (asset : Token) (n now later ttl : ℕ) (entry : CostEntry)
      → now < entry.until
      → IsKeptEntry Answered ttl (cost_key asset n, entry)
      → IsRecent Answered asset n now later ttl (inr (entry.l2, entry.l1))
  kept_answer asset n now later ttl entry fresh (other, m, t, same, ends, answered) =
      let (address, decimals, hops) = cost_key-inj asset other n m same in
      let recent : now < t + ttl = omega (arith, fresh, ends) in
      (t, rw (address, decimals, hops) answered, inr recent)

  -- The cache keeps what was answered, and a fee that a call gives was answered by the base model in
  -- this call or, for an asset with the same address and decimals and for as many hops, less than the
  -- lifetime ago.
  pub cached_estimate-IsRecent :
      (base : CostModel) (now later : ℕ) (asset : Token) (route : Route) (hops : List Hop)
      (c : CostCache)
      → IsAnswered Answered asset (length hops) later (base asset route hops)
      → IsKept Answered c
      → IsKept Answered (cached_estimate base now later asset route hops c).1
        × IsRecent Answered asset
            (length hops)
            now
            later
            c.ttl
            (cached_estimate base now later asset route hops c).0
  unfolding cached_estimate
  cached_estimate-IsRecent base now later asset route hops c h kept =
      let n = length hops in
      let key = cost_key asset n in
      let stored = store_cost-IsKept asset n now later (base asset route hops) c h kept in
      elim (Bool-cases (c.ttl == 0)) [
        | inl off ↦
            rw (off, cached_estimate)
              (kept, answered_now asset n now later c.ttl (base asset route hops) h)
        | inr on ↦ elim (Option-cases (lookup key c.entries)) [
          | inl missing ↦ rw (on, missing, cached_estimate) stored
          | inr (entry, e) ↦ elim (Bool-cases (ltb now entry.until)) [
            | inr late ↦ rw (on, e, late, cached_estimate) stored
            | inl fresh ↦
                let held = All-lookup (IsKeptEntry Answered c.ttl) key c.entries entry e kept in
                rw (on, e, fresh, cached_estimate)
                  (
                    kept,
                    kept_answer asset n now later c.ttl entry (ltb→lt now entry.until fresh) held,
                  )
          ]
        ]
      ]
