-- ===== src/Rpc/Limiter/Window.antt =====
-- The minute budget against its specification over all calls that were allowed (client.go).
use titanarb_engine.Base.{
  ℕ, ◌-◌, ◌≤◌, ◌≡◌, refl, ap, sym, inl, inr, Bool, true, false, List, [], ◌∷◌, ◌++◌, length, All,
  All-append, All-map, select, arith, Bool-cases, ltb, leb, if◌then◌else◌,
}
use titanarb_engine.Rpc.Limiter.{MinuteBudget, allow, prune_before, minute}

-- The answers of the budget to calls at the given times.
unfoldable pub answers : MinuteBudget → List ℕ → List Bool
answers b [] = []
answers b (t ∷ ts) = (allow b t).0 ∷ answers (allow b t).1 ts

abbrev pub kept_since : ℕ → List ℕ → List ℕ
kept_since cutoff ts = select (λ t. leb cutoff t) ts

-- The specification: a call is allowed if fewer than `limit` of all calls allowed so far lie within
-- the last minute.
unfoldable pub specified : ℕ → List ℕ → List ℕ → List Bool
specified limit past [] = []
specified limit past (t ∷ ts) =
    let more = specified limit (past ++ t ∷ []) ts in
    let same = specified limit past ts in
    if ltb (length (kept_since (t - minute) past)) limit then true ∷ more else false ∷ same

-- The allowed ones among the calls.
unfoldable pub granted : List Bool → List ℕ → List ℕ
granted [] ts = []
granted (a ∷ rest) [] = []
granted (a ∷ rest) (t ∷ ts) = if a then t ∷ granted rest ts else granted rest ts

abbrev pub Ascending : List ℕ → Type 0
Ascending [] = Unit
Ascending (t ∷ ts) = All (λ u. t ≤ u) ts × Ascending ts

since-All : (c : ℕ) (ts : List ℕ) → All (λ u. c ≤ u) ts → kept_since c ts ≡ ts
unfolding select
since-All c [] h = refl
since-All c (t ∷ ts) h = ground (arith, since-All c ts h.1)

prune_before-kept_since :
    (c d : ℕ) (ts : List ℕ)
    → c ≤ d
    → Ascending ts
    → prune_before d (kept_since c ts) ≡ kept_since d ts
unfolding prune_before select
prune_before-kept_since c d [] h a = refl
prune_before-kept_since c d (t ∷ ts) h (low, a) =
    let rest = prune_before-kept_since c d ts h a in
    elim (Bool-cases (leb c t)) [
      | inr before ↦ rw (before, select) (ground (arith, rest))
      | inl after ↦ elim (Bool-cases (ltb t d)) [
        | inl early ↦ rw (after, early, prune_before, select) (ground (arith, rest))
        | inr late ↦
            let all : All (λ u. d ≤ u) ts = All-map (λ (u : ℕ) (k : t ≤ u). ground arith) ts low in
            let all' : All (λ u. c ≤ u) ts = All-map (λ (u : ℕ) (k : t ≤ u). ground arith) ts low in
            ground (arith, since-All d ts all, since-All c ts all')
      ]
    ]

kept_since-append :
    (c t : ℕ) (ts : List ℕ) → c ≤ t → kept_since c (ts ++ t ∷ []) ≡ kept_since c ts ++ t ∷ []
unfolding select
kept_since-append c t [] h = ground arith
kept_since-append c t (u ∷ ts) h = ground (arith, kept_since-append c t ts h)

Ascending-append :
    (t : ℕ) (ts : List ℕ) → All (λ u. u ≤ t) ts → Ascending ts → Ascending (ts ++ t ∷ [])
Ascending-append t [] h a = (tt, tt)
Ascending-append t (u ∷ ts) h (low, a) =
    (All-append (λ v. u ≤ v) ts (t ∷ []) low (h.0, tt), Ascending-append t ts h.1 a)

-- The budget remembers the allowed calls from some cutoff on, which the next call's window passes.
record Remembers (b : MinuteBudget) (past : List ℕ) (low : ℕ) : Type 0 where
  cutoff : ℕ
  calls : b.calls ≡ kept_since cutoff past
  early : cutoff ≤ low - minute
  ascending : Ascending past
  under : All (λ u. u ≤ low) past

module _ (b : MinuteBudget) (past : List ℕ) (low now : ℕ) (r : Remembers b past low)
    (later : low ≤ now) where
  kept_lem : prune_before (now - minute) b.calls ≡ kept_since (now - minute) past
  kept_lem =
      rw r.calls
        (prune_before-kept_since r.cutoff (now - minute) past (ground (arith, r.early)) r.ascending)

  past_under : All (λ u. u ≤ now) past
  past_under = All-map (λ (u : ℕ) (k : u ≤ low). omega arith) past r.under

  allow-true :
      ltb (length (kept_since (now - minute) past)) b.limit ≡ true
      → allow b now ≡ (true, record b { calls = kept_since (now - minute) past ++ now ∷ [] })
  unfolding allow
  allow-true room = ground (arith, kept_lem, ap length kept_lem)

  allow-false :
      ltb (length (kept_since (now - minute) past)) b.limit ≡ false
      → allow b now ≡ (false, record b { calls = kept_since (now - minute) past })
  unfolding allow
  allow-false full = ground (arith, kept_lem, ap length kept_lem)

  true-Remembers :
      Remembers
        (record b { calls = kept_since (now - minute) past ++ now ∷ [] })
        (past ++ now ∷ [])
        now
  true-Remembers = record {
    cutoff = now - minute;
    calls = sym (kept_since-append (now - minute) now past (omega arith));
    early = omega arith;
    ascending = Ascending-append now past past_under r.ascending;
    under = All-append (λ u. u ≤ now) past (now ∷ []) past_under (omega arith, tt);
  }

  false-Remembers : Remembers (record b { calls = kept_since (now - minute) past }) past now
  false-Remembers = record {
    cutoff = now - minute;
    calls = refl;
    early = omega arith;
    ascending = r.ascending;
    under = past_under;
  }

answers-specified :
    (b : MinuteBudget) (past : List ℕ) (low : ℕ) (times : List ℕ)
    → Remembers b past low
    → All (λ t. low ≤ t) times
    → Ascending times
    → answers b times ≡ specified b.limit past times
unfolding answers specified
answers-specified b past low [] r h a = refl
answers-specified b past low (t ∷ times) r (now, h) (next, a) =
    elim (Bool-cases (ltb (length (kept_since (t - minute) past)) b.limit)) [
      | inl room ↦
          let ih =
            answers-specified (record b { calls = kept_since (t - minute) past ++ t ∷ [] })
              (past ++ t ∷ []) t times (true-Remembers b past low t r now) next a in
          rw (allow-true b past low t r now room, room) (ap (◌∷◌ true) ih)
      | inr full ↦
          let ih =
            answers-specified (record b { calls = kept_since (t - minute) past }) past t times
              (false-Remembers b past low t r now) next a in
          rw (allow-false b past low t r now full, full) (ap (◌∷◌ false) ih)
    ]

-- For calls at ascending times the budget, which remembers one minute, answers as the specification
-- over the calls of all time: a call is allowed exactly if fewer than the limit of all calls that
-- were allowed before lie in the minute before it.
pub answers_lem :
    (limit : ℕ) (times : List ℕ)
    → Ascending times
    → answers (record { limit = limit; calls = [] }) times ≡ specified limit [] times
unfolding select
answers_lem limit times a =
    answers-specified (record { limit = limit; calls = [] }) [] 0 times
      (record { cutoff = 0; calls = refl; early = omega arith; ascending = tt; under = tt })
      (from_zero times) a
  where
    from_zero : (ts : List ℕ) → All (λ t. 0 ≤ t) ts
    from_zero [] = tt
    from_zero (t ∷ ts) = (omega arith, from_zero ts)
