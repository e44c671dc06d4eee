-- ===== src/Rpc/Limiter/Bound.antt =====
-- How many calls the minute budget allows in a minute (client.go).
use mathlib.Core.List.{append-nil, append_assoc}
use titanarb_engine.Base.{
  ℕ, ◌+◌, ◌-◌, ◌≤◌, ◌≡◌, inl, inr, true, ◌&&◌, List, [], ◌∷◌, ◌++◌, length, select, arith,
  Bool-cases, ltb, leb, if◌then◌else◌, subst,
}
use titanarb_engine.Rpc.Limiter.{minute}
use titanarb_engine.Rpc.Limiter.Window.{
  answers, specified, kept_since, granted, Ascending, answers_lem,
}

-- How many of the times lie in the minute from `start` on.
abbrev pub within : ℕ → List ℕ → ℕ
within start ts = length (select (λ t. leb start t && leb t (start + minute)) ts)

within-append :
    (start t : ℕ) (ts : List ℕ)
    → within start (ts ++ t ∷ [])
      ≡ within start ts + (if leb start t && leb t (start + minute) then 1 else 0)
unfolding select
within-append start t [] = ground arith
within-append start t (u ∷ ts) = ground (arith, within-append start t ts)

within-le-kept_since :
    (start t : ℕ) (ts : List ℕ)
    → leb t (start + minute) ≡ true
    → within start ts ≤ length (kept_since (t - minute) ts)
unfolding select
within-le-kept_since start t [] h = omega arith
within-le-kept_since start t (u ∷ ts) h = ground (arith, within-le-kept_since start t ts h)

within-room :
    (limit t : ℕ) (past : List ℕ)
    → ((s : ℕ) → within s past ≤ limit)
    → ltb (length (kept_since (t - minute) past)) limit ≡ true
    → (s : ℕ) → within s (past ++ t ∷ []) ≤ limit
within-room limit t past h room s = elim (Bool-cases (leb t (s + minute))) [
  | inl near ↦ ground (arith, within-append s t past, within-le-kept_since s t past near, h s)
  | inr far ↦ ground (arith, within-append s t past, h s)
]

within-granted :
    (limit : ℕ) (past times : List ℕ)
    → ((s : ℕ) → within s past ≤ limit)
    → (s : ℕ) → within s (past ++ granted (specified limit past times) times) ≤ limit
unfolding specified granted
within-granted limit past [] h s = rw (append-nil past) (h s)
within-granted limit past (t ∷ times) h s =
    elim (Bool-cases (ltb (length (kept_since (t - minute) past)) limit)) [
      | inr full ↦ rw full (within-granted limit past times h s)
      | inl room ↦
          let rest = granted (specified limit (past ++ t ∷ []) times) times in
          let ih =
            within-granted limit (past ++ t ∷ []) times (within-room limit t past h room) s in
          rw room (subst (λ r. within s r ≤ limit) (append_assoc past (t ∷ []) rest) ih)
    ]

-- For calls at ascending times, no minute, wherever it starts, sees more than the limit of allowed
-- calls.
pub granted-bound :
    (limit : ℕ) (times : List ℕ)
    → Ascending times
    → (start : ℕ)
    → within start (granted (answers (record { limit = limit; calls = [] }) times) times) ≤ limit
granted-bound limit times a start =
    rw (answers_lem limit times a) (within-granted limit [] times none_yet start)
  where
    none_yet : (s : ℕ) → within s [] ≤ limit
    none_yet s = unfold select in omega arith
