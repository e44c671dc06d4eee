-- ===== src/Routes/Combinations.antt =====
-- `appendCombinations` of routes.go: each route takes one pool of each hop.
use mathlib.Core.List.{append_assoc, append-nil}
use titanarb_engine.Base.{
  ℕ, suc, ◌≡◌, refl, sym, ap, inl, inr, true, false, some, List, [], ◌∷◌, ◌++◌, Text, arith, length,
  In, All, All-append, Bool-cases, Option-cases, List-cases, leb, subst, some-inj,
}
use titanarb_engine.Pools.{Pool}
use titanarb_engine.Routes.{Route, PoolMap, choices_for, each_pool, append_combinations}

-- Each hop's pool is listed for its pair of symbols.
abbrev pub Follows : PoolMap → List Text → List Pool → Type 0
Follows by_pair [] hops = ⊥
Follows by_pair (a ∷ []) [] = Unit
Follows by_pair (a ∷ []) (p ∷ ps) = ⊥
Follows by_pair (a ∷ b ∷ s) [] = ⊥
Follows by_pair (a ∷ b ∷ s) (p ∷ ps) = In p (by_pair a b) × Follows by_pair (b ∷ s) ps

-- One pool for each hop.
abbrev pub Picked : List (List Pool) → List Pool → Type 0
Picked [] [] = Unit
Picked [] (h ∷ hs) = ⊥
Picked (c ∷ cs) [] = ⊥
Picked (c ∷ cs) (h ∷ hs) = In h c × Picked cs hs

module _ (maximum : ℕ) (f : Pool → List Route → List Route) (p : Pool) (ps : List Pool)
    (out : List Route) where
  each_pool-full :
      leb maximum (length (f p out)) ≡ true → each_pool maximum f (p ∷ ps) out ≡ f p out
  each_pool-full full = rw (full, each_pool)

  each_pool-room :
      leb maximum (length (f p out)) ≡ false
      → each_pool maximum f (p ∷ ps) out ≡ each_pool maximum f ps (f p out)
  each_pool-room room = rw (room, each_pool)

each_pool-All :
    (P : Route → Type 0) (maximum : ℕ) (f : Pool → List Route → List Route) (ps : List Pool)
    → ((p : Pool) (o : List Route) → In p ps → All P o → All P (f p o))
    → (out : List Route) → All P out
    → All P (each_pool maximum f ps out)
each_pool-All P maximum f [] keep out h = h
each_pool-All P maximum f (p ∷ ps) keep out h =
    let kept = keep p out (inl refl) h in
    elim (Bool-cases (leb maximum (length (f p out)))) [
      | inl full ↦ rw (each_pool-full maximum f p ps out full) kept
      | inr room ↦
          rw (each_pool-room maximum f p ps out room)
            (each_pool-All P maximum f ps (λ q o k. keep q o (inr k)) (f p out) kept)
    ]

pub append_combinations-All :
    (P : Route → Type 0) (maximum : ℕ) (symbols : List Text) (choices : List (List Pool))
    (current : List Pool)
    → ((hs : List Pool)
        → Picked choices hs
        → P (record { symbols = symbols; hops = current ++ hs }))
    → (out : List Route) → All P out
    → All P (append_combinations maximum symbols choices current out)
unfolding append_combinations
append_combinations-All P maximum symbols [] current each out h =
    elim (Bool-cases (leb maximum (length out))) [
      | inl full ↦ rw full h
      | inr room ↦ rw room (
          All-append P out _ h (
            subst (λ l. P (record { symbols = symbols; hops = l })) (append-nil current)
                (each [] tt),
            tt,
          ))
    ]
append_combinations-All P maximum symbols (ps ∷ choices) current each out h =
    elim (Bool-cases (leb maximum (length out))) [
      | inl full ↦ rw full h
      | inr room ↦ rw room (
          each_pool-All P maximum _ ps
            (λ p o inside.
              append_combinations-All P maximum symbols choices (current ++ p ∷ [])
                (λ hs picked.
                  subst (λ l. P (record { symbols = symbols; hops = l }))
                    (sym (append_assoc current (p ∷ []) hs)) (each (p ∷ hs) (inside, picked)))
                o)
            out h)
    ]

choices_for-cons :
    (by_pair : PoolMap) (a b : Text) (s : List Text) (cs : List (List Pool))
    → choices_for by_pair (a ∷ b ∷ s) ≡ some cs
    → (rest : List (List Pool)) × (choices_for by_pair (b ∷ s) ≡ some rest)
      × (cs ≡ by_pair a b ∷ rest)
unfolding choices_for
choices_for-cons by_pair a b s cs e = elim (List-cases (by_pair a b)) [
  | inl empty ↦ let e' = rw (empty, choices_for) at e in absurd (ground arith)
  | inr (p, ps, found) ↦ elim (Option-cases (choices_for by_pair (b ∷ s))) [
    | inl lost ↦ let e' = rw (found, lost, choices_for) at e in absurd (ground arith)
    | inr (rest, got) ↦
        let e' = rw (found, got, choices_for) at e in (rest, got, rw found (sym (some-inj e')))
  ]
]

pub choices_for-Follows :
    (by_pair : PoolMap) (a : Text) (s : List Text) (cs : List (List Pool)) (hs : List Pool)
    → choices_for by_pair (a ∷ s) ≡ some cs
    → Picked cs hs
    → Follows by_pair (a ∷ s) hs × (length hs ≡ length s)
unfolding choices_for
choices_for-Follows by_pair a [] [] [] e p = (tt, refl)
choices_for-Follows by_pair a [] [] (h ∷ hs) e p = elim p [ ]
choices_for-Follows by_pair a [] (c ∷ cs) hs e p = absurd (ground arith)
choices_for-Follows by_pair a (b ∷ s) cs hs e p =
    let (rest, got, same) = choices_for-cons by_pair a b s cs e in
    step hs (subst (λ l. Picked l hs) same p) (choices_for-Follows by_pair b s rest) got
  where
    step :
        {rest : List (List Pool)} (hs : List Pool)
        → Picked (by_pair a b ∷ rest) hs
        → ((hs' : List Pool)
            → choices_for by_pair (b ∷ s) ≡ some rest
            → Picked rest hs'
            → Follows by_pair (b ∷ s) hs' × (length hs' ≡ length s))
        → choices_for by_pair (b ∷ s) ≡ some rest
        → Follows by_pair (a ∷ b ∷ s) hs × (length hs ≡ suc (length s))
    step [] p ih got = elim p [ ]
    step (h ∷ hs) (inside, p) ih got = let (f, len) = ih hs got p in ((inside, f), ap suc len)
