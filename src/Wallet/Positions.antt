-- ===== src/Wallet/Positions.antt =====
-- Positions in a list of reserved nonces (wallet.go).
use titanarb_engine.Base.{
  ℕ, zero, suc, ◌+◌, ◌≤◌, ◌<◌, ◌≡◌, sym, inl, inr, Option, none, some, List, [], ◌∷◌, arith, In,
  Distinct, All, All-map, subst, ◌≢◌,
}

abbrev pub nth : ℕ → List ℕ → Option ℕ
nth i [] = none
nth zero (x ∷ xs) = some x
nth (suc i) (x ∷ xs) = nth i xs

abbrev pub without : ℕ → List ℕ → List ℕ
without i [] = []
without zero (x ∷ xs) = xs
without (suc i) (x ∷ xs) = x ∷ without i xs

pub not-In-under : (n : ℕ) (ns : List ℕ) → All (λ r. r < n) ns → In n ns → ⊥
not-In-under n [] h i = elim i [ ]
not-In-under n (x ∷ ns) h (inl e) = omega (arith, h.0)
not-In-under n (x ∷ ns) h (inr i) = not-In-under n ns h.1 i

pub In-without : (x i : ℕ) (ns : List ℕ) → In x (without i ns) → In x ns
In-without x i [] h = elim h [ ]
In-without x zero (y ∷ ns) h = inr h
In-without x (suc i) (y ∷ ns) (inl e) = inl e
In-without x (suc i) (y ∷ ns) (inr h) = inr (In-without x i ns h)

pub Distinct-without : (i : ℕ) (ns : List ℕ) → Distinct ns → Distinct (without i ns)
Distinct-without i [] d = tt
Distinct-without zero (y ∷ ns) d = d.1
Distinct-without (suc i) (y ∷ ns) d = ((λ h. d.0 (In-without y i ns h)), Distinct-without i ns d.1)

pub All-without : (P : ℕ → Type 0) (i : ℕ) (ns : List ℕ) → All P ns → All P (without i ns)
All-without P i [] h = tt
All-without P zero (y ∷ ns) h = h.1
All-without P (suc i) (y ∷ ns) h = (h.0, All-without P i ns h.1)

pub In-nth : (x j : ℕ) (xs : List ℕ) → nth j xs ≡ some x → In x xs
In-nth x j [] f = absurd (ground arith)
In-nth x zero (z ∷ xs) f = inl (ground arith)
In-nth x (suc j) (z ∷ xs) f = inr (In-nth x j xs f)

-- Without its largest entry, a list of different numbers under n + 1 lies under n.
pub All-without_top :
    (n i : ℕ) (ns : List ℕ)
    → nth i ns ≡ some n
    → Distinct ns
    → All (λ r. r < n + 1) ns
    → All (λ r. r < n) (without i ns)
All-without_top n i [] e d h = tt
All-without_top n zero (y ∷ ns) e d h = others ns (λ k. d.0 (subst (λ t. In t ns) (sym same) k)) h.1
  where
    same : y ≡ n
    same = ground arith

    others : (xs : List ℕ) → (In n xs → ⊥) → All (λ r. r < n + 1) xs → All (λ r. r < n) xs
    others [] fresh g = tt
    others (x ∷ xs) fresh g =
        let differs : n ≢ x = λ e. fresh (inl e) in
        (omega (arith, g.0, differs), others xs (λ k. fresh (inr k)) g.1)
All-without_top n (suc i) (y ∷ ns) e d h =
    let differs : y ≢ n = λ s. d.0 (subst (λ t. In t ns) (sym s) (In-nth n i ns e)) in
    (omega (arith, h.0, differs), All-without_top n i ns e d.1 h.1)

pub All-below : (m n : ℕ) (ns : List ℕ) → m ≤ n → All (λ r. r < m) ns → All (λ r. r < n) ns
All-below m n ns h = All-map (λ (r : ℕ) k. omega arith) ns
