-- ===== src/Optimizer/Samples.antt =====
-- The sample sizes (candidates of optimizer.go).
use native.Mathlib.Nat.{div-le_of_le-mul, mul-le-mul_left, mul_comm, mul-div_cancel}
use titanarb_engine.Base.{
  ℕ, zero, suc, ◌-◌, ◌*◌, ◌/◌, ◌≤◌, ◌<◌, ◌≡◌, ap, subst, dec_lt, inl, inr, List, [], ◌∷◌, arith, In,
  All, ltb, ◌==◌, Bool-cases,
}
use titanarb_engine.Optimizer.{SizeRange, add_amount, sample_count, sample, samples_to, candidates}

-- Strictly ascending.
abbrev pub Rises : List ℕ → Type 0
Rises [] = Unit
Rises (x ∷ xs) = All (λ y. x < y) xs × Rises xs

add_amount-All : (P : ℕ → Type 0) (a : ℕ) (xs : List ℕ) → P a → All P xs → All P (add_amount a xs)
unfolding add_amount
add_amount-All P a [] p h = (p, tt)
add_amount-All P a (x ∷ xs) p h = elim (Bool-cases (a == x)) [
  | inl same ↦ rw (same, add_amount) h
  | inr other ↦ elim (Bool-cases (ltb a x)) [
    | inl low ↦ rw (other, low, add_amount) (p, h)
    | inr high ↦ rw (other, high, add_amount) (h.0, add_amount-All P a xs p h.1)
  ]
]

above : (a x : ℕ) (xs : List ℕ) → a < x → All (λ y. x < y) xs → All (λ y. a < y) xs
above a x [] h k = tt
above a x (y ∷ xs) h k = (omega (arith, k.0), above a x xs h k.1)

add_amount-Rises : (a : ℕ) (xs : List ℕ) → Rises xs → Rises (add_amount a xs)
unfolding add_amount
add_amount-Rises a [] h = (tt, tt)
add_amount-Rises a (x ∷ xs) h = elim (Bool-cases (a == x)) [
  | inl same ↦ rw (same, add_amount) h
  | inr other ↦ elim (Bool-cases (ltb a x)) [
    | inl low ↦ rw (other, low, add_amount) ((ground arith, above a x xs (ground arith) h.0), h)
    | inr high ↦
        rw (other, high, add_amount)
          (add_amount-All (λ y. x < y) a xs (ground arith) h.0, add_amount-Rises a xs h.1)
  ]
]

In-add_amount : (a b : ℕ) (xs : List ℕ) → In b (a ∷ xs) → In b (add_amount a xs)
unfolding add_amount
In-add_amount a b [] h = h
In-add_amount a b (x ∷ xs) h = elim (Bool-cases (a == x)) [
  | inl same ↦ rw (same, add_amount) (elim h [ inl e ↦ inl (ground arith) | inr i ↦ i ])
  | inr other ↦ elim (Bool-cases (ltb a x)) [
    | inl low ↦ rw (other, low, add_amount) h
    | inr high ↦
        rw (other, high, add_amount)
          (elim h [
            | inl e ↦ inr (In-add_amount a b xs (inl e))
            | inr i ↦ elim i [ inl e ↦ inl e | inr j ↦ inr (In-add_amount a b xs (inr j)) ]
          ])
  ]
]

sample-bounds :
    (r : SizeRange) (i : ℕ)
    → r.min ≤ r.max
    → suc i ≤ sample_count r.samples
    → (r.min ≤ sample r i) × (sample r i ≤ r.max)
sample-bounds r i h k =
    let last = sample_count r.samples - 1 in
    let whole : (r.max - r.min) * i ≤ (r.max - r.min) * last =
      mul-le-mul_left (r.max - r.min) (omega arith) in
    let swapped : (r.max - r.min) * last ≡ last * (r.max - r.min) = mul_comm (r.max - r.min) last in
    let part =
      div-le_of_le-mul last {m = (r.max - r.min) * i} {n = r.max - r.min}
        (omega (arith, whole, swapped)) in
    (omega arith, omega (arith, part, h))

samples_to-All :
    (r : SizeRange) (n : ℕ)
    → r.min ≤ r.max
    → n ≤ sample_count r.samples
    → Rises (samples_to r n) × All (λ x. (r.min ≤ x) × (x ≤ r.max)) (samples_to r n)
unfolding samples_to
samples_to-All r zero h k = (tt, tt)
samples_to-All r (suc i) h k =
    let (rises, inside) = samples_to-All r i h (omega arith) in
    (
      add_amount-Rises (sample r i) (samples_to r i) rises,
      add_amount-All (λ x. (r.min ≤ x) × (x ≤ r.max)) (sample r i) (samples_to r i)
          (sample-bounds r i h k) inside,
    )

In-samples_to : (r : SizeRange) (n i : ℕ) → i < n → In (sample r i) (samples_to r n)
unfolding samples_to
In-samples_to r zero i h = absurd (omega arith)
In-samples_to r (suc n) i h = elim (dec_lt i n) [
  | yes below ↦
      In-add_amount (sample r n) (sample r i) (samples_to r n) (inr (In-samples_to r n i below))
  | no last ↦
      let same : i ≡ n = omega arith in
      In-add_amount (sample r n) (sample r i) (samples_to r n) (inl (ap (sample r) same))
]

sample_count-two : (samples : ℕ) → 2 ≤ sample_count samples
sample_count-two samples = ground arith

-- The sizes that are tried are strictly ascending, lie within the range, and include both its ends.
pub candidates_lem :
    (r : SizeRange)
    → r.min ≤ r.max
    → Rises (candidates r)
      × All (λ x. (r.min ≤ x) × (x ≤ r.max)) (candidates r)
      × In r.min (candidates r)
      × In r.max (candidates r)
unfolding candidates
candidates_lem r h =
    let n = sample_count r.samples in
    let two = sample_count-two r.samples in
    let (rises, inside) = samples_to-All r n h (omega arith) in
    let first : sample r 0 ≡ r.min = omega arith in
    let whole : (r.max - r.min) * (n - 1) / (n - 1) ≡ r.max - r.min =
      mul-div_cancel (r.max - r.min) (omega (arith, two)) in
    let last : sample r (n - 1) ≡ r.max = omega (arith, whole, h) in
    (
      rises,
      inside,
      subst (λ x. In x (samples_to r n)) first (In-samples_to r n 0 (omega (arith, two))),
      subst (λ x. In x (samples_to r n)) last (In-samples_to r n (n - 1) (omega (arith, two))),
    )
