-- ===== src/Routes/Symbols.antt =====
-- `uniqueSorted` of routes.go: each non-empty value once, in ascending order.
use titanarb_engine.Base.{
  ◌≡◌, refl, ◌≢◌, ◌↔◌, inl, inr, true, false, List, [], ◌∷◌, Text, arith, text_lt, text_mem,
  text_mem_iff, length, In, Distinct, ◌==◌, Bool-cases, Bool-ne, sym, ap, ◌||◌,
}
use titanarb_engine.Routes.{insert_text, sort_texts, distinct_texts, unique_sorted}

In-insert_text : (x y : Text) (xs : List Text) → In y (insert_text x xs) ↔ In y (x ∷ xs)
unfolding insert_text
In-insert_text x y [] = (λ h. h, λ h. h)
In-insert_text x y (z ∷ zs) =
    let (to, from) = In-insert_text x y zs in
    elim (Bool-cases (text_lt x z)) [
      | inl less ↦ rw less (λ h. h, λ h. h)
      | inr more ↦ rw more (
        λ h. elim h [
          | inl e ↦ inr (inl e)
          | inr r ↦ elim (to r) [ inl e ↦ inl e | inr q ↦ inr (inr q) ]
        ],
        λ h. elim h [
          | inl e ↦ inr (from (inl e))
          | inr r ↦ elim r [ inl e ↦ inl e | inr q ↦ inr (from (inr q)) ]
        ],
      )
    ]

Distinct-insert_text : (x : Text) (xs : List Text) → Distinct (x ∷ xs) → Distinct (insert_text x xs)
unfolding insert_text
Distinct-insert_text x [] d = d
Distinct-insert_text x (z ∷ zs) (fresh, (fresh_z, d)) = elim (Bool-cases (text_lt x z)) [
  | inl less ↦ rw less (fresh, (fresh_z, d))
  | inr more ↦ rw more (
      (
        λ h. elim ((In-insert_text x z zs).0 h) [ inl e ↦ fresh (inl (sym e)) | inr r ↦ fresh_z r ],
        Distinct-insert_text x zs ((λ h. fresh (inr h)), d),
      ))
]

pub In-sort_texts : (y : Text) (xs : List Text) → In y (sort_texts xs) ↔ In y xs
unfolding sort_texts
In-sort_texts y [] = (λ h. h, λ h. h)
In-sort_texts y (x ∷ xs) =
    let (to, from) = In-sort_texts y xs in
    let (put, got) = In-insert_text x y (sort_texts xs) in
    (
      λ h. elim (put h) [ inl e ↦ inl e | inr r ↦ inr (to r) ],
      λ h. got (elim h [ inl e ↦ inl e | inr r ↦ inr (from r) ]),
    )

pub Distinct-sort_texts : (xs : List Text) → Distinct xs → Distinct (sort_texts xs)
unfolding sort_texts
Distinct-sort_texts [] d = tt
Distinct-sort_texts (x ∷ xs) (fresh, d) =
    Distinct-insert_text x (sort_texts xs)
      ((λ h. fresh ((In-sort_texts x xs).0 h)), Distinct-sort_texts xs d)

Distinct-distinct_texts : (xs : List Text) → Distinct (distinct_texts xs)
unfolding distinct_texts
Distinct-distinct_texts [] = tt
Distinct-distinct_texts (x ∷ xs) =
    elim (Bool-cases (length x == 0 || text_mem x (distinct_texts xs))) [
      | inl drop ↦ rw drop (Distinct-distinct_texts xs)
      | inr keep ↦ rw keep (
          (
            λ h. Bool-ne ((text_mem_iff x (distinct_texts xs)).1 h) (ground arith),
            Distinct-distinct_texts xs,
          ))
    ]

module _ (x y : Text) (xs : List Text) (e : y ≡ x) where
  kept :
      length y ≢ 0
      → (length x == 0 || text_mem x (distinct_texts xs)) ≡ true
      → text_mem x (distinct_texts xs) ≡ true
  kept filled drop = ground (arith, ap length e)

  nonempty : (length x == 0 || text_mem x (distinct_texts xs)) ≡ false → length y ≢ 0
  nonempty keep = λ z. ground (arith, ap length e)

In-distinct_texts :
    (y : Text) (xs : List Text) → In y (distinct_texts xs) ↔ (In y xs × (length y ≢ 0))
unfolding distinct_texts
In-distinct_texts y [] = (λ h. elim h [ ], λ h. elim h.0 [ ])
In-distinct_texts y (x ∷ xs) =
    let (to, from) = In-distinct_texts y xs in
    elim (Bool-cases (length x == 0 || text_mem x (distinct_texts xs))) [
      | inl drop ↦ rw drop (
        λ h. (inr (to h).0, (to h).1),
        λ (h, filled). elim h [
          | inl e ↦ rw e ((text_mem_iff x (distinct_texts xs)).0 (kept x y xs e filled drop))
          | inr r ↦ from (r, filled)
        ],
      )
      | inr keep ↦ rw keep (
        λ h. elim h [ inl e ↦ (inl e, nonempty x y xs e keep) | inr r ↦ (inr (to r).0, (to r).1) ],
        λ (h, filled). elim h [ inl e ↦ inl e | inr r ↦ inr (from (r, filled)) ],
      )
    ]

-- No value stands before a smaller one.
abbrev pub IsAscending : List Text → Type 0
IsAscending [] = Unit
IsAscending (x ∷ []) = Unit
IsAscending (x ∷ y ∷ ys) = (text_lt y x ≡ false) × IsAscending (y ∷ ys)

text_lt_asymm : (x y : Text) → text_lt x y ≡ true → text_lt y x ≡ false
unfolding text_lt
text_lt_asymm [] [] h = cc
text_lt_asymm [] (y ∷ ys) h = refl
text_lt_asymm (x ∷ xs) [] h = cc
text_lt_asymm (x ∷ xs) (y ∷ ys) h = ground (arith, text_lt_asymm xs ys)

IsAscending-insert_text :
    (x : Text) (xs : List Text) → IsAscending xs → IsAscending (insert_text x xs)
unfolding insert_text
IsAscending-insert_text x [] a = tt
IsAscending-insert_text x (y ∷ []) a = elim (Bool-cases (text_lt x y)) [
  | inl less ↦ rw less (text_lt_asymm x y less, tt)
  | inr more ↦ rw more (more, tt)
]
IsAscending-insert_text x (y ∷ z ∷ zs) (a, r) = elim (Bool-cases (text_lt x y)) [
  | inl less ↦ rw less (text_lt_asymm x y less, (a, r))
  | inr more ↦
      let ih = IsAscending-insert_text x (z ∷ zs) r in
      elim (Bool-cases (text_lt x z)) [
        | inl less ↦ rw (more, less) (more, (rw less at ih))
        | inr above ↦ rw (more, above) (a, (rw above at ih))
      ]
]

IsAscending-sort_texts : (xs : List Text) → IsAscending (sort_texts xs)
unfolding sort_texts
IsAscending-sort_texts [] = tt
IsAscending-sort_texts (x ∷ xs) =
    IsAscending-insert_text x (sort_texts xs) (IsAscending-sort_texts xs)

-- The result is ascending and free of repetitions, and holds exactly the values that are not empty.
pub unique_sorted_lem :
    (values : List Text)
    → IsAscending (unique_sorted values)
      × Distinct (unique_sorted values)
      × ((y : Text) → In y (unique_sorted values) ↔ (In y values × (length y ≢ 0)))
unfolding unique_sorted
unique_sorted_lem values = (
  IsAscending-sort_texts (distinct_texts values),
  Distinct-sort_texts (distinct_texts values) (Distinct-distinct_texts values),
  λ y.
      let (to, from) = In-sort_texts y (distinct_texts values) in
      let (out, back) = In-distinct_texts y values in (λ h. out (to h), λ h. from (back h)),
)
