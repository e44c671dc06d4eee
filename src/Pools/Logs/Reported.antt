-- ===== src/Pools/Logs/Reported.antt =====
-- Which pools a log scan reports (pools.go).
use titanarb_engine.Base.{
  ℕ, ◌≡◌, ◌≢◌, ◌∙◌, refl, sym, subst, ◌⊎◌, inl, inr, ◌↔◌, none, some, Option, List, [], ◌∷◌, Text,
  text_mem, text_mem_iff, to_lower, In, In-append, In-append_left, In-append_right, length, arith,
  Bool-cases, Option-cases, none-ne-some, some-inj, ◌==◌,
}
use titanarb_engine.Pools.{Swap}
use titanarb_engine.Pools.Logs.{LogEntry, Source, add_key, collect}

-- The responses to a list of ranges, put together.
abbrev pub gather : Source → List (ℕ × ℕ) → List Text → List Text
gather src [] m = m
gather src ((x, y) ∷ ts) m = elim (src.respond x y) [
  | none ↦ gather src ts m
  | some entries ↦ gather src ts (collect src.decode entries m)
]

-- An entry with an address, which in lower case is the key.
abbrev pub Names : Text → LogEntry → Type 0
Names k e = (length e.address ≢ 0) × (to_lower e.address ≡ k)

-- A response to one of the ranges has an entry that names the key.
abbrev pub Reported : Source → List (ℕ × ℕ) → Text → Type 0
Reported src ranges k =
    (a : ℕ) × (b : ℕ) × (es : List LogEntry) × (e : LogEntry) × In (a, b) ranges
    × (src.respond a b ≡ some es)
    × In e es
    × Names k e

add_key_iff : (k j : Text) (m : List Text) → In j (add_key k m) ↔ ((k ≡ j) ⊎ In j m)
unfolding add_key
add_key_iff k j m = elim (Bool-cases (text_mem k m)) [
  | inl old ↦
      let known = (text_mem_iff k m).0 old in
      rw old (λ i. inr i, λ h. elim h [ inl e ↦ rw (← e) known | inr i ↦ i ])
  | inr new ↦ rw new (
    λ i. elim (In-append j m (k ∷ []) i) [
      | inl l ↦ inr l
      | inr (inl e) ↦ inl (sym e)
      | inr (inr n) ↦ elim n [ ]
    ],
    λ h. elim h [
      | inl e ↦ In-append_right j m (k ∷ []) (inl (sym e))
      | inr i ↦ In-append_left j m (k ∷ []) i
    ],
  )
]

-- What one response adds.
abbrev Added : Text → List LogEntry → List Text → Type 0
Added j es m = ((e : LogEntry) × In e es × Names j e) ⊎ In j m

collect_iff :
    (decode : LogEntry → Option Swap) (j : Text) (es : List LogEntry) (m : List Text)
    → In j (collect decode es m) ↔ Added j es m
unfolding collect
collect_iff decode j [] m = (λ i. inr i, λ h. elim h [ inl (e, i, n) ↦ elim i [ ] | inr i ↦ i ])
collect_iff decode j (e ∷ es) m = elim (Bool-cases (length e.address == 0)) [
  | inl empty ↦
      let (to, from) = collect_iff decode j es m in
      let nameless : Names j e → ⊥ = λ n. n.0 (ground (arith, empty)) in
      rw empty (
        λ i. elim (to i) [ inl (x, k, n) ↦ inl (x, inr k, n) | inr k ↦ inr k ],
        λ h. elim h [
          | inl (x, inl same, n) ↦ absurd (nameless (subst (Names j) same n))
          | inl (x, inr k, n) ↦ from (inl (x, k, n))
          | inr k ↦ from (inr k)
        ],
      )
  | inr named ↦
      let (to, from) = collect_iff decode j es (add_key (to_lower e.address) m) in
      let (to', from') = add_key_iff (to_lower e.address) j m in
      let full : length e.address ≢ 0 = λ z. ground (arith, named, z) in
      rw named (
        λ i. elim (to i) [
          | inl (x, k, n) ↦ inl (x, inr k, n)
          | inr k ↦ elim (to' k) [ inl same ↦ inl (e, inl refl, (full, same)) | inr old ↦ inr old ]
        ],
        λ h. elim h [
          | inl (x, inl same, n) ↦ from (inr (from' (inl (subst (Names j) same n).1)))
          | inl (x, inr k, n) ↦ from (inl (x, k, n))
          | inr k ↦ from (inr (from' (inr k)))
        ],
      )
]

later :
    (x y : ℕ) (j : Text) (ts : List (ℕ × ℕ)) (src : Source)
    → Reported src ts j
    → Reported src ((x, y) ∷ ts) j
later x y j ts src (a, b, es, e, i, got, k, n) = (a, b, es, e, inr i, got, k, n)

gather_iff :
    (src : Source) (j : Text) (ts : List (ℕ × ℕ)) (m : List Text)
    → In j (gather src ts m) ↔ (Reported src ts j ⊎ In j m)
gather_iff src j [] m =
    (λ i. inr i, λ h. elim h [ inl (a, b, es, e, i, got, k, n) ↦ elim i [ ] | inr i ↦ i ])
gather_iff src j ((x, y) ∷ ts) m = elim (Option-cases (src.respond x y)) [
  | inl lost ↦
      let (to, from) = gather_iff src j ts m in
      let skips : gather src ((x, y) ∷ ts) m ≡ gather src ts m = rw (lost, gather) refl in
      subst (λ g. In j g ↔ (Reported src ((x, y) ∷ ts) j ⊎ In j m)) (sym skips)
        (
          λ i. elim (to i) [ inl r ↦ inl (later x y j ts src r) | inr k ↦ inr k ],
          λ h. elim h [
            | inl (a, b, es, e, inl same, got, k, n) ↦
                let got' = subst (λ (t : ℕ × ℕ). src.respond t.0 t.1 ≡ some es) same got in
                absurd (none-ne-some (sym lost ∙ got'))
            | inl (a, b, es, e, inr i, got, k, n) ↦ from (inl (a, b, es, e, i, got, k, n))
            | inr k ↦ from (inr k)
          ],
        )
  | inr (es, got) ↦
      let (to, from) = gather_iff src j ts (collect src.decode es m) in
      let (to', from') = collect_iff src.decode j es m in
      let takes : gather src ((x, y) ∷ ts) m ≡ gather src ts (collect src.decode es m) =
        rw (got, gather) refl in
      subst (λ g. In j g ↔ (Reported src ((x, y) ∷ ts) j ⊎ In j m)) (sym takes)
        (
          λ i. elim (to i) [
            | inl r ↦ inl (later x y j ts src r)
            | inr k ↦ elim (to' k) [
              | inl (e, k, n) ↦ inl (x, y, es, e, inl refl, got, k, n)
              | inr old ↦ inr old
            ]
          ],
          λ h. elim h [
            | inl (a, b, fs, e, inl same, got', k, n) ↦
                let got2 = subst (λ (t : ℕ × ℕ). src.respond t.0 t.1 ≡ some fs) same got' in
                let one : fs ≡ es = some-inj (sym got2 ∙ got) in
                from (inr (from' (inl (e, subst (In e) one k, n))))
            | inl (a, b, fs, e, inr i, got', k, n) ↦ from (inl (a, b, fs, e, i, got', k, n))
            | inr k ↦ from (inr (from' (inr k)))
          ],
        )
]

-- The keys that are gathered from nothing are those that the responses report.
pub gathered_iff :
    (src : Source) (j : Text) (ts : List (ℕ × ℕ)) → In j (gather src ts []) ↔ Reported src ts j
gathered_iff src j ts =
    let (to, from) = gather_iff src j ts [] in
    (λ i. elim (to i) [ inl r ↦ r | inr n ↦ elim n [ ] ], λ r. from (inl r))
