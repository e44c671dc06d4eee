-- ===== src/Base.antt =====
-- The names that the other modules share: the libraries', passed on, and those of the children.
-- Unsigned 64-bit counters are numbers, with `wrap64` where the source's arithmetic can wrap.
mod Tests
mod Lists
mod Strings
pub mod Int
pub mod Dict
pub mod Digits
pub use Tests.*
pub use Lists.*
unfoldable pub use Strings.{
  text_eq, text_lt, lower_byte, to_lower, equal_fold, trim_space, parse_uint, has_prefix, contains,
  decimal,
}
pub use Strings.{Text, bytes, text_eq_iff, text_eq_refl, to_lower_idem, equal_fold_sym}
pub use Prim.Native.Nat.{ℕ, zero, suc, ◌+◌, ◌-◌, ◌*◌, ◌/◌, ◌%◌, ◌^◌, ◌≤◌, ◌<◌, min, max}
pub use mathlib.Core.Path.{◌≡◌, refl, sym, ap, ◌∙◌, subst}
pub use mathlib.Core.Logic.{◌≢◌, ◌↔◌, ◌⊎◌, inl, inr}
pub use mathlib.Core.Bool.{Bool, true, false, not, ◌&&◌, ◌||◌}
pub use mathlib.Core.Option.{Option, none, some}
pub use mathlib.Core.List.{List, [], ◌∷◌, ◌++◌, map, append_assoc}
pub use native.Mathlib.Omega.{arith}
unfoldable pub use native.Mathlib.Decide.{dec_lt, dec_le, ℕ_discrete}

-- 2 ^ 64
abbrev pub u64 : ℕ
u64 = 18446744073709551616

-- The empty type at every level.
pub data Empty {ℓ} : Type ℓ where

-- Membership and distinctness by recursion.
module _ {ℓ} {A : Type ℓ} where
  abbrev pub In : A → List A → Type ℓ
  In x [] = Empty
  In x (y ∷ ys) = (x ≡ y) ⊎ In x ys

  abbrev pub Distinct : List A → Type ℓ
  Distinct [] = Unit
  Distinct (x ∷ xs) = (In x xs → ⊥) × Distinct xs

-- A predicate on every entry of a list, which the tactics read and build.
module _ {ℓ κ} {A : Type ℓ} where
  abbrev pub All : (A → Type κ) → List A → Type κ
  All P [] = Unit
  All P (x ∷ xs) = P x × All P xs

module _ {ℓ κ} {A : Type ℓ} (P : A → Type κ) where
  pub All-append : (xs ys : List A) → All P xs → All P ys → All P (xs ++ ys)
  All-append [] ys hx hy = hy
  All-append (x ∷ xs) ys hx hy = (hx.0, All-append xs ys hx.1 hy)

  pub All-take : (n : ℕ) (xs : List A) → All P xs → All P (take n xs)
  All-take zero xs h = tt
  All-take (suc n) [] h = tt
  All-take (suc n) (x ∷ xs) h = (h.0, All-take n xs h.1)

module _ {ℓ κ} {A : Type ℓ} (P : A → Type κ) where
  pub All-drop : (n : ℕ) (xs : List A) → All P xs → All P (drop n xs)
  All-drop zero xs h = h
  All-drop (suc n) [] h = tt
  All-drop (suc n) (x ∷ xs) h = All-drop n xs h.1

  pub All-In : (x : A) (xs : List A) → In x xs → All P xs → P x
  All-In x [] i h = elim i [ ]
  All-In x (y ∷ xs) (inl e) h = subst P (sym e) h.0
  All-In x (y ∷ xs) (inr i) h = All-In x xs i h.1

pub All-map {ℓ κ λ'} :
    {A : Type ℓ} {P : A → Type κ} {Q : A → Type λ'} (f : (a : A) → P a → Q a) (xs : List A)
    → All P xs
    → All Q xs
All-map f [] h = tt
All-map f (x ∷ xs) h = (f x h.0, All-map f xs h.1)

-- Boolean filter and membership, which run in tests.
unfoldable pub select {ℓ} : {A : Type ℓ} → (A → Bool) → List A → List A
select p [] = []
select p (x ∷ xs) = let rest = select p xs in if p x then x ∷ rest else rest

unfoldable pub text_mem : Text → List Text → Bool
text_mem a [] = false
text_mem a (x ∷ xs) = text_eq a x || text_mem a xs

pub text_mem_iff : (a : Text) (xs : List Text) → (text_mem a xs ≡ true) ↔ In a xs
unfolding text_mem
text_mem_iff a [] = (λ e. absurd (Bool-ne e refl), λ h. elim h [ ])
text_mem_iff a (x ∷ xs) =
    let (to, from) = text_mem_iff a xs in
    let (eq_to, eq_from) = text_eq_iff a x in
    (
      λ e. elim (Bool-cases (text_eq a x)) [
        | inl same ↦ inl (eq_to same)
        | inr other ↦ inr (to (ground arith))
      ],
      λ h. elim h [
        | inl same ↦ ground (arith, eq_from same)
        | inr rest ↦ ground (arith, from rest)
      ],
    )

module _ {ℓ} {A : Type ℓ} where
  pub In-append_left : (x : A) (xs ys : List A) → In x xs → In x (xs ++ ys)
  In-append_left x [] ys h = elim h [ ]
  In-append_left x (y ∷ xs) ys (inl e) = inl e
  In-append_left x (y ∷ xs) ys (inr h) = inr (In-append_left x xs ys h)

  pub In-append_right : (x : A) (xs ys : List A) → In x ys → In x (xs ++ ys)
  In-append_right x [] ys h = h
  In-append_right x (y ∷ xs) ys h = inr (In-append_right x xs ys h)

  pub In-append : (x : A) (xs ys : List A) → In x (xs ++ ys) → In x xs ⊎ In x ys
  In-append x [] ys h = inr h
  In-append x (y ∷ xs) ys (inl e) = inl (inl e)
  In-append x (y ∷ xs) ys (inr h) = elim (In-append x xs ys h) [
    | inl l ↦ inl (inr l)
    | inr r ↦ inr r
  ]

pub List-cases {ℓ} :
    {A : Type ℓ} (xs : List A) → (xs ≡ []) ⊎ ((x : A) × (ys : List A) × (xs ≡ x ∷ ys))
List-cases [] = inl refl
List-cases (x ∷ xs) = inr (x, xs, refl)

module _ {ℓ κ} {A : Type ℓ} (P : A → Type κ) (p : A → Bool) where
  pub All-select : (xs : List A) → All P xs → All P (select p xs)
  unfolding select
  All-select [] h = tt
  All-select (x ∷ xs) h = elim (Bool-cases (p x)) [
    | inl keep ↦ rw (keep, select) (h.0, All-select xs h.1)
    | inr drop ↦ rw (drop, select) (All-select xs h.1)
  ]

module _ {ℓ} {A : Type ℓ} (p : A → Bool) where
  pub In-select : (x : A) (xs : List A) → In x (select p xs) → In x xs × (p x ≡ true)
  unfolding select
  In-select x [] h = elim h [ ]
  In-select x (y ∷ xs) h = elim (Bool-cases (p y)) [
    | inl keep ↦ elim (rw (keep, select) at h) [
      | inl e ↦ (inl e, rw e keep)
      | inr r ↦ let (i, t) = In-select x xs r in (inr i, t)
    ]
    | inr drop ↦ let (i, t) = In-select x xs (rw (drop, select) at h) in (inr i, t)
  ]

  pub Distinct-select : (xs : List A) → Distinct xs → Distinct (select p xs)
  unfolding select
  Distinct-select [] d = tt
  Distinct-select (x ∷ xs) (fresh, d) = elim (Bool-cases (p x)) [
    | inl keep ↦ rw (keep, select) ((λ h. fresh (In-select x xs h).0), Distinct-select xs d)
    | inr drop ↦ rw (drop, select) (Distinct-select xs d)
  ]
