-- ===== src/Base/Digits.antt =====
-- Decimal digits can be read back, and a text is split at its last separator in one way only.
use Prim.Native.Nat.{ℕ, zero, suc, ◌+◌, ◌-◌, ◌*◌, ◌/◌, ◌%◌, ◌<◌}
use mathlib.Core.Path.{◌≡◌, refl, sym, ap, ◌∙◌}
use mathlib.Core.Logic.{inl, inr}
use mathlib.Core.Bool.{Bool, true, false, ◌||◌}
use mathlib.Core.List.{[], ◌∷◌, ◌++◌}
use native.Mathlib.Omega.{arith}
use titanarb_engine.Base.Tests.{ltb, ◌==◌, Bool-cases}
use titanarb_engine.Base.Strings.{Text, decimal, decimal_digits}

-- The number that digits stand for, after `acc`.
unfoldable pub read_digits : ℕ → Text → ℕ
read_digits acc [] = acc
read_digits acc (c ∷ s) = read_digits (acc * 10 + (c - b'0')) s

unfoldable pub has_byte : ℕ → Text → Bool
has_byte c [] = false
has_byte c (x ∷ s) = x == c || has_byte c s

read_digits-++ :
    (acc : ℕ) (s t : Text) → read_digits acc (s ++ t) ≡ read_digits (read_digits acc s) t
unfolding read_digits
read_digits-++ acc [] t = refl
read_digits-++ acc (c ∷ s) t = read_digits-++ (acc * 10 + (c - b'0')) s t

has_byte-++ : (c : ℕ) (s t : Text) → has_byte c (s ++ t) ≡ has_byte c s || has_byte c t
unfolding has_byte
has_byte-++ c [] t = refl
has_byte-++ c (x ∷ s) t = ground (arith, has_byte-++ c s t)

read_digits-decimal_digits : (fuel n : ℕ) → n < fuel → read_digits 0 (decimal_digits fuel n) ≡ n
unfolding read_digits decimal_digits
read_digits-decimal_digits zero n h = absurd (omega arith)
read_digits-decimal_digits (suc fuel) n h = elim (Bool-cases (ltb n 10)) [
  | inl small ↦ rw (small, decimal_digits) (omega arith)
  | inr large ↦
      let rest = read_digits-decimal_digits fuel (n / 10) (ground (arith, large)) in
      rw (large, decimal_digits)
        (read_digits-++ 0 (decimal_digits fuel (n / 10)) ((b'0' + n % 10) ∷ [])
          ∙ rw rest (omega arith))
]

read_digits-decimal : (n : ℕ) → read_digits 0 (decimal n) ≡ n
unfolding decimal
read_digits-decimal n = read_digits-decimal_digits (suc n) n (omega arith)

pub decimal-inj : (m n : ℕ) → decimal m ≡ decimal n → m ≡ n
decimal-inj m n h = sym (read_digits-decimal m) ∙ ap (read_digits 0) h ∙ read_digits-decimal n

has_byte-decimal_digits : (fuel n : ℕ) → has_byte b':' (decimal_digits fuel n) ≡ false
unfolding has_byte decimal_digits
has_byte-decimal_digits zero n = refl
has_byte-decimal_digits (suc fuel) n = elim (Bool-cases (ltb n 10)) [
  | inl small ↦ rw (small, decimal_digits) (ground (arith, small))
  | inr large ↦
      rw (large, decimal_digits)
        (has_byte-++ b':' (decimal_digits fuel (n / 10)) ((b'0' + n % 10) ∷ [])
          ∙ rw (has_byte-decimal_digits fuel (n / 10)) (ground arith))
]

pub has_byte-decimal : (n : ℕ) → has_byte b':' (decimal n) ≡ false
unfolding decimal
has_byte-decimal n = has_byte-decimal_digits (suc n) n

has_byte-middle : (c : ℕ) (s t : Text) → has_byte c (s ++ c ∷ t) ≡ true
unfolding has_byte
has_byte-middle c [] t = ground arith
has_byte-middle c (x ∷ s) t = ground (arith, has_byte-middle c s t)

tail_of : Text → Text
tail_of [] = []
tail_of (x ∷ s) = s

head_of : Text → ℕ
head_of [] = 0
head_of (x ∷ s) = x

false-ne-true : {A : Type 0} (b : Bool) → b ≡ false → b ≡ true → A
false-ne-true true h k = absurd (ground (arith, h))
false-ne-true false h k = absurd (ground (arith, k))

-- The part before the last separator and the one after it.
pub split_last :
    (c : ℕ) (s s' t t' : Text)
    → has_byte c t ≡ false
    → has_byte c t' ≡ false
    → s ++ c ∷ t ≡ s' ++ c ∷ t'
    → (s ≡ s') × (t ≡ t')
unfolding tail_of head_of
split_last c [] [] t t' n n' h = (refl, ap tail_of h)
split_last c [] (x ∷ s') t t' n n' h =
    false-ne-true (has_byte c t) n (ap (λ u. has_byte c (tail_of u)) h ∙ has_byte-middle c s' t')
split_last c (x ∷ s) [] t t' n n' h =
    false-ne-true (has_byte c t') n'
      (ap (λ u. has_byte c (tail_of u)) (sym h) ∙ has_byte-middle c s t)
split_last c (x ∷ s) (y ∷ s') t t' n n' h =
    let (same, rest) = split_last c s s' t t' n n' (ap tail_of h) in
    (rw (ap head_of h, same) refl, rest)
