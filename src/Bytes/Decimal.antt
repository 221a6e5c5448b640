-- ===== src/Bytes/Decimal.antt =====
-- Decimal text: `toString(10)` of bn.js and its reading by `new BN(text)`.
use mathlib.Core.List.{map-append}
use bery_bc.Base.Throws.{none-ne-some, some-inj}
use bery_bc.Base.{
  sym, ap, ◌∙◌, Option-cases, ℕ, zero, suc, ◌+◌, ◌-◌, ◌*◌, ◌/◌, ◌%◌, ◌<◌, ◌≡◌, refl, Option, none,
  some, List, [], ◌∷◌, ◌++◌, map, arith, inl, inr, Bool-cases, ltb, leb, ltb→lt, ◌&&◌, ◌==◌,
  if◌then◌else◌,
}
use bery_bc.Base.Int.{ℤ, pos, negsuc}
use bery_bc.Bytes.Hex.{Text, digit_char}
use bery_bc.Bytes.Digits.{digits, digits_on, to_string}

-- A digit character; `new BN` asserts that every character is one.
unfoldable pub digit_value : ℕ → Option ℕ
digit_value c = if leb 48 c && leb c 57 then some (c - 48) else none

abbrev step_digit : ℕ → Option ℕ → Option ℕ
step_digit acc none = none
step_digit acc (some d) = some (acc * 10 + d)

unfoldable pub read_from : Option ℕ → Text → Option ℕ
read_from acc [] = acc
read_from none (c ∷ cs) = none
read_from (some acc) (c ∷ cs) = read_from (step_digit acc (digit_value c)) cs

-- `0 - n`
abbrev pub negated : ℕ → ℤ
negated zero = pos 0
negated (suc n) = negsuc n

abbrev as_pos : Option ℕ → Option ℤ
as_pos none = none
as_pos (some n) = some (pos n)

abbrev as_neg : Option ℕ → Option ℤ
as_neg none = none
as_neg (some n) = some (negated n)

-- `new BN(text)`, in base 10.
unfoldable pub of_decimal : Text → Option ℤ
unfolding read_from
of_decimal [] = some (pos 0)
of_decimal (c ∷ cs) =
    if c == b'-' then as_neg (read_from (some 0) cs) else as_pos (read_from (some 0) (c ∷ cs))

pub read_from-none : (cs : Text) → read_from none cs ≡ none
unfolding read_from
read_from-none [] = refl
read_from-none (c ∷ cs) = refl

read_from-nil : (n : ℕ) → read_from (some n) [] ≡ some n
unfolding read_from
read_from-nil n = refl

digit_value-digit_char : (d : ℕ) → d < 10 → digit_value (digit_char d) ≡ some d
unfolding digit_value digit_char
digit_value-digit_char d h = ground arith

read_from-snoc :
    (acc n d : ℕ) (cs : Text)
    → d < 10
    → read_from (some acc) cs ≡ some n
    → read_from (some acc) (cs ++ digit_char d ∷ []) ≡ some (n * 10 + d)
unfolding read_from
read_from-snoc acc n d [] h e =
    rw (digit_value-digit_char d h) (ap some (omega (arith, some-inj e)))
read_from-snoc acc n d (c ∷ cs) h e = elim (Option-cases (digit_value c)) [
  | inl bad ↦ absurd (none-ne-some {a = n} (sym (read_from-none cs) ∙ (rw bad at e)))
  | inr (v, good) ↦ rw (good, read_from) (read_from-snoc (acc * 10 + v) n d cs h (rw good at e))
]

pub read_from-digits :
    (fuel n : ℕ) → n < fuel → read_from (some 0) (map digit_char (digits_on 10 fuel n)) ≡ some n
unfolding digits_on
read_from-digits zero n h = elim h [ ]
read_from-digits (suc fuel) n h = elim (Bool-cases (ltb n 10)) [
  | inl low ↦
      rw low (read_from-snoc 0 0 n [] (ltb→lt n 10 low) (read_from-nil 0) ∙ ap some (omega arith))
  | inr high ↦
      rw
        (
          high,
          map-append digit_char (digits_on 10 fuel (n / 10)) ((n % 10) ∷ []),
          read_from-snoc 0 (n / 10) (n % 10) (map digit_char (digits_on 10 fuel (n / 10)))
              (omega arith) (read_from-digits fuel (n / 10) (ground arith)),
        )
        (ap some (omega arith))
]

-- A digit is no minus sign.
of_decimal-digits :
    (cs : Text) (n : ℕ) → read_from (some 0) cs ≡ some n → of_decimal cs ≡ some (pos n)
unfolding of_decimal read_from digit_value
of_decimal-digits [] n e = ap (λ k. some (pos k)) (some-inj e)
of_decimal-digits (c ∷ cs) n e = ground (arith, read_from-none cs)

of_decimal-minus :
    (cs : Text) (n : ℕ)
    → read_from (some 0) cs ≡ some (suc n)
    → of_decimal (b'-' ∷ cs) ≡ some (negsuc n)
unfolding of_decimal
of_decimal-minus cs n e = rw e

-- A number written in decimal is read back.
pub of_decimal-to_string : (a : ℤ) → of_decimal (to_string 10 a) ≡ some a
unfolding to_string digits
of_decimal-to_string (pos n) = of_decimal-digits _ n (read_from-digits (suc n) n (omega arith))
of_decimal-to_string (negsuc n) =
    of_decimal-minus _ n (read_from-digits (suc (suc n)) (suc n) (omega arith))

-- The text of a number is not empty.
map-snoc-cons :
    (xs : List ℕ) (d : ℕ) → (c : ℕ) × (cs : Text) × (map digit_char (xs ++ d ∷ []) ≡ c ∷ cs)
map-snoc-cons [] d = (digit_char d, [], refl)
map-snoc-cons (x ∷ xs) d = (digit_char x, map digit_char (xs ++ d ∷ []), refl)

pub to_string-cons : (a : ℤ) → (c : ℕ) × (cs : Text) × (to_string 10 a ≡ c ∷ cs)
unfolding to_string digits digits_on
to_string-cons (pos n) = elim (Bool-cases (ltb n 10)) [
  | inl low ↦ rw low (digit_char n, [], refl)
  | inr high ↦ rw high (map-snoc-cons (digits_on 10 n (n / 10)) (n % 10))
]
to_string-cons (negsuc n) = (b'-', map digit_char (digits 10 (suc n)), refl)
