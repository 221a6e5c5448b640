-- ===== src/Bytes/ParseHex.antt =====
-- `parseInt(text, 16)` of JavaScript, after the prefix 0x.
use bery_bc.Base.{
  ℕ, suc, ◌+◌, ◌*◌, ◌/◌, ◌%◌, ◌≡◌, refl, ◌∙◌, ap, Option, none, some, List, [], ◌∷◌, ◌++◌, map, ltb,
  inl, inr, Bool-cases, arith,
}
use bery_bc.Base.Int.{pos}
use bery_bc.Bytes.Hex.{Text, digit_char, hex_value}
use bery_bc.Bytes.HexLaws.{hex_value-digit_char}
use bery_bc.Bytes.Digits.{digits, digits_on, of_digits_from, to_string}
use bery_bc.Bytes.DigitLaws.{AllBelow, of_digits-digits_on, digits_on-AllBelow}

abbrev value_or_zero : Option ℕ → ℕ
value_or_zero none = 0
value_or_zero (some n) = n

-- The leading digits; NaN, that is, `none`, where there is none.
unfoldable pub parse_hex_from : Option ℕ → Text → Option ℕ
parse_hex_from acc [] = acc
parse_hex_from acc (c ∷ cs) = elim (hex_value c) [
  | none ↦ acc
  | some d ↦ parse_hex_from (some (value_or_zero acc * 16 + d)) cs
]

unfoldable pub parse_hex : Text → Option ℕ
parse_hex text = parse_hex_from none text

parse_hex_from-digits :
    (acc : ℕ) (ds : List ℕ)
    → AllBelow 16 ds
    → parse_hex_from (some acc) (map digit_char ds) ≡ some (of_digits_from 16 acc ds)
unfolding parse_hex_from of_digits_from
parse_hex_from-digits acc [] h = refl
parse_hex_from-digits acc (d ∷ ds) h =
    rw (parse_hex_from, hex_value-digit_char d h.0) (parse_hex_from-digits (acc * 16 + d) ds h.1)

parse_hex-digits :
    (d : ℕ) (ds : List ℕ)
    → AllBelow 16 (d ∷ ds)
    → parse_hex (map digit_char (d ∷ ds)) ≡ some (of_digits_from 16 0 (d ∷ ds))
unfolding parse_hex parse_hex_from of_digits_from
parse_hex-digits d ds h =
    rw (parse_hex, parse_hex_from, hex_value-digit_char d h.0)
      (parse_hex_from-digits (0 * 16 + d) ds h.1)

digits_on-cons : (fuel n : ℕ) → (d : ℕ) × (ds : List ℕ) × (digits_on 16 (suc fuel) n ≡ d ∷ ds)
unfolding digits_on
digits_on-cons fuel n = elim (Bool-cases (ltb n 16)) [
  | inl low ↦ rw low (n, [], refl)
  | inr high ↦ rw high (snoc-cons (digits_on 16 fuel (n / 16)) (n % 16))
]
  where
    snoc-cons : (xs : List ℕ) (y : ℕ) → (d : ℕ) × (ds : List ℕ) × (xs ++ y ∷ [] ≡ d ∷ ds)
    snoc-cons [] y = (y, [], refl)
    snoc-cons (x ∷ xs) y = (x, xs ++ y ∷ [], refl)

-- A number written in hexadecimal is read back.
pub parse_hex-to_string : (n : ℕ) → parse_hex (to_string 16 (pos n)) ≡ some n
unfolding to_string digits
parse_hex-to_string n =
    let (d, ds, e) = digits_on-cons n n in
    rw (e) (
      parse_hex-digits d ds (rw (e) at (digits_on-AllBelow (suc n) n))
      ∙ ap some (rw (e) at (of_digits-digits_on (suc n) n (omega arith))))
