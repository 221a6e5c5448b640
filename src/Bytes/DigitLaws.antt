-- ===== src/Bytes/DigitLaws.antt =====
-- The value of the digits, and what is left of a number whose digits are read as bytes.
use bery_bc.Base.{
  ℕ, zero, suc, ◌+◌, ◌*◌, ◌/◌, ◌%◌, ◌<◌, ◌≡◌, refl, List, [], ◌∷◌, ◌++◌, map, arith, length, inl,
  inr, Bool-cases, ltb, ltb→lt, if◌then◌else◌, ◌==◌,
}
use bery_bc.Base.Int.{pos}
use bery_bc.Bytes.Hex.{digit_char, from_hex}
use bery_bc.Bytes.BigEndian.{of_be, of_be_from}
use bery_bc.Bytes.Digits.{digits, digits_on, of_digits_from, to_string}
use bery_bc.Bytes.HexLaws.{hex_value-digit_char}

abbrev pub AllBelow : ℕ → List ℕ → Type 0
AllBelow base [] = Unit {0}
AllBelow base (d ∷ ds) = (d < base) × AllBelow base ds

AllBelow-snoc :
    (base : ℕ) (ds : List ℕ) (d : ℕ) → AllBelow base ds → d < base → AllBelow base (ds ++ d ∷ [])
AllBelow-snoc base [] d h k = (k, tt)
AllBelow-snoc base (x ∷ ds) d h k = (h.0, AllBelow-snoc base ds d h.1 k)

pub digits_on-AllBelow : (fuel n : ℕ) → AllBelow 16 (digits_on 16 fuel n)
unfolding digits_on
digits_on-AllBelow zero n = tt
digits_on-AllBelow (suc fuel) n = elim (Bool-cases (ltb n 16)) [
  | inl low ↦ rw low (omega (arith, ltb→lt n 16 low))
  | inr high ↦ rw high (
      AllBelow-snoc 16 (digits_on 16 fuel (n / 16)) (n % 16) (digits_on-AllBelow fuel (n / 16))
        (omega arith))
]

of_digits_from-snoc :
    (base acc : ℕ) (ds : List ℕ) (d : ℕ)
    → of_digits_from base acc (ds ++ d ∷ []) ≡ of_digits_from base acc ds * base + d
unfolding of_digits_from
of_digits_from-snoc base acc [] d = refl
of_digits_from-snoc base acc (x ∷ ds) d = of_digits_from-snoc base (acc * base + x) ds d

-- The fuel of `digits` is enough.
pub of_digits-digits_on : (fuel n : ℕ) → n < fuel → of_digits_from 16 0 (digits_on 16 fuel n) ≡ n
unfolding digits_on of_digits_from
of_digits-digits_on zero n h = elim h [ ]
of_digits-digits_on (suc fuel) n h = elim (Bool-cases (ltb n 16)) [
  | inl low ↦ rw low (omega arith)
  | inr high ↦
      rw (high, of_digits_from-snoc 16 0 (digits_on 16 fuel (n / 16)) (n % 16))
        (omega (arith, of_digits-digits_on fuel (n / 16) (ground arith)))
]

-- Hexadecimal digits read as bytes: a digit that is left over is dropped.
of_be-from_hex-digits :
    (acc : ℕ) (ds : List ℕ)
    → AllBelow 16 ds
    → of_be_from acc (from_hex (map digit_char ds))
      ≡ (if length ds % 2 == 0 then of_digits_from 16 acc ds else of_digits_from 16 acc ds / 16)
unfolding of_be_from from_hex of_digits_from
of_be-from_hex-digits acc [] h = refl
of_be-from_hex-digits acc (x ∷ []) h = omega arith
of_be-from_hex-digits acc (x ∷ y ∷ ds) h =
    rw (hex_value-digit_char x h.0, hex_value-digit_char y h.1.0)
      (ground (arith, of_be-from_hex-digits (acc * 256 + (16 * x + y)) ds h.1.1))

-- `Buffer.from(n.toString('hex'), 'hex')` read back as a number: right for an even number of
-- digits, and a sixteenth of the number for an odd one.
pub of_be-from_hex-to_string :
    (n : ℕ)
    → of_be (from_hex (to_string 16 (pos n)))
      ≡ (if length (digits 16 n) % 2 == 0 then n else n / 16)
unfolding of_be to_string digits
of_be-from_hex-to_string n = rw (
  of_be-from_hex-digits 0 (digits_on 16 (suc n) n) (digits_on-AllBelow (suc n) n),
  of_digits-digits_on (suc n) n (omega arith),
)
