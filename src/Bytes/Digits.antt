-- ===== src/Bytes/Digits.antt =====
-- The digits of a number in a base, the highest first, and bn.js's `toString`.
use bery_bc.Base.{
  ℕ, zero, suc, ◌+◌, ◌-◌, ◌*◌, ◌/◌, ◌%◌, List, [], ◌∷◌, ◌++◌, map, length, replicate, ltb,
  if◌then◌else◌,
}
use bery_bc.Base.Int.{ℤ, pos, negsuc}
use bery_bc.Bytes.Hex.{Text, digit_char}

-- With fuel above the number the digits are complete.
unfoldable pub digits_on : ℕ → ℕ → ℕ → List ℕ
digits_on base zero n = []
digits_on base (suc fuel) n =
    let higher = digits_on base fuel (n / base) in
    if ltb n base then n ∷ [] else higher ++ (n % base) ∷ []

unfoldable pub digits : ℕ → ℕ → List ℕ
unfolding digits_on
digits base n = digits_on base (suc n) n

-- `n.toString(base)`, with no padding.
unfoldable pub to_string : ℕ → ℤ → Text
unfolding digits digit_char
to_string base (pos n) = map digit_char (digits base n)
to_string base (negsuc n) = b'-' ∷ map digit_char (digits base (suc n))

unfoldable pub of_digits_from : ℕ → ℕ → List ℕ → ℕ
of_digits_from base acc [] = acc
of_digits_from base acc (d ∷ ds) = of_digits_from base (acc * base + d) ds

-- `text.padStart(width, '0')`
unfoldable pub pad_start : ℕ → Text → Text
pad_start width text = replicate (width - length text) b'0' ++ text
