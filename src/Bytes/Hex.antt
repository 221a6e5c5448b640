-- ===== src/Bytes/Hex.antt =====
-- Hexadecimal text and bytes, as Node's `Buffer` converts them.
use bery_bc.Base.{
  ℕ, ◌+◌, ◌-◌, ◌*◌, ◌/◌, ◌%◌, Option, none, some, List, [], ◌∷◌, ◌&&◌, ltb, leb, if◌then◌else◌,
}

abbrev pub Bytes : Type 0
Bytes = List ℕ

abbrev pub Text : Type 0
Text = List ℕ

-- The lower-case digit of a number below 36.
unfoldable pub digit_char : ℕ → ℕ
digit_char d = if ltb d 10 then 48 + d else 87 + d

-- The value of a hexadecimal digit of either case.
unfoldable pub hex_value : ℕ → Option ℕ
hex_value c =
    if leb 48 c && leb c 57
    then some (c - 48)
    else if leb 97 c && leb c 102
    then some (c - 87)
    else if leb 65 c && leb c 70
    then some (c - 55)
    else none

-- `buffer.toString('hex')`
unfoldable pub to_hex : Bytes → Text
unfolding digit_char
to_hex [] = []
to_hex (b ∷ bs) = digit_char (b / 16) ∷ digit_char (b % 16) ∷ to_hex bs

abbrev hex_pair : Option ℕ → Option ℕ → Bytes → Bytes
hex_pair none y rest = []
hex_pair (some x) none rest = []
hex_pair (some x) (some y) rest = (16 * x + y) ∷ rest

-- `Buffer.from(text, 'hex')` stops at the first pair that is not two digits, and drops an odd one.
unfoldable pub from_hex : Text → Bytes
unfolding hex_value
from_hex [] = []
from_hex (c ∷ []) = []
from_hex (c ∷ d ∷ cs) = hex_pair (hex_value c) (hex_value d) (from_hex cs)
