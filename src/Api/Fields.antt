-- ===== src/Api/Fields.antt =====
-- The fields of a request's JSON body, and their validation. A number is a safe integer that is not
-- negative; an array or an object carries its text under `String`.
use bery_bc.Base.{
  ℕ, Bool, true, false, Option, none, some, [], ◌∷◌, length, replicate, ◌==◌, ◌&&◌, if◌then◌else◌,
  not,
}
use bery_bc.Base.Int.{pos}
use bery_bc.Bytes.{Text, hex_value, to_string}
use bery_bc.Bytes.Decimal.{digit_value}
use bery_bc.Storage.Blocks.{strip_0x}

-- A missing field and null are `absent`.
pub data Field : Type 0 where
  absent : Field
  text : Text → Field
  number : ℕ → Field
  flag : Bool → Field
  compound : Text → Field

-- What an answer with an error says.
pub data ApiError : Type 0 where
  address_required bad_address bad_amount : ApiError
  missing_from missing_signature bad_from bad_to bad_signature_text bad_signature : ApiError
  disabled unauthorized cooldown not_ready pool_refused not_found internal : ApiError

-- The HTTP status of an error.
unfoldable pub status : ApiError → ℕ
status disabled = 403
status unauthorized = 401
status cooldown = 429
status not_ready = 503
status not_found = 404
status internal = 500
status address_required = 400
status bad_address = 400
status bad_amount = 400
status missing_from = 400
status missing_signature = 400
status bad_from = 400
status bad_to = 400
status bad_signature_text = 400
status bad_signature = 400
status pool_refused = 400

pub data Reply (A : Type 0) : Type 0 where
  success : A → Reply A
  failure : ApiError → Reply A

abbrev is_some {ℓ} : {A : Type ℓ} → Option A → Bool
is_some none = false
is_some (some x) = true

unfoldable pub all_hex : Text → Bool
all_hex [] = true
all_hex (c ∷ cs) = is_some (hex_value c) && all_hex cs

unfoldable pub all_digits : Text → Bool
all_digits [] = true
all_digits (c ∷ cs) = is_some (digit_value c) && all_digits cs

-- `ADDRESS_REGEX.test`
unfoldable pub address_regex : Text → Bool
unfolding all_hex
address_regex cs = (length cs == 40) && all_hex cs

-- `HEX_REGEX.test`
unfoldable pub hex_regex : Text → Bool
unfolding all_hex
hex_regex [] = false
hex_regex (c ∷ cs) = all_hex (c ∷ cs)

-- `/^\d+$/.test`
unfoldable pub digits_regex : Text → Bool
unfolding all_digits
digits_regex [] = false
digits_regex (c ∷ cs) = all_digits (c ∷ cs)

-- `isValidAddress` of a text.
unfoldable pub is_valid_address : Text → Bool
unfolding address_regex
is_valid_address addr = address_regex (strip_0x addr)

-- '1000000000000000000'
abbrev pub default_amount : Text
default_amount = b'1' ∷ replicate 18 b'0'

-- What a validated faucet body is.
pub record FaucetBody : Type 0 where
  pub address : Text
  pub amount : Text

abbrev amount_of : Field → Option Text
amount_of absent = some default_amount
amount_of (text t) = if digits_regex t then some t else none
amount_of (number n) = none
amount_of (flag b) = none
amount_of (compound t) = none

abbrev with_amount : Text → Option Text → Reply FaucetBody
with_amount address none = failure bad_amount
with_amount address (some amount) = success (record { address = address; amount = amount })

unfoldable pub validate_faucet_body : Field → Field → Reply FaucetBody
unfolding address_regex digits_regex
validate_faucet_body (text []) amount = failure address_required
validate_faucet_body (text (a ∷ addr)) amount =
    if address_regex (strip_0x (a ∷ addr))
    then with_amount (strip_0x (a ∷ addr)) (amount_of amount)
    else failure bad_address
validate_faucet_body absent amount = failure address_required
validate_faucet_body (number n) amount = failure address_required
validate_faucet_body (flag b) amount = failure address_required
validate_faucet_body (compound t) amount = failure address_required

-- `body.to != null && body.to !== '' && !ADDRESS_REGEX.test(String(body.to)...)`, negated.
unfoldable pub to_accepted : Field → Bool
unfolding address_regex
to_accepted absent = true
to_accepted (text []) = true
to_accepted (text (x ∷ xs)) = address_regex (strip_0x (x ∷ xs))
to_accepted (number n) = address_regex (strip_0x (to_string 10 (pos n)))
to_accepted (flag true) = address_regex (b't' ∷ b'r' ∷ b'u' ∷ b'e' ∷ [])
to_accepted (flag false) = address_regex (b'f' ∷ b'a' ∷ b'l' ∷ b's' ∷ b'e' ∷ [])
to_accepted (compound t) = address_regex (strip_0x t)

-- A text that is neither missing nor empty.
abbrev pub given : Field → Option Text
given (text []) = none
given (text (c ∷ cs)) = some (c ∷ cs)
given absent = none
given (number n) = none
given (flag b) = none
given (compound t) = none

-- `validateTxBody` of the fields `from`, `to` and `signature`; `none` for no error.
unfoldable pub validate_tx_body : Field → Field → Field → Option ApiError
unfolding to_accepted address_regex hex_regex
validate_tx_body from to signature = elim (given from) [
  | none ↦ some missing_from
  | some f ↦ elim (given signature) [
    | none ↦ some missing_signature
    | some s ↦
        if not (address_regex (strip_0x f))
        then some bad_from
        else if not (to_accepted to)
        then some bad_to
        else if not (hex_regex (strip_0x s))
        then some bad_signature_text
        else none
  ]
]
