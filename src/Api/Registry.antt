-- ===== src/Api/Registry.antt =====
-- src/api/contract_registry.ts, and the routes for verified contracts of src/api/index.ts. The clock, the
-- file and `toLowerCase` are arguments; an ABI is its JSON text.
use bery_bc.Base.{
  ℕ, ◌-◌, Option, none, some, List, [], ◌∷◌, ◌++◌, map, length, drop, same, not, ◌==◌,
  if◌then◌else◌,
}
use bery_bc.Base.TextMap.{TextMap, lookup, insert}
use bery_bc.Bytes.{Text, to_hex}
use bery_bc.State.Account.{zero_hash}
use bery_bc.State.Manager.{Trie, get_account, get_code}
use bery_bc.Storage.Blocks.{strip_0x}
use bery_bc.Storage.Logs.{ox}
use bery_bc.Api.Fields.{Field, text, absent, number, flag, compound, is_valid_address}

pub record VerifiedContract : Type 0 where
  pub address : Text
  pub name : Text
  pub compiler_version : Option Text
  pub source : Text
  pub abi : Text
  pub verified_at : ℕ

abbrev pub Registry : Type 0
Registry = TextMap VerifiedContract

-- The list that `save` writes.
unfoldable pub saved : Registry → List VerifiedContract
saved m = map (λ e. e.1) m

-- `list`
unfoldable pub list_contracts : ℕ → Registry → List VerifiedContract
unfolding saved
list_contracts limit m = drop (length (saved m) - limit) (saved m)

module _ (lower : Text → Text) where
  -- `address.replace(/^0x/, '').toLowerCase()`
  unfoldable pub key_of : Text → Text
  key_of address = lower (strip_0x address)

  -- The loop of `loadSync`, over the contracts of the file.
  unfoldable pub load : List VerifiedContract → Registry → Registry
  unfolding key_of
  load [] m = m
  load (c ∷ cs) m =
      load cs (if length (key_of c.address) == 40 then insert (key_of c.address) c m else m)

  -- `add`, with what it answers; `none` where it throws.
  unfoldable pub add_contract : VerifiedContract → Registry → Option (VerifiedContract × Registry)
  unfolding key_of
  add_contract c m =
      if length (key_of c.address) == 40
      then some (
        record c { address = ox ++ key_of c.address },
        insert (key_of c.address) (record c { address = ox ++ key_of c.address }) m,
      )
      else none

  unfoldable pub get_contract : Text → Registry → Option VerifiedContract
  unfolding key_of
  get_contract address m = lookup (key_of address) m

-- The body of `POST /v1/contracts/verify`. The address is a text, the empty one where it is missing; an ABI
-- that is no array is missing.
pub record VerifyBody : Type 0 where
  pub address : Text
  pub name : Field
  pub compiler_version : Option Text
  pub source : Field
  pub abi : Option Text
  pub expected_bytecode : Field

pub data ContractError : Type 0 where
  bad_contract_address name_required source_required abi_not_array : ContractError
  not_deployed not_loaded bytecode_mismatch registry_failed : ContractError

pub data ContractReply : Type 0 where
  registered : VerifiedContract → ContractReply
  refused : ContractError → ContractReply

-- A text that is not empty.
abbrev pub full_text : Field → Option Text
full_text absent = none
full_text (text []) = none
full_text (text (x ∷ xs)) = some (x ∷ xs)
full_text (number n) = none
full_text (flag b) = none
full_text (compound t) = none

module _ (lower : Text → Text) (tr : Trie) where
  -- The test against the code at the address, with its error; nothing is tested where no bytecode is given.
  unfoldable pub bytecode_error : Text → Option Text → tr.Db → Option ContractError
  bytecode_error address none d = none
  bytecode_error address (some expected) d =
      let a = get_account tr d address in
      if same a.code_hash zero_hash then some not_deployed else elim (get_code tr d a.code_hash) [
        | none ↦ some not_loaded
        | some code ↦
            if same (lower (to_hex code)) (lower (strip_0x expected))
            then none
            else some bytecode_mismatch
      ]

  abbrev pub after_add : Option (VerifiedContract × Registry) → Registry → ContractReply × Registry
  after_add none m = (refused registry_failed, m)
  after_add (some (c, m')) m = (registered c, m')

  unfoldable pub verify_contract : VerifyBody → ℕ → tr.Db → Registry → ContractReply × Registry
  unfolding bytecode_error add_contract
  verify_contract body now d m =
      let address = strip_0x body.address in
      if not (is_valid_address address)
      then (refused bad_contract_address, m)
      else elim (full_text body.name) [
        | none ↦ (refused name_required, m)
        | some name ↦ elim (full_text body.source) [
          | none ↦ (refused source_required, m)
          | some source ↦ elim body.abi [
            | none ↦ (refused abi_not_array, m)
            | some abi ↦ elim (bytecode_error address (full_text body.expected_bytecode) d) [
              | some error ↦ (refused error, m)
              | none ↦
                  after_add
                    (add_contract lower
                      (record {
                        address = ox ++ address;
                        name = name;
                        compiler_version = body.compiler_version;
                        source = source;
                        abi = abi;
                        verified_at = now;
                      })
                      m)
                    m
            ]
          ]
        ]
      ]
