-- ===== src/Api/VerifyLaws.antt =====
-- A contract is registered for a bytecode only if it is the deployed one.
use bery_bc.Base.{
  ℕ, ◌≡◌, refl, sym, ap, Option, none, some, ◌++◌, length, same, same_iff, ◌==◌, not,
}
use bery_bc.Base.Throws.{by_test, by_option}
use bery_bc.State.Account.{zero_hash}
use bery_bc.Api.Fields.{is_valid_address}
use bery_bc.Bytes.{Bytes, Text, to_hex}
use bery_bc.Storage.Blocks.{strip_0x}
use bery_bc.Storage.Logs.{ox}
use bery_bc.State.Manager.{Trie, get_account, get_code}
use bery_bc.Api.Registry.{
  VerifiedContract, Registry, key_of, add_contract, VerifyBody, full_text, ContractReply,
  ContractError, registered, refused, not_deployed, not_loaded, bytecode_mismatch, registry_failed,
  bad_contract_address, name_required, source_required, abi_not_array, bytecode_error, after_add,
  verify_contract,
}

module _ (lower : Text → Text) (tr : Trie) where
  abbrev pub IsDeployed : Text → Text → tr.Db → Type 0
  IsDeployed address expected d =
      (code : Bytes) × (get_code tr d (get_account tr d address).code_hash ≡ some code)
      × (lower (to_hex code) ≡ lower (strip_0x expected))

  some_error : (e : ContractError) → some e ≡ none → ⊥
  some_error e h = cc

  bytecode_error-none :
      (address expected : Text) (d : tr.Db)
      → bytecode_error lower tr address (some expected) d ≡ none
      → IsDeployed address expected d
  unfolding bytecode_error
  bytecode_error-none address expected d =
      let hash = (get_account tr d address).code_hash in
      by_test (λ (o : Option ContractError). o ≡ none → IsDeployed address expected d)
        (same hash zero_hash) (λ e h. absurd (some_error not_deployed h))
        (λ e.
          by_option (λ (o : Option ContractError). o ≡ none → IsDeployed address expected d)
            (get_code tr d hash) (λ e h. absurd (some_error not_loaded h))
            (λ code loaded.
              by_test (λ (o : Option ContractError). o ≡ none → IsDeployed address expected d)
                (same (lower (to_hex code)) (lower (strip_0x expected)))
                (λ equal h. (
                  code,
                  loaded,
                  (same_iff (lower (to_hex code)) (lower (strip_0x expected))).0 equal,
                ))
                (λ e h. absurd (some_error bytecode_mismatch h))))

  -- An answer that is an error, or follows a test that the bytecode has passed.
  abbrev Checked : Text → Text → ℕ → tr.Db → ContractReply × Registry → Type 0
  Checked address expected now d x =
      (r : VerifiedContract)
      → x.0 ≡ registered r
      → IsDeployed address expected d × (r.verified_at ≡ now)

  refused-Checked :
      (address expected : Text) (now : ℕ) (d : tr.Db) (e : ContractError) (m : Registry)
      → Checked address expected now d (refused e, m)
  refused-Checked address expected now d e m r h = absurd (wrong h)
    where
      wrong : refused e ≡ registered r → ⊥
      wrong h = cc

  registered-inj : (c r : VerifiedContract) → registered c ≡ registered r → c ≡ r
  registered-inj c r h = cc

  after_add-Checked :
      (address expected : Text) (c : VerifiedContract) (d : tr.Db) (m : Registry)
      → IsDeployed address expected d
      → Checked address expected c.verified_at d (after_add lower tr (add_contract lower c m) m)
  unfolding add_contract
  after_add-Checked address expected c d m deployed =
      by_test (λ o. Checked address expected c.verified_at d (after_add lower tr o m))
        (length (key_of lower c.address) == 40)
        (λ e r h.
          (deployed, ap (λ (x : VerifiedContract). x.verified_at) (sym (registered-inj _ r h))))
        (λ e. refused-Checked address expected c.verified_at d registry_failed m)

  -- A request that names a bytecode and is answered with the contract that it registers has named, but for
  -- its prefix and its case, the code that is deployed at the address.
  pub verify_contract_checked :
      (body : VerifyBody) (now : ℕ) (d : tr.Db) (m m' : Registry) (r : VerifiedContract)
      (expected : Text)
      → full_text body.expected_bytecode ≡ some expected
      → verify_contract lower tr body now d m ≡ (registered r, m')
      → IsDeployed (strip_0x body.address) expected d × (r.verified_at ≡ now)
  unfolding verify_contract
  verify_contract_checked body now d m m' r expected named e =
      let address = strip_0x body.address in
      let no = refused-Checked address expected now d in
      by_test (Checked address expected now d) (not (is_valid_address address))
        (λ h. no bad_contract_address m)
        (λ h.
          by_option (Checked address expected now d) (full_text body.name) (λ h. no name_required m)
            (λ name h.
              by_option (Checked address expected now d) (full_text body.source)
                (λ h. no source_required m)
                (λ source h.
                  by_option (Checked address expected now d) body.abi (λ h. no abi_not_array m)
                    (λ abi h.
                      by_outcome address name source abi
                        (bytecode_error lower tr address (full_text body.expected_bytecode) d)
                        refl))))
        r (ap (λ x. x.0) e)
    where
      by_outcome :
          (address name source abi : Text) (o : Option ContractError)
          → bytecode_error lower tr address (full_text body.expected_bytecode) d ≡ o
          → Checked address expected now d (elim o [
            | some error ↦ (refused error, m)
            | none ↦
                after_add lower tr
                  (add_contract lower
                    (record {
                      address = ox ++ address;
                      name = name;
                      compiler_version = body.compiler_version;
                      source = source;
                      abi = abi;
                      verified_at = now;
                    })
                    m)
                  m
          ])
      by_outcome address name source abi (some error) h =
          refused-Checked address expected now d error m
      by_outcome address name source abi none h =
          after_add-Checked address expected _ d m
            (bytecode_error-none address expected d (rw (named) at h))
