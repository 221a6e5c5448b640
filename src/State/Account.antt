-- ===== src/State/Account.antt =====
-- src/state/account.ts. Nonces and balances are bn.js numbers, that is, integers.
use mathlib.Core.List.{append_assoc}
use bery_bc.Base.{
  ℕ, ◌^◌, ◌<◌, ◌≡◌, ap, sym, ◌∙◌, Option, some, ◌++◌, length, take, drop, replicate, ltb, arith,
  if◌then◌else◌, length-append, take-append, drop-append, take_all,
}
use bery_bc.Base.Int.{ℤ, pos}
use bery_bc.Base.Throws.{◌>>=◌, some-inj}
use bery_bc.Bytes.{Bytes, to_be, of_be, to_array_like}
use bery_bc.Bytes.BigEndianLaws.{length-to_be, of_be-to_be, to_array_like-eq}

pub record Account : Type 0 where
  pub nonce : ℤ
  pub balance : ℤ
  pub storage_root : Bytes
  pub code_hash : Bytes

-- `Buffer.alloc(32)`
abbrev pub zero_hash : Bytes
zero_hash = replicate 32 0

-- `new Account()`
abbrev pub empty_account : Account
empty_account = record {
  nonce = pos 0;
  balance = pos 0;
  storage_root = zero_hash;
  code_hash = zero_hash;
}

unfoldable pub serialize : Account → Option Bytes
serialize a = do
  n ← to_array_like a.nonce 32
  b ← to_array_like a.balance 32
  some (n ++ (b ++ (a.storage_root ++ a.code_hash)))

unfoldable pub deserialize : Bytes → Account
deserialize buf = if ltb (length buf) 128 then empty_account else record {
  nonce = pos (of_be (take 32 buf));
  balance = pos (of_be (take 32 (drop 32 buf)));
  storage_root = take 32 (drop 64 buf);
  code_hash = take 32 (drop 96 buf);
}

-- Numbers that 32 bytes hold, and hashes of 32 bytes.
pub record IsStorable (a : Account) : Type 0 where
  pub nonce_value : ℕ
  pub nonce_nat : a.nonce ≡ pos nonce_value
  pub nonce_fits : nonce_value < 256 ^ 32
  pub balance_value : ℕ
  pub balance_nat : a.balance ≡ pos balance_value
  pub balance_fits : balance_value < 256 ^ 32
  pub root_length : length a.storage_root ≡ 32
  pub code_length : length a.code_hash ≡ 32

-- The four fields, of 32 bytes each.
module _ (n b r h : Bytes) (ln : length n ≡ 32) (lb : length b ≡ 32) (lr : length r ≡ 32)
    (lh : length h ≡ 32) where
  length_fields : length (n ++ (b ++ (r ++ h))) ≡ 128
  length_fields =
      omega (arith, length-append n (b ++ (r ++ h)), length-append b (r ++ h), length-append r h)

  drop_two : drop 64 (n ++ (b ++ (r ++ h))) ≡ r ++ h
  drop_two =
      rw (← append_assoc) (drop-append 64 (n ++ b) (r ++ h) (omega (arith, length-append n b)))

  drop_three : drop 96 (n ++ (b ++ (r ++ h))) ≡ h
  drop_three =
      rw (← append_assoc n b (r ++ h), ← append_assoc (n ++ b) r h)
        (drop-append 96 ((n ++ b) ++ r) h
          (omega (arith, length-append n b, length-append (n ++ b) r)))

  deserialize_fields :
      deserialize (n ++ (b ++ (r ++ h)))
      ≡ record { nonce = pos (of_be n); balance = pos (of_be b); storage_root = r; code_hash = h }
  unfolding deserialize
  deserialize_fields = rw (
    length_fields,
    take-append 32 n (b ++ (r ++ h)) ln,
    drop-append 32 n (b ++ (r ++ h)) ln,
    take-append 32 b (r ++ h) lb,
    drop_two,
    drop_three,
    take-append 32 r h lr,
    take_all 32 h (omega arith),
  )

-- An account that 32-byte fields hold is read back as it was written.
pub deserialize-serialize :
    (a : Account) → IsStorable a → (buf : Bytes) × (serialize a ≡ some buf) × (deserialize buf ≡ a)
unfolding serialize
deserialize-serialize a s = (
  to_be 32 s.nonce_value ++ (to_be 32 s.balance_value ++ (a.storage_root ++ a.code_hash)),
  rw (
    s.nonce_nat,
    s.balance_nat,
    to_array_like-eq 32 s.nonce_value s.nonce_fits,
    to_array_like-eq 32 s.balance_value s.balance_fits,
  ),
  deserialize_fields _ _ a.storage_root a.code_hash (length-to_be 32 _) (length-to_be 32 _)
        s.root_length s.code_length
      ∙ λ i. record {
        nonce = (ap pos (of_be-to_be 32 s.nonce_value s.nonce_fits) ∙ sym s.nonce_nat) i;
        balance = (ap pos (of_be-to_be 32 s.balance_value s.balance_fits) ∙ sym s.balance_nat) i;
        storage_root = a.storage_root;
        code_hash = a.code_hash;
      },
)

pub length-serialize :
    (a : Account) → IsStorable a → (buf : Bytes) → serialize a ≡ some buf → length buf ≡ 128
unfolding serialize
length-serialize a s buf e =
    let written =
      rw
        (
          s.nonce_nat,
          s.balance_nat,
          to_array_like-eq 32 s.nonce_value s.nonce_fits,
          to_array_like-eq 32 s.balance_value s.balance_fits,
        )
        at e in
    rw (← some-inj written) (
      length_fields _ _ a.storage_root a.code_hash (length-to_be 32 _) (length-to_be 32 _)
        s.root_length s.code_length)
