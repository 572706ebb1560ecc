-- ===== src/Crypto/KeyVault/Sr25519.antt =====
-- fangorn/src/crypto/keyvault.rs: `Sr25519KeyVault`. The key scheme of sp-core is a parameter, and a
-- generated mnemonic is an argument.
use fangorn_rs.Prelude.{◌≡◌, Bool, true, false, Option, none, some, List}
use fangorn_rs.Rust.Outcome.{Outcome, ok, panic, unwrap, ok_or}
use fangorn_rs.Rust.Text.{Text, codes}
use fangorn_rs.Crypto.KeyVault.{
  Bytes, KeyVaultError, keystore, Vault, passwords, read_secret, store_secret, and_then,
}

-- `sp_core::sr25519`.
pub record Scheme : Type 1 where
  pub Pair : Type 0
  pub Public : Type 0
  pub Signature : Type 0
  -- the pair and its seed
  pub from_phrase : Text → Option (Pair × Bytes)
  pub from_seed_slice : Bytes → Option Pair
  pub public : Pair → Public
  pub sign : Pair → Bytes → Signature
  pub verify : Signature → Bytes → Public → Bool
  pub to_ss58check : Public → Text
  pub from_ss58check : Text → Option Public
  pub from_seed_slice-from_phrase :
      (phrase : Text) (pair : Pair) (seed : Bytes)
      → from_phrase phrase ≡ some (pair, seed)
      → from_seed_slice seed ≡ some pair
  pub verify-sign : (pair : Pair) (m : Bytes) → verify (sign pair m) m (public pair) ≡ true

pub record Sr25519KeyVault : Type 0 where
  pub key_name : Text
  pub key_password : Option Text
  pub vault_password : Option Text
  pub storing_passwords : Bool

abbrev pub new : Text → Sr25519KeyVault
new key_name = record {
  key_name = key_name;
  key_password = none;
  vault_password = none;
  storing_passwords = false;
}

abbrev pub new_store_info : Text → Text → Text → Sr25519KeyVault
new_store_info vault_password key_name key_password = record {
  key_name = key_name;
  key_password = some key_password;
  vault_password = some vault_password;
  storing_passwords = true;
}

module _ (vault : Vault) (scheme : Scheme) where
  abbrev pub to_ss58 : scheme.Public → Text
  to_ss58 public = scheme.to_ss58check public

  abbrev pub from_ss58 : Text → Outcome KeyVaultError scheme.Public
  from_ss58 address =
      ok_or (scheme.from_ss58check address) (keystore (codes "Invalid SS58 address"))

  -- Both branches, which differ in the passwords. The printed mnemonic is `phrase`.
  unfoldable pub generate_key_print_mnemonic :
      Text → Sr25519KeyVault → vault.State → Outcome KeyVaultError scheme.Public × vault.State
  unfolding passwords
  generate_key_print_mnemonic phrase s v = elim (scheme.from_phrase phrase) [
    | none ↦ (panic, v)
    | some (pair, seed) ↦
        store_secret vault s.key_name seed
          (passwords s.storing_passwords s.vault_password s.key_password) (scheme.public pair) v
  ]

  -- It asks for the passwords whether or not they are stored.
  unfoldable pub generate_key :
      Text → Sr25519KeyVault → vault.State → Outcome KeyVaultError scheme.Public × vault.State
  unfolding passwords
  generate_key phrase s v = elim (scheme.from_phrase phrase) [
    | none ↦ (panic, v)
    | some (pair, seed) ↦
        store_secret vault s.key_name seed (passwords false s.vault_password s.key_password)
          (scheme.public pair) v
  ]

  abbrev pub list_keys : vault.State → Outcome KeyVaultError (List Text)
  list_keys v = ok (vault.list v)

  abbrev pub has_key : Text → vault.State → Bool
  has_key key_name v = vault.contains v key_name

  -- The pair of the stored seed.
  abbrev pub read_pair :
      Sr25519KeyVault → vault.State → Outcome KeyVaultError scheme.Pair × vault.State
  read_pair s v =
      and_then
        (read_secret vault s.key_name
          (passwords s.storing_passwords s.vault_password s.key_password) v)
        (λ seed_bytes. unwrap (scheme.from_seed_slice seed_bytes))

  unfoldable pub get_public_key :
      Sr25519KeyVault → vault.State → Outcome KeyVaultError scheme.Public × vault.State
  unfolding passwords
  get_public_key s v = and_then (read_pair s v) (λ pair. ok (scheme.public pair))

  unfoldable pub sign :
      Bytes → Sr25519KeyVault → vault.State → Outcome KeyVaultError scheme.Signature × vault.State
  unfolding passwords
  sign message s v = and_then (read_pair s v) (λ pair. ok (scheme.sign pair message))

  abbrev pub verify : scheme.Public → Bytes → scheme.Signature → Bool
  verify public message signature = scheme.verify signature message public
