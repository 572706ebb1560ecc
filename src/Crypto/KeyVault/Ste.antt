-- ===== src/Crypto/KeyVault/Ste.antt =====
-- fangorn/src/crypto/keyvault.rs: `SteKeyVault`. The silent threshold encryption is a parameter, and
-- the randomness of a generated key is an argument.
use fangorn_rs.Prelude.{ℕ, ◌≡◌, Bool, true, false, Option, none, some, ◌++◌}
use fangorn_rs.Rust.Outcome.{Outcome, ok, unwrap}
use fangorn_rs.Rust.Text.{Text, codes}
use fangorn_rs.Rust.Decimal.{show_ℕ}
use fangorn_rs.Crypto.KeyVault.{
  Bytes, KeyVaultError, Vault, passwords, read_secret, store_secret, and_then,
}

-- Keys of `silent_threshold_encryption::setup`, with their compressed serialization.
pub record SteKeys : Type 1 where
  pub Random : Type 0
  pub SecretKey : Type 0
  pub Crs : Type 0
  pub PublicKey : Type 0
  pub Ciphertext : Type 0
  pub PartialDecryption : Type 0
  -- `SecretKey::new(rng, index)`
  pub new : Random → ℕ → SecretKey
  pub serialize : SecretKey → Bytes
  pub deserialize : Bytes → Option SecretKey
  pub get_pk : SecretKey → Crs → PublicKey
  pub partial_decryption : SecretKey → Ciphertext → PartialDecryption
  pub deserialize-serialize : (k : SecretKey) → deserialize (serialize k) ≡ some k

pub record SteKeyVault : Type 0 where
  pub key_name : Text
  pub key_password : Option Text
  pub vault_password : Option Text
  pub storing_passwords : Bool
  pub index : ℕ

-- `format!("ste_key_idx_{}", index)`
abbrev pub ste_key_name : ℕ → Text
ste_key_name index = codes "ste_key_idx_" ++ show_ℕ index

abbrev pub new : ℕ → SteKeyVault
new index = record {
  key_name = ste_key_name index;
  key_password = none;
  vault_password = none;
  storing_passwords = false;
  index = index;
}

abbrev pub new_store_info : Text → Text → ℕ → SteKeyVault
new_store_info vault_password key_password index = record {
  key_name = ste_key_name index;
  key_password = some key_password;
  vault_password = some vault_password;
  storing_passwords = true;
  index = index;
}

abbrev pub get_key_name : SteKeyVault → Text
get_key_name s = s.key_name

module _ (vault : Vault) (keys : SteKeys) where
  unfoldable pub generate_key :
      keys.Random → SteKeyVault → vault.State → Outcome KeyVaultError (Unit {0}) × vault.State
  unfolding passwords
  generate_key rng s v =
      store_secret vault s.key_name (keys.serialize (keys.new rng s.index))
        (passwords s.storing_passwords s.vault_password s.key_password) tt v

  abbrev pub read_key :
      SteKeyVault → vault.State → Outcome KeyVaultError keys.SecretKey × vault.State
  read_key s v =
      and_then
        (read_secret vault s.key_name
          (passwords s.storing_passwords s.vault_password s.key_password) v)
        (λ sk_bytes. unwrap (keys.deserialize sk_bytes))

  unfoldable pub get_pk :
      keys.Crs → SteKeyVault → vault.State → Outcome KeyVaultError keys.PublicKey × vault.State
  unfolding passwords
  get_pk crs s v = and_then (read_key s v) (λ sk. ok (keys.get_pk sk crs))

  unfoldable pub partial_decryption :
      keys.Ciphertext
      → SteKeyVault
      → vault.State
      → Outcome KeyVaultError keys.PartialDecryption × vault.State
  unfolding passwords
  partial_decryption ciphertext s v =
      and_then (read_key s v) (λ sk. ok (keys.partial_decryption sk ciphertext))
