-- ===== src/Crypto/KeyVault/Iroh.antt =====
-- fangorn/src/crypto/keyvault.rs: `IrohKeyVault`. The keys of iroh are a parameter, and a generated key
-- is an argument.
use fangorn_rs.Prelude.{
  ℕ, ◌≡◌, Bool, true, false, Option, none, some, List, ◌++◌, take, replicate, length,
}
use fangorn_rs.Rust.Outcome.{Outcome, ok}
use fangorn_rs.Rust.Text.{Text, codes}
use fangorn_rs.Rust.Decimal.{show_ℕ}
use fangorn_rs.Crypto.KeyVault.{
  Bytes, KeyVaultError, Vault, passwords, read_secret, store_secret, and_then,
}

-- `iroh::SecretKey` and its public keys and signatures.
pub record IrohKeys : Type 1 where
  pub SecretKey : Type 0
  pub PublicKey : Type 0
  pub Signature : Type 0
  pub to_bytes : SecretKey → Bytes
  pub from_bytes : Bytes → SecretKey
  pub public : SecretKey → PublicKey
  pub sign : SecretKey → Bytes → Signature
  pub verify : PublicKey → Bytes → Signature → Bool
  pub length-to_bytes : (k : SecretKey) → length (to_bytes k) ≡ 32
  pub from_bytes-to_bytes : (k : SecretKey) → from_bytes (to_bytes k) ≡ k

pub record IrohKeyVault : Type 0 where
  pub key_name : Text
  pub key_password : Option Text
  pub vault_password : Option Text
  pub storing_passwords : Bool

-- `format!("iroh_key_idx_{}", index)`
abbrev pub iroh_key_name : ℕ → Text
iroh_key_name index = codes "iroh_key_idx_" ++ show_ℕ index

abbrev pub new : ℕ → IrohKeyVault
new index = record {
  key_name = iroh_key_name index;
  key_password = none;
  vault_password = none;
  storing_passwords = false;
}

abbrev pub new_store_info : Text → Text → ℕ → IrohKeyVault
new_store_info vault_password key_password index = record {
  key_name = iroh_key_name index;
  key_password = some key_password;
  vault_password = some vault_password;
  storing_passwords = true;
}

abbrev pub get_key_name : IrohKeyVault → Text
get_key_name s = s.key_name

-- `read` into 32 zero bytes: a shorter secret leaves zeros, a longer one is cut.
abbrev pub read_32 : Bytes → Bytes
read_32 secret = take 32 (secret ++ replicate 32 0)

module _ (vault : Vault) (keys : IrohKeys) where
  unfoldable pub get_secret_key :
      IrohKeyVault → vault.State → Outcome KeyVaultError keys.SecretKey × vault.State
  unfolding passwords
  get_secret_key s v =
      and_then
        (read_secret vault s.key_name
          (passwords s.storing_passwords s.vault_password s.key_password) v)
        (λ secret_key. ok (keys.from_bytes (read_32 secret_key)))

  -- `iroh_sk` is the generated key.
  unfoldable pub generate_key :
      keys.SecretKey
      → IrohKeyVault
      → vault.State
      → Outcome KeyVaultError keys.PublicKey × vault.State
  unfolding passwords
  generate_key iroh_sk s v =
      store_secret vault s.key_name (keys.to_bytes iroh_sk)
        (passwords s.storing_passwords s.vault_password s.key_password) (keys.public iroh_sk) v

  abbrev pub list_keys : vault.State → Outcome KeyVaultError (List Text)
  list_keys v = ok (vault.list v)

  abbrev pub has_key : Text → vault.State → Bool
  has_key key_name v = vault.contains v key_name

  unfoldable pub get_public_key :
      IrohKeyVault → vault.State → Outcome KeyVaultError keys.PublicKey × vault.State
  unfolding passwords
  get_public_key s v =
      and_then
        (read_secret vault s.key_name
          (passwords s.storing_passwords s.vault_password s.key_password) v)
        (λ secret_key. ok (keys.public (keys.from_bytes (read_32 secret_key))))

  unfoldable pub sign :
      Bytes → IrohKeyVault → vault.State → Outcome KeyVaultError keys.Signature × vault.State
  unfolding passwords
  sign message s v =
      and_then
        (read_secret vault s.key_name
          (passwords s.storing_passwords s.vault_password s.key_password) v)
        (λ secret_key. ok (keys.sign (keys.from_bytes (read_32 secret_key)) message))

  abbrev pub verify : keys.PublicKey → Bytes → keys.Signature → Bool
  verify public message signature = keys.verify public message signature
