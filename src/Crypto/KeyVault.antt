-- ===== src/Crypto/KeyVault.antt =====
-- What the three key vaults of fangorn/src/crypto/keyvault.rs share: their errors, how they come by
-- passwords, and how they use the crate rust_vault, which is a parameter. A lock is held by one call
-- at a time, so an operation takes the vault's state and returns the next one.
pub mod Sr25519
pub mod Iroh
pub mod Ste
pub mod Names
pub mod Stored
pub mod Missing
use fangorn_rs.Prelude.{
  ℕ, ◌≡◌, refl, Bool, true, false, Option, none, some, List, ◌==◌, ℕ-Eq, List-Eq, if◌then◌else◌,
}
use fangorn_rs.Rust.Outcome.{Outcome, ok, err, panic, unwrap, unwrap_result, ◌>>=◌}
use fangorn_rs.Rust.Text.{Text, codes}

abbrev pub Bytes : Type 0
Bytes = List ℕ

pub data KeyVaultError : Type 0 where
  keystore io secret_string : Text → KeyVaultError
  key_not_found invalid_signature : KeyVaultError

-- `rust_vault::Vault`: entries behind a password of the vault and one of the entry.
pub record Vault : Type 1 where
  pub State : Type 0
  -- `get(name, vault_password, key_password)`, which may change the state
  pub get : State → Text → Text → Text → Option Bytes × State
  -- `store_bytes(name, bytes, vault_password, key_password)`
  pub store_bytes : State → Text → Bytes → Text → Text → Option State
  pub contains : State → Text → Bool
  pub list : State → List Text
  pub get-store_bytes :
      (v v' : State) (name : Text) (bytes : Bytes) (p q : Text)
      → store_bytes v name bytes p q ≡ some v'
      → (get v' name p q).0 ≡ some bytes
  pub get-store_bytes_other :
      (v v' : State) (name : Text) (bytes : Bytes) (p q : Text) (other r s : Text)
      → store_bytes v name bytes p q ≡ some v'
      → (other == name) ≡ false
      → (get v' other r s).0 ≡ (get v other r s).0
  -- Reading changes nothing that is read.
  pub get-get :
      (v : State) (name p q other r s : Text)
      → (get (get v name p q).1 other r s).0 ≡ (get v other r s).0

-- The same function in the three vaults.
unfoldable pub get_secure_password : Text → Outcome KeyVaultError Text
get_secure_password password_name = err (keystore (codes "This function is not yet implemented"))

-- The two passwords that the two branches on `storing_passwords` use, the vault's first.
unfoldable pub passwords : Bool → Option Text → Option Text → Outcome KeyVaultError (Text × Text)
unfolding get_secure_password
passwords storing_passwords vault_password key_password =
    if storing_passwords
    then (do
      vault_password ← unwrap vault_password
      key_password ← unwrap key_password
      ok (vault_password, key_password))
    else (do
      vault_password ← unwrap_result (get_secure_password (codes "vault_password"))
      file_password ← unwrap_result (get_secure_password (codes "file_password"))
      ok (vault_password, file_password))

module _ (vault : Vault) where
  -- `self.vault.write().unwrap().get(..).unwrap()`
  abbrev pub read_secret :
      Text
      → Outcome KeyVaultError (Text × Text)
      → vault.State
      → Outcome KeyVaultError Bytes × vault.State
  read_secret key_name (ok (p, q)) v =
      let found = vault.get v key_name p q in (unwrap found.0, found.1)
  read_secret key_name (err e) v = (err e, v)
  read_secret key_name panic v = (panic, v)

  abbrev pub stored_or_panic :
      {A : Type 0} → A → vault.State → Option vault.State → Outcome KeyVaultError A × vault.State
  stored_or_panic a v none = (panic, v)
  stored_or_panic a v (some v') = (ok a, v')

  -- `self.vault.write().unwrap().store_bytes(..).unwrap(); Ok(a)`
  abbrev pub store_secret :
      {A : Type 0}
      → Text
      → Bytes
      → Outcome KeyVaultError (Text × Text)
      → A
      → vault.State
      → Outcome KeyVaultError A × vault.State
  store_secret key_name bytes (ok (p, q)) a v =
      stored_or_panic a v (vault.store_bytes v key_name bytes p q)
  store_secret key_name bytes (err e) a v = (err e, v)
  store_secret key_name bytes panic a v = (panic, v)

-- What is made of a secret that was read.
abbrev pub and_then :
    {V A B : Type 0}
    → Outcome KeyVaultError A × V
    → (A → Outcome KeyVaultError B)
    → Outcome KeyVaultError B × V
and_then (m, v) f = (m >>= f, v)
