-- ===== src/Crypto/KeyVault/Missing.antt =====
-- A vault of fangorn/src/crypto/keyvault.rs without its passwords: every operation panics.
use fangorn_rs.Prelude.{ℕ, ◌≡◌, refl, Option-cases, inl, inr}
use fangorn_rs.Rust.Outcome.{panic}
use fangorn_rs.Rust.Text.{Text}
use fangorn_rs.Crypto.KeyVault.{Bytes, Vault, passwords, get_secure_password}
use fangorn_rs.Crypto.KeyVault.Sr25519
use fangorn_rs.Crypto.KeyVault.Sr25519.{Scheme, Sr25519KeyVault}
use fangorn_rs.Crypto.KeyVault.Iroh
use fangorn_rs.Crypto.KeyVault.Iroh.{IrohKeys}
use fangorn_rs.Crypto.KeyVault.Ste
use fangorn_rs.Crypto.KeyVault.Ste.{SteKeys}

module _ (vault : Vault) where
  -- A vault of either kind of node key that was made without passwords panics whenever a key is
  -- generated or read, and the stored keys stay as they are.
  pub new-panics :
      (keys : IrohKeys) (ste : SteKeys) (i : ℕ) (sk : keys.SecretKey) (message : Bytes)
      → (rng : ste.Random) (crs : ste.Crs) (ciphertext : ste.Ciphertext) (v : vault.State)
      → (Iroh.generate_key vault keys sk (Iroh.new i) v ≡ (panic, v))
        × (Iroh.get_secret_key vault keys (Iroh.new i) v ≡ (panic, v))
        × (Iroh.get_public_key vault keys (Iroh.new i) v ≡ (panic, v))
        × (Iroh.sign vault keys message (Iroh.new i) v ≡ (panic, v))
        × (Ste.generate_key vault ste rng (Ste.new i) v ≡ (panic, v))
        × (Ste.get_pk vault ste crs (Ste.new i) v ≡ (panic, v))
        × (Ste.partial_decryption vault ste ciphertext (Ste.new i) v ≡ (panic, v))
  unfolding Iroh.generate_key Iroh.get_secret_key Iroh.get_public_key Iroh.sign Ste.generate_key
      Ste.get_pk Ste.partial_decryption passwords get_secure_password
  new-panics keys ste i sk message rng crs ciphertext v = (refl, refl, refl, refl, refl, refl, refl)

  -- `generate_key` of an sr25519 vault panics and stores nothing, even where the vault has its
  -- passwords.
  pub generate_key-panics :
      (scheme : Scheme) (phrase : Text) (s : Sr25519KeyVault) (v : vault.State)
      → Sr25519.generate_key vault scheme phrase s v ≡ (panic, v)
  unfolding Sr25519.generate_key passwords get_secure_password
  generate_key-panics scheme phrase s v = elim (Option-cases (scheme.from_phrase phrase)) [
    | inl e ↦ rw (Sr25519.generate_key, e) refl
    | inr (pair, e) ↦ rw (Sr25519.generate_key, e) refl
  ]
