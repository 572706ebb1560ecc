-- ===== src/Node.antt =====
-- fangorn/src/node/node.rs: how a node comes by its keys. The two key vaults work on one vault.
pub mod Build
pub mod Channel
pub mod Examples
use fangorn_rs.Prelude.{
  sym, ap, ◌∙◌, ℕ, ◌≡◌, refl, Option, none, some, Option-cases, inl, inr, arith,
}
use fangorn_rs.Rust.Outcome.{Outcome, ok, err, panic, unwrap, ◌>>=◌, >>=-eq-ok}
use fangorn_rs.Rust.Text.{Text, codes}
use fangorn_rs.Types.{VaultConfig}
use fangorn_rs.Crypto.KeyVault.{KeyVaultError, Vault, get_secure_password, passwords}
use fangorn_rs.Crypto.KeyVault.Stored.{generate_both}
use fangorn_rs.Crypto.KeyVault.Iroh
use fangorn_rs.Crypto.KeyVault.Iroh.{IrohKeys, IrohKeyVault}
use fangorn_rs.Crypto.KeyVault.Ste
use fangorn_rs.Crypto.KeyVault.Ste.{SteKeys, SteKeyVault}

-- `open_or_create(dir, password)` is a parameter.
module _ (vault : Vault) (open_or_create : Text → Text → Option vault.State) where
  -- The vaults hold their passwords if the config has a vault password; the others are then expected.
  unfoldable pub create_vaults :
      VaultConfig → ℕ → Outcome KeyVaultError (vault.State × IrohKeyVault × SteKeyVault)
  create_vaults config index = elim config.vault_pswd [
    | some vault_pass ↦ (do
      v ← unwrap (open_or_create config.vault_dir vault_pass)
      iroh_password ← unwrap config.iroh_key_pswd
      ste_password ← unwrap config.ste_key_pswd
      ok (
        v,
        Iroh.new_store_info vault_pass iroh_password index,
        Ste.new_store_info vault_pass ste_password index,
      ))
    | none ↦ (do
      v ← unwrap (open_or_create (codes "tmp/keystore") (codes "vault_password"))
      ok (v, Iroh.new index, Ste.new index))
  ]

  module _ (keys : IrohKeys) (ste : SteKeys) (sk : keys.SecretKey) (rng : ste.Random) where
    abbrev pub finished :
        IrohKeyVault
        → SteKeyVault
        → Outcome KeyVaultError (Unit {0}) × vault.State
        → Outcome KeyVaultError (vault.State × IrohKeyVault × SteKeyVault)
    finished iroh s (ok done, v) = ok (v, iroh, s)
    finished iroh s (err e, v) = panic
    finished iroh s (panic, v) = panic

    -- `iroh_vault.generate_key().unwrap(); ste_vault.generate_key().unwrap();`
    abbrev pub generated :
        IrohKeyVault
        → SteKeyVault
        → Outcome KeyVaultError keys.PublicKey × vault.State
        → Outcome KeyVaultError (vault.State × IrohKeyVault × SteKeyVault)
    generated iroh s (err e, v) = panic
    generated iroh s (panic, v) = panic
    generated iroh s (ok pk, v) = finished iroh s (Ste.generate_key vault ste rng s v)

    -- The part of `build` that makes the keys.
    unfoldable pub build_keys :
        VaultConfig → ℕ → Outcome KeyVaultError (vault.State × IrohKeyVault × SteKeyVault)
    unfolding create_vaults
    build_keys config index = do
      made ← create_vaults config index
      generated made.1 made.2 (Iroh.generate_key vault keys sk made.1 made.0)

    generated-new-panics :
        (index : ℕ) (v : vault.State)
        → generated
            (Iroh.new index)
            (Ste.new index)
            (Iroh.generate_key vault keys sk (Iroh.new index) v)
          ≡ panic
    unfolding Iroh.generate_key passwords get_secure_password
    generated-new-panics index v = refl

    -- A node that is started without a vault password does not come up: making its keys panics.
    pub build_keys-no_password :
        (config : VaultConfig) (index : ℕ)
        → config.vault_pswd ≡ none
        → build_keys config index ≡ panic
    unfolding build_keys
    build_keys-no_password config index missing =
        elim (Option-cases (open_or_create (codes "tmp/keystore") (codes "vault_password"))) [
          | inl e ↦ rw (create_vaults, missing, e) refl
          | inr (v, e) ↦ rw (create_vaults, missing, e) (generated-new-panics index v)
        ]

    second-eq-ok :
        (iroh iroh' : IrohKeyVault) (s s' : SteKeyVault) (v' : vault.State)
        → (out : Outcome KeyVaultError (Unit {0}) × vault.State)
        → finished iroh s out ≡ ok (v', iroh', s')
        → (out ≡ (ok tt, v')) × (iroh ≡ iroh') × (s ≡ s')
    second-eq-ok iroh iroh' s s' v' (ok done, mid) h =
        (ground (arith, h), ground (arith, h), ground (arith, h))
    second-eq-ok iroh iroh' s s' v' (err e, mid) h = absurd (cc h)
    second-eq-ok iroh iroh' s s' v' (panic, mid) h = absurd (cc h)

    generated-eq-ok :
        (iroh iroh' : IrohKeyVault) (s s' : SteKeyVault) (v' : vault.State)
        → (out : Outcome KeyVaultError keys.PublicKey × vault.State)
        → generated iroh s out ≡ ok (v', iroh', s')
        → (pk : keys.PublicKey) × (out.0 ≡ ok pk)
          × (Ste.generate_key vault ste rng s out.1 ≡ (ok tt, v'))
          × (iroh ≡ iroh')
          × (s ≡ s')
    generated-eq-ok iroh iroh' s s' v' (err e, mid) h = absurd (cc h)
    generated-eq-ok iroh iroh' s s' v' (panic, mid) h = absurd (cc h)
    generated-eq-ok iroh iroh' s s' v' (ok pk, mid) h =
        let made = second-eq-ok iroh iroh' s s' v' (Ste.generate_key vault ste rng s mid) h in
        (pk, refl, made.0, made.1, made.2)

    stored-eq-ok :
        (config : VaultConfig) (index : ℕ) (p : Text) (v : vault.State) (iroh : IrohKeyVault)
        → (s : SteKeyVault) → config.vault_pswd ≡ some p
        → create_vaults config index ≡ ok (v, iroh, s)
        → (q : Text) × (r : Text) × (iroh ≡ Iroh.new_store_info p q index)
          × (s ≡ Ste.new_store_info p r index)
    unfolding create_vaults
    stored-eq-ok config index p v iroh s given h =
        let h0 = rw (create_vaults, given) at h in
        let (v0, e0, h1) = >>=-eq-ok (unwrap (open_or_create config.vault_dir p)) _ h0 in
        let (q, e1, h2) = >>=-eq-ok (unwrap config.iroh_key_pswd) _ h1 in
        let (r, e2, h3) = >>=-eq-ok (unwrap config.ste_key_pswd) _ h2 in
        (q, r, ground (arith, h3), ground (arith, h3))

    readable :
        (p q r : Text) (index : ℕ) (v0 mid v : vault.State) (pk : keys.PublicKey)
        → (iroh : IrohKeyVault) (s : SteKeyVault) (crs : ste.Crs) (ciphertext : ste.Ciphertext)
        → iroh ≡ Iroh.new_store_info p q index
        → s ≡ Ste.new_store_info p r index
        → Iroh.generate_key vault keys sk iroh v0 ≡ (ok pk, mid)
        → Ste.generate_key vault ste rng s mid ≡ (ok tt, v)
        → ((Iroh.get_secret_key vault keys iroh v).0 ≡ ok sk)
          × ((Ste.get_pk vault ste crs s v).0 ≡ ok (ste.get_pk (ste.new rng index) crs))
          × ((Ste.partial_decryption vault ste ciphertext s v).0
              ≡ ok (ste.partial_decryption (ste.new rng index) ciphertext))
    readable p q r index v0 mid v pk iroh s crs ciphertext i_is s_is hi hs =
        rw (i_is, s_is)
          (generate_both vault keys ste p q r index sk pk rng crs ciphertext v0 mid v
            (rw i_is at hi) (rw s_is at hs))

    -- A node that has made its keys reads them back: its iroh key is the one that was drawn, and its
    -- threshold key is the one drawn for its index, with which it decrypts.
    pub build_keys-readable :
        (config : VaultConfig) (index : ℕ) (v : vault.State) (iroh : IrohKeyVault) (s : SteKeyVault)
        → (crs : ste.Crs) (ciphertext : ste.Ciphertext) → build_keys config index ≡ ok (v, iroh, s)
        → ((Iroh.get_secret_key vault keys iroh v).0 ≡ ok sk)
          × ((Ste.get_pk vault ste crs s v).0 ≡ ok (ste.get_pk (ste.new rng index) crs))
          × ((Ste.partial_decryption vault ste ciphertext s v).0
              ≡ ok (ste.partial_decryption (ste.new rng index) ciphertext))
    unfolding build_keys
    build_keys-readable config index v iroh s crs ciphertext h =
        elim (Option-cases config.vault_pswd) [
          | inl missing ↦ absurd (cc (sym (build_keys-no_password config index missing) ∙ h))
          | inr (p, given) ↦
              let ((v0, iroh0, s0), e, h') = >>=-eq-ok (create_vaults config index) _ h in
              let (pk, first, second, i_same, s_same) =
                generated-eq-ok iroh0 iroh s0 s v (Iroh.generate_key vault keys sk iroh0 v0) h' in
              let (q, r, i_is, s_is) = stored-eq-ok config index p v0 iroh0 s0 given e in
              let mid = (Iroh.generate_key vault keys sk iroh0 v0).1 in
              readable p q r index v0 mid v pk iroh s crs ciphertext (sym i_same ∙ i_is)
                (sym s_same ∙ s_is)
                (ap (λ x. Iroh.generate_key vault keys sk x v0) (sym i_same) ∙ λ i. (first i, mid))
                (ap (λ x. Ste.generate_key vault ste rng x mid) (sym s_same) ∙ second)
        ]
