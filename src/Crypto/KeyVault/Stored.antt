-- ===== src/Crypto/KeyVault/Stored.antt =====
-- What a vault of fangorn/src/crypto/keyvault.rs that has its passwords gives back: the key that it
-- generated, whatever keys of other names are stored or read in between.
use fangorn_rs.Prelude.{
  ℕ, ◌≡◌, refl, ap, sym, ◌∙◌, true, Option, none, some, Option-cases, inl, inr, take-append,
  replicate, ℕ-Eq, List-Eq,
}
use fangorn_rs.Rust.Outcome.{Outcome, ok, panic}
use fangorn_rs.Rust.Text.{Text}
use fangorn_rs.Crypto.KeyVault.{Bytes, KeyVaultError, Vault, passwords, stored_or_panic}
use fangorn_rs.Crypto.KeyVault.Names.{iroh_key_name-injective, iroh_key_name-ste}
use fangorn_rs.Crypto.KeyVault.Sr25519
use fangorn_rs.Crypto.KeyVault.Sr25519.{Scheme}
use fangorn_rs.Crypto.KeyVault.Iroh
use fangorn_rs.Crypto.KeyVault.Iroh.{IrohKeys, iroh_key_name, read_32}
use fangorn_rs.Crypto.KeyVault.Ste
use fangorn_rs.Crypto.KeyVault.Ste.{SteKeys, ste_key_name}

pub stored-eq-ok :
    (vault : Vault) {A : Type 0} (a b : A) (v v' : vault.State) (o : Option vault.State)
    → stored_or_panic vault a v o ≡ (ok b, v')
    → (o ≡ some v') × (a ≡ b)
stored-eq-ok vault a b v v' none h = cc
stored-eq-ok vault a b v v' (some w) h = (cc, cc)

pub panicked :
    {A V : Type 0} {a : A} {v v' : V}
    → ¬ (◌≡◌ {A = Outcome KeyVaultError A × V} (panic, v) (ok a, v'))
panicked h = cc

pub read_32-to_bytes :
    (keys : IrohKeys) (k : keys.SecretKey) → keys.from_bytes (read_32 (keys.to_bytes k)) ≡ k
read_32-to_bytes keys k =
    ap keys.from_bytes (take-append 32 (keys.to_bytes k) (replicate 32 0) (keys.length-to_bytes k))
    ∙ keys.from_bytes-to_bytes k

module _ (vault : Vault) where
  module _ (scheme : Scheme) where
    -- The key of a printed mnemonic is the one that the vault has and signs with after its generation.
    pub get_public_key-generate_key_print_mnemonic :
        (p name q phrase message : Text) (public : scheme.Public) (v v' : vault.State)
        → Sr25519.generate_key_print_mnemonic vault scheme phrase
            (Sr25519.new_store_info p name q)
            v
          ≡ (ok public, v')
        → ((Sr25519.get_public_key vault scheme (Sr25519.new_store_info p name q) v').0 ≡ ok public)
          × ((signature : scheme.Signature) × ((Sr25519.sign vault scheme message
                  (Sr25519.new_store_info p name q)
                  v').0
                ≡ ok signature)
              × (Sr25519.verify vault scheme public message signature ≡ true))
    unfolding Sr25519.generate_key_print_mnemonic Sr25519.get_public_key Sr25519.sign passwords
    get_public_key-generate_key_print_mnemonic p name q phrase message public v v' h =
        elim (Option-cases (scheme.from_phrase phrase)) [
          | inl e ↦ absurd (panicked (rw (Sr25519.generate_key_print_mnemonic, e) at h))
          | inr ((pair, seed), e) ↦
              let (stored, shown) =
                stored-eq-ok vault (scheme.public pair) public v v' _
                  (rw (Sr25519.generate_key_print_mnemonic, e) at h) in
              let found = vault.get-store_bytes v v' name seed p q stored in
              let same = scheme.from_seed_slice-from_phrase phrase pair seed e in
              rw (found, same)
                (
                  ap ok shown,
                  (
                    scheme.sign pair message,
                    refl,
                    rw (sym shown) (scheme.verify-sign pair message),
                  ),
                )
        ]

  module _ (keys : IrohKeys) where
    -- The key that an iroh vault generates is the one that it reads, shows the public part of and signs
    -- with after its generation.
    pub get_secret_key-generate_key :
        (p q : Text) (i : ℕ) (sk : keys.SecretKey) (pk : keys.PublicKey) (message : Bytes)
        → (v v' : vault.State)
        → Iroh.generate_key vault keys sk (Iroh.new_store_info p q i) v ≡ (ok pk, v')
        → ((Iroh.get_secret_key vault keys (Iroh.new_store_info p q i) v').0 ≡ ok sk)
          × ((Iroh.get_public_key vault keys (Iroh.new_store_info p q i) v').0 ≡ ok pk)
          × ((Iroh.sign vault keys message (Iroh.new_store_info p q i) v').0
              ≡ ok (keys.sign sk message))
    unfolding Iroh.generate_key Iroh.get_secret_key Iroh.get_public_key Iroh.sign passwords
    get_secret_key-generate_key p q i sk pk message v v' h =
        let (stored, shown) = stored-eq-ok vault (keys.public sk) pk v v' _ h in
        let found = vault.get-store_bytes v v' (iroh_key_name i) (keys.to_bytes sk) p q stored in
        rw (found, read_32-to_bytes keys sk, shown) (refl, refl, refl)

    -- Generating a key leaves the secrets of the other nodes on the vault as they were.
    get_secret_key-other_index :
        (p q r s : Text) (i j : ℕ) (sk : keys.SecretKey) (pk : keys.PublicKey) (v v' : vault.State)
        → ¬ (i ≡ j)
        → Iroh.generate_key vault keys sk (Iroh.new_store_info p q j) v ≡ (ok pk, v')
        → (Iroh.get_secret_key vault keys (Iroh.new_store_info r s i) v').0
          ≡ (Iroh.get_secret_key vault keys (Iroh.new_store_info r s i) v).0
    unfolding Iroh.generate_key Iroh.get_secret_key passwords
    get_secret_key-other_index p q r s i j sk pk v v' apart h =
        let (stored, shown) = stored-eq-ok vault (keys.public sk) pk v v' _ h in
        rw
          (vault.get-store_bytes_other v v' (iroh_key_name j) (keys.to_bytes sk) p q
            (iroh_key_name i) r s stored (iroh_key_name-injective i j apart))
          refl

    module _ (ste : SteKeys) where
      -- A node that generates both of its keys on a vault, the iroh key first, gets both back: the
      -- iroh key, and the public key and the partial decryptions of the key that its index gives.
      pub generate_both :
          (p q r : Text) (i : ℕ) (sk : keys.SecretKey) (pk : keys.PublicKey) (rng : ste.Random)
          → (crs : ste.Crs) (ciphertext : ste.Ciphertext) (v v' v'' : vault.State)
          → Iroh.generate_key vault keys sk (Iroh.new_store_info p q i) v ≡ (ok pk, v')
          → Ste.generate_key vault ste rng (Ste.new_store_info p r i) v' ≡ (ok tt, v'')
          → ((Iroh.get_secret_key vault keys (Iroh.new_store_info p q i) v'').0 ≡ ok sk)
            × ((Ste.get_pk vault ste crs (Ste.new_store_info p r i) v'').0
                ≡ ok (ste.get_pk (ste.new rng i) crs))
            × ((Ste.partial_decryption vault ste ciphertext (Ste.new_store_info p r i) v'').0
                ≡ ok (ste.partial_decryption (ste.new rng i) ciphertext))
      unfolding Iroh.generate_key Iroh.get_secret_key Ste.generate_key Ste.get_pk
          Ste.partial_decryption passwords
      generate_both p q r i sk pk rng crs ciphertext v v' v'' hi hs =
          let (kept, shown) = stored-eq-ok vault (keys.public sk) pk v v' _ hi in
          let (stored, done) = stored-eq-ok vault tt tt v' v'' _ hs in
          let found = vault.get-store_bytes v v' (iroh_key_name i) (keys.to_bytes sk) p q kept in
          let apart =
            vault.get-store_bytes_other v' v'' (ste_key_name i) (ste.serialize (ste.new rng i)) p r
              (iroh_key_name i) p q stored (iroh_key_name-ste i i) in
          let own =
            vault.get-store_bytes v' v'' (ste_key_name i) (ste.serialize (ste.new rng i)) p r
              stored in
          rw
            (apart, found, own, read_32-to_bytes keys sk, ste.deserialize-serialize (ste.new rng i))
            (refl, refl, refl)
