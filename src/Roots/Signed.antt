-- ===== src/Roots/Signed.antt =====
-- A key that roots/src/main.rs made, in the processes that use it afterwards.
use fangorn_rs.Prelude.{
  ℕ, ◌≡◌, refl, ap, sym, ◌∙◌, Bool, true, false, Option, none, some, Option-cases, inl, inr,
  unwrap_or, subst,
}
use fangorn_rs.Rust.Outcome.{Outcome, ok, err, panic}
use fangorn_rs.Rust.Text.{Text}
use fangorn_rs.Rust.Bytes.{to_le_bytes}
use fangorn_rs.Crypto.KeyVault.{KeyVaultError, Vault, passwords}
use fangorn_rs.Crypto.KeyVault.Stored.{
  stored-eq-ok, panicked, read_32-to_bytes, get_public_key-generate_key_print_mnemonic,
}
use fangorn_rs.Crypto.KeyVault.Sr25519
use fangorn_rs.Crypto.KeyVault.Sr25519.{Scheme}
use fangorn_rs.Crypto.KeyVault.Iroh
use fangorn_rs.Crypto.KeyVault.Iroh.{IrohKeys, iroh_key_name}
use fangorn_rs.Roots.{
  StoreType, polkadot, fangorn, Access, keygen, inspect, sign, verify, Disk, HexText, SrBytes,
  IrohBytes, Output, sr25519_key, iroh_key, signature, was_verified, sr25519_vault, iroh_vault,
  printed, run_keygen, run_inspect, run_sign, run_verify, with_vault, main,
}

module _ (vault : Vault) (scheme : Scheme) (keys : IrohKeys) where
  -- What a printed line says of the operation behind it.
  printed-eq-ok :
      {A : Type 0} (r : Outcome KeyVaultError A × vault.State) (f : A → Output vault scheme keys)
      (out : Output vault scheme keys) (v : vault.State)
      → printed vault scheme keys r (λ a. ok (f a)) ≡ (ok out, v)
      → (a : A) × (r ≡ (ok a, v)) × (f a ≡ out)
  printed-eq-ok (ok a, u) f out v h = (a, λ i. (ok a, (h i).1), cc (ap (λ r. r.0) h))
  printed-eq-ok (err e, u) f out v h = absurd (cc (ap (λ r. r.0) h))
  printed-eq-ok (panic, u) f out v h = absurd (cc (ap (λ r. r.0) h))

  generate_key-panics :
      (phrase : Text) (s : Sr25519.Sr25519KeyVault) (v : vault.State)
      → Sr25519.generate_key vault scheme phrase s v ≡ (panic, v)
  unfolding Sr25519.generate_key passwords
  generate_key-panics phrase s v = elim (Option-cases (scheme.from_phrase phrase)) [
    | inl e ↦ rw (Sr25519.generate_key, e) refl
    | inr ((pair, seed), e) ↦ rw (Sr25519.generate_key, e) refl
  ]

  module _ (hex : HexText) (sr_bytes : SrBytes scheme) (iroh_bytes : IrohBytes keys) where
    -- What signing, inspecting and verifying give behind a key that prints as `out`.
    abbrev Signs : ℕ → Access → StoreType → Text → vault.State → Output vault scheme keys → Type 0
    Signs nonce a store_type p v out =
        (h : Text) × ((run_sign vault scheme keys hex sr_bytes iroh_bytes nonce a store_type p v).0
          ≡ ok (signature nonce h))
        × ((run_inspect vault scheme keys a store_type p v).0 ≡ ok out)
        × ((run_verify vault scheme keys hex sr_bytes iroh_bytes h nonce a store_type p
              (run_sign vault scheme keys hex sr_bytes iroh_bytes nonce a store_type p v).1).0
            ≡ ok (was_verified true))

    keygen-polkadot :
        (phrase : Text) (sk : keys.SecretKey) (nonce : ℕ) (a : Access) (p : Text)
        (v v' : vault.State) (public : scheme.Public)
        → Sr25519.generate_key_print_mnemonic vault scheme phrase
            (sr25519_vault vault scheme keys a p)
            v
          ≡ (ok public, v')
        → Signs nonce a polkadot p v' (sr25519_key public)
    unfolding run_sign run_inspect run_verify Sr25519.get_public_key Sr25519.sign passwords
    keygen-polkadot phrase sk nonce a p v v' public h =
        let (known, (s, signed, valid)) =
          get_public_key-generate_key_print_mnemonic vault scheme p a.key_name a.key_password phrase
            (to_le_bytes 4 nonce) public v v' h in
        let again = vault.get-get v' a.key_name p a.key_password a.key_name p a.key_password in
        (
          hex.to_hex (sr_bytes.as_bytes_ref s),
          rw signed refl,
          rw known refl,
          rw
              (
                again,
                known,
                hex.from_hex-to_hex (sr_bytes.as_bytes_ref s),
                sr_bytes.from_slice-as_bytes_ref s,
                valid,
              )
              refl,
        )

    keygen-fangorn :
        (sk : keys.SecretKey) (nonce : ℕ) (a : Access) (p : Text) (v v' : vault.State)
        (public : keys.PublicKey)
        → Iroh.generate_key vault keys sk (iroh_vault vault scheme keys a p) v ≡ (ok public, v')
        → Signs nonce a fangorn p v' (iroh_key public)
    unfolding run_sign run_inspect run_verify Iroh.generate_key Iroh.get_public_key Iroh.sign
        passwords
    keygen-fangorn sk nonce a p v v' public h =
        let name = iroh_key_name (unwrap_or a.index 0) in
        let (stored, shown) = stored-eq-ok vault (keys.public sk) public v v' _ h in
        let found = vault.get-store_bytes v v' name (keys.to_bytes sk) p a.key_password stored in
        let again = vault.get-get v' name p a.key_password name p a.key_password in
        let s = keys.sign sk (to_le_bytes 4 nonce) in
        (
          hex.to_hex (iroh_bytes.to_bytes s),
          rw (found, read_32-to_bytes keys sk) refl,
          rw (found, read_32-to_bytes keys sk, shown) refl,
          rw
              (
                again,
                found,
                read_32-to_bytes keys sk,
                hex.from_hex-to_hex (iroh_bytes.to_bytes s),
                iroh_bytes.length-to_bytes s,
                iroh_bytes.from_bytes-to_bytes s,
                iroh_bytes.verify-sign sk (to_le_bytes 4 nonce),
              )
              refl,
        )

    -- A key that was made is the one that signs and that is shown.
    run_keygen-Signs :
        (phrase : Text) (sk : keys.SecretKey) (print_mnemonic : Bool) (nonce : ℕ) (a : Access)
        (store_type : StoreType) (p : Text) (v v' : vault.State) (out : Output vault scheme keys)
        → run_keygen vault scheme keys phrase sk print_mnemonic a store_type p v ≡ (ok out, v')
        → Signs nonce a store_type p v' out
    unfolding run_keygen
    run_keygen-Signs phrase sk true nonce a polkadot p v v' out h =
        let (public, made, shown) = printed-eq-ok _ sr25519_key out v' h in
        subst (Signs nonce a polkadot p v') shown
          (keygen-polkadot phrase sk nonce a p v v' public made)
    run_keygen-Signs phrase sk false nonce a polkadot p v v' out h =
        let (public, made, shown) = printed-eq-ok _ sr25519_key out v' h in
        absurd (
          panicked
            (sym (generate_key-panics phrase (sr25519_vault vault scheme keys a p) v) ∙ made))
    run_keygen-Signs phrase sk print_mnemonic nonce a fangorn p v v' out h =
        let (public, made, shown) = printed-eq-ok _ iroh_key out v' h in
        subst (Signs nonce a fangorn p v') shown (keygen-fangorn sk nonce a p v v' public made)

    module _ (disk : Disk vault) where
      with_vault-eq-ok :
          (dir : Text) (o : Option (vault.State × Text))
          (use_vault : Text
            → vault.State
            → Outcome KeyVaultError (Output vault scheme keys) × vault.State)
          (w w' : disk.World) (out : Output vault scheme keys)
          → with_vault vault scheme keys hex sr_bytes iroh_bytes disk dir o use_vault w
            ≡ (ok out, w')
          → (v v' : vault.State) × (p : Text) × (o ≡ some (v, p))
            × (use_vault p v ≡ (ok out, v'))
            × (disk.save dir v' w ≡ w')
      with_vault-eq-ok dir none use_vault w w' out h = absurd (panicked h)
      with_vault-eq-ok dir (some (v, p)) use_vault w w' out h =
          (v, (use_vault p v).1, p, refl, (λ i. ((h i).0, (use_vault p v).1)), (λ i. (h i).1))

      -- After a command that made a key, in whichever store, signing a nonce with the same access
      -- prints a signature, inspecting prints the key that was made, and verifying the signature
      -- that was printed prints that it is valid. Later processes draw what they like.
      pub keygen-sign-verify :
          (phrase phrase' : Text) (sk sk' : keys.SecretKey) (print_mnemonic : Bool) (a : Access)
          (nonce : ℕ) (w w' : disk.World) (out : Output vault scheme keys)
          → main vault scheme keys hex sr_bytes iroh_bytes disk phrase sk
              (some (keygen a print_mnemonic))
              w
            ≡ (ok out, w')
          → (h : Text) × ((main vault scheme keys hex sr_bytes iroh_bytes disk phrase' sk'
                (some (sign a nonce))
                w').0
              ≡ ok (signature nonce h))
            × ((main vault scheme keys hex sr_bytes iroh_bytes disk phrase' sk'
                  (some (inspect a))
                  w').0
                ≡ ok out)
            × ((main vault scheme keys hex sr_bytes iroh_bytes disk phrase' sk'
                  (some (verify a h nonce))
                  (main vault scheme keys hex sr_bytes iroh_bytes disk phrase' sk'
                    (some (sign a nonce))
                    w').1).0
                ≡ ok (was_verified true))
      unfolding main
      keygen-sign-verify phrase phrase' sk sk' print_mnemonic a nonce w w' out h =
          let (v, v', p, opened, made, left) =
            with_vault-eq-ok a.keystore_dir (disk.open_or_create a.keystore_dir a.vault_pswd w)
              (run_keygen vault scheme keys phrase sk print_mnemonic a a.store_type) w w' out h in
          let (text, signed, known, valid) =
            run_keygen-Signs phrase sk print_mnemonic nonce a a.store_type p v v' out made in
          let found =
            subst (λ u. disk.open_dir a.keystore_dir a.vault_pswd u ≡ some (v', p)) left
              (disk.open-create a.keystore_dir a.vault_pswd v v' p w opened) in
          let again =
            disk.open-save a.keystore_dir a.vault_pswd v'
              (run_sign vault scheme keys hex sr_bytes iroh_bytes nonce a a.store_type p v').1 p w'
              found in
          (text, rw (main, found) signed, rw (main, found) known, rw (main, found, again) valid)

      -- Making a key for polkadot without printing its mnemonic panics, whatever the disk holds.
      pub keygen-unprinted :
          (phrase : Text) (sk : keys.SecretKey) (a : Access) (w : disk.World)
          → a.store_type ≡ polkadot
          → (main vault scheme keys hex sr_bytes iroh_bytes disk phrase sk
              (some (keygen a false))
              w).0
            ≡ panic
      unfolding main run_keygen
      keygen-unprinted phrase sk a w h =
          elim (Option-cases (disk.open_or_create a.keystore_dir a.vault_pswd w)) [
            | inl e ↦ rw (main, e) refl
            | inr ((v, p), e) ↦
                rw (main, e, h, generate_key-panics phrase (sr25519_vault vault scheme keys a p) v)
                  refl
          ]
