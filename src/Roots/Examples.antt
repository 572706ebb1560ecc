-- ===== src/Roots/Examples.antt =====
-- roots/src/main.rs on a disk with one vault.
use fangorn_rs.Prelude.{ℕ, ◌≡◌, refl, ap, some_inj, true, false, some, [], ◌∷◌, replicate, arith}
use fangorn_rs.Fixtures.Vaults.{
  Entries, put, open_vault, no_entries, scheme, iroh_keys, head_or_zero,
}
use fangorn_rs.Rust.Outcome.{ok, panic}
use fangorn_rs.Rust.Text.{Text, codes}
use fangorn_rs.Crypto.KeyVault.{Bytes, passwords}
use fangorn_rs.Crypto.KeyVault.Iroh
use fangorn_rs.Roots.{
  polkadot, fangorn, Access, keygen, inspect, sign, verify, Disk, HexText, SrBytes, IrohBytes,
  iroh_key, signature, was_verified, run_keygen, main,
}
use fangorn_rs.Roots.Signed.{keygen-sign-verify, keygen-unprinted}

abbrev disk : Disk open_vault
disk = record {
  World = Entries;
  open_dir = λ dir pswd w. some (w, pswd);
  open_or_create = λ dir pswd w. some (w, pswd);
  save = λ dir v w. v;
  open-save = λ dir pswd v v' p w h. ap (λ o. some (v', o.1)) (some_inj h);
  open-create = λ dir pswd v v' p w h. ap (λ o. some (v', o.1)) (some_inj h);
}

abbrev hex : HexText
hex = record { to_hex = λ b. b; from_hex = λ t. some t; from_hex-to_hex = λ b. refl }

abbrev sr_bytes : SrBytes scheme
sr_bytes = record {
  as_bytes_ref = λ s. s;
  from_slice = λ b. some b;
  from_slice-as_bytes_ref = λ s. refl;
}

verify-sign :
    (k : ℕ) (m : Bytes) → iroh_keys.verify (iroh_keys.public k) m (iroh_keys.sign k m) ≡ true
verify-sign k m = ground arith

abbrev iroh_bytes : IrohBytes iroh_keys
iroh_bytes = record {
  to_bytes = λ s. s ∷ replicate 63 0;
  from_bytes = head_or_zero;
  length-to_bytes = λ s. refl;
  from_bytes-to_bytes = λ s. refl;
  verify-sign = verify-sign;
}

abbrev access : Access
access = record {
  keystore_dir = codes "keys";
  key_name = codes "k";
  vault_pswd = codes "v";
  key_password = codes "f";
  store_type = fangorn;
  index = some 2;
}

keygen-sign-verify_example :
    (h : Text) × ((main open_vault scheme iroh_keys hex sr_bytes iroh_bytes disk [] 0
        (some (sign access 5))
        (put no_entries (Iroh.iroh_key_name 2) (iroh_keys.to_bytes 7))).0
      ≡ ok (signature 5 h))
    × ((main open_vault scheme iroh_keys hex sr_bytes iroh_bytes disk [] 0
          (some (inspect access))
          (put no_entries (Iroh.iroh_key_name 2) (iroh_keys.to_bytes 7))).0
        ≡ ok (iroh_key 8))
    × ((main open_vault scheme iroh_keys hex sr_bytes iroh_bytes disk [] 0
          (some (verify access h 5))
          (main open_vault scheme iroh_keys hex sr_bytes iroh_bytes disk [] 0
            (some (sign access 5))
            (put no_entries (Iroh.iroh_key_name 2) (iroh_keys.to_bytes 7))).1).0
        ≡ ok (was_verified true))
unfolding main run_keygen Iroh.generate_key passwords
keygen-sign-verify_example =
    keygen-sign-verify open_vault scheme iroh_keys hex sr_bytes iroh_bytes disk (codes "word") [] 7
      0 false access 5 no_entries (put no_entries (Iroh.iroh_key_name 2) (iroh_keys.to_bytes 7))
      (iroh_key 8) refl

keygen-unprinted_example :
    (main open_vault scheme iroh_keys hex sr_bytes iroh_bytes disk
      (codes "word")
      7
      (some (keygen (record access { store_type = polkadot }) false))
      no_entries).0
    ≡ panic
keygen-unprinted_example =
    keygen-unprinted open_vault scheme iroh_keys hex sr_bytes iroh_bytes disk (codes "word") 7
      (record access { store_type = polkadot }) no_entries refl
