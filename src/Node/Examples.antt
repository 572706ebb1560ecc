-- ===== src/Node/Examples.antt =====
-- The keys of a node of fangorn/src/node/node.rs, on the vault of Fixtures.
use fangorn_rs.Prelude.{◌≡◌, refl, some, [], ◌∷◌}
use fangorn_rs.Fixtures.Vaults.{Entries, put, open_vault, no_entries, iroh_keys, ste_keys}
use fangorn_rs.Rust.Outcome.{ok}
use fangorn_rs.Rust.Text.{codes}
use fangorn_rs.Types.{VaultConfig, default}
use fangorn_rs.Crypto.KeyVault.{passwords}
use fangorn_rs.Crypto.KeyVault.Iroh
use fangorn_rs.Crypto.KeyVault.Ste
use fangorn_rs.Node.{create_vaults, build_keys, build_keys-readable}

abbrev config : VaultConfig
config = record default {
  vault_pswd = some (codes "v");
  iroh_key_pswd = some (codes "f");
  ste_key_pswd = some (codes "g");
}

-- The vault of node 2 with both of its keys.
abbrev both : Entries
both =
    put (put no_entries (Iroh.iroh_key_name 2) (iroh_keys.to_bytes 7)) (Ste.ste_key_name 2) (2 ∷ [])

build_keys-readable_example :
    ((Iroh.get_secret_key open_vault iroh_keys
        (Iroh.new_store_info (codes "v") (codes "f") 2)
        both).0
      ≡ ok 7)
    × ((Ste.get_pk open_vault ste_keys 5 (Ste.new_store_info (codes "v") (codes "g") 2) both).0
        ≡ ok (2, 5))
    × ((Ste.partial_decryption open_vault ste_keys
          (codes "c")
          (Ste.new_store_info (codes "v") (codes "g") 2)
          both).0
        ≡ ok (2, codes "c"))
unfolding build_keys create_vaults Iroh.generate_key Ste.generate_key passwords
build_keys-readable_example =
    build_keys-readable open_vault (λ dir p. some no_entries) iroh_keys ste_keys 7 0 config 2 both
      (Iroh.new_store_info (codes "v") (codes "f") 2) (Ste.new_store_info (codes "v") (codes "g") 2)
      5 (codes "c") refl
