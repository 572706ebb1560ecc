-- ===== src/Quickbeam/Examples.antt =====
-- The commands of quickbeam/src/main.rs on a disk with the system keys, a config and a message, in a
-- network where every peer is reached.
use fangorn_rs.Prelude.{ℕ, ◌≡◌, refl, none, some, List, [], ◌∷◌}
use fangorn_rs.Fixtures.{nom, hex, find_char, bytes_scale, list_scale}
use fangorn_rs.Fixtures.Vaults.{Entries, put, open_vault, no_entries, iroh_keys, ste_keys}
use fangorn_rs.Fixtures.Stores.{files, cell, registry, schemes, encrypted_once}
use fangorn_rs.Rust.Outcome.{ok, panic}
use fangorn_rs.Rust.Text.{Text, codes, as_bytes, from_utf8, is_whitespace, trim, split_twice}
use fangorn_rs.Rust.Decimal.{show_ℕ}
use fangorn_rs.Types.{default}
use fangorn_rs.Gadget.{parse_intents, get_gadget}
use fangorn_rs.Gadget.Syntax.{parse_intent_string}
use fangorn_rs.Gadget.Password.{password_gadget}
use fangorn_rs.Pool.{DecryptionRequest}
use fangorn_rs.Storage.DocStore.{read_plaintext}
use fangorn_rs.Crypto.KeyVault.{passwords}
use fangorn_rs.Crypto.KeyVault.Iroh
use fangorn_rs.Crypto.KeyVault.Ste
use fangorn_rs.Crypto.Encrypt.{encrypt_inner}
use fangorn_rs.Crypto.Handlers.{encryption_config, handle_encrypt}
use fangorn_rs.Node.{create_vaults, build_keys}
use fangorn_rs.Node.Build.{
  build, try_connect_peers, connect_all, connect_to_peer_for_multiple_protocols,
}
use fangorn_rs.Quickbeam.{
  NodeArgs, EncryptArgs, DecryptArgs, Outside, encrypt, decrypt, build_node, connected, run_encrypt,
  main,
}
use fangorn_rs.Quickbeam.Commands.{main-decrypt, main-no_password}
use fangorn_rs.Quickbeam.Stored.{Stored, run_encrypt-Stored}

abbrev outside : Outside Entries
outside = record {
  SystemPublicKeys = Unit {0};
  deserialize_compressed = λ b. some tt;
  schemes = λ sys_keys. schemes;
  Addr = Text;
  endpoint_addr = λ pubkey url. some (codes "peer");
  vault = open_vault;
  open_or_create = λ dir p. some no_entries;
  keys = iroh_keys;
  ste = ste_keys;
  sk = 7;
  rng = 0;
  Network = Unit {0};
  iroh = record { bind = λ sk pk port n. some n; id = λ n. codes "07"; connect = λ a p n. some n };
  files = files;
  hex = hex;
  nom = nom;
  World = ℕ;
  registry = registry;
  show_error = λ e. [];
  store = λ contract_addr ticket. cell;
  witnesses = list_scale bytes_scale;
  Pool = List DecryptionRequest;
  add = λ contract_addr request pool. (ok tt, request ∷ pool);
  location = 1 ∷ [];
}

abbrev disk : Entries
disk =
    put (put (put no_entries (codes "config") (codes "00")) (codes "note") (codes "hi"))
      (codes "keys") []

abbrev unlocked : NodeArgs
unlocked = record {
  system_keys_dir = codes "keys";
  bootstrap_url = codes "127.0.0.1:4000";
  bootstrap_pubkey = codes "05";
  vault_config = record default {
    vault_pswd = some (codes "v");
    iroh_key_pswd = some (codes "f");
    ste_key_pswd = some (codes "g");
  };
}

abbrev encryption : EncryptArgs
encryption = record {
  message_path = codes "note";
  filename = codes "f";
  config_path = codes "config";
  intent = codes "Password(abc)";
  contract_addr = codes "5C";
  ticket = codes "doc";
  node = unlocked;
}

abbrev request : DecryptArgs
request = record {
  config_path = codes "config";
  filename = codes "f";
  witness = codes "abc";
  contract_addr = codes "5C";
  request_pool_contract_addr = codes "5D";
  ticket = codes "doc";
  node = unlocked;
}

run_encrypt-Stored_example : Stored outside encryption disk encrypted_once
unfolding run_encrypt connected build_node build build_keys create_vaults Iroh.generate_key
    Ste.generate_key Iroh.get_secret_key Iroh.get_public_key passwords try_connect_peers connect_all
    connect_to_peer_for_multiple_protocols handle_encrypt encryption_config read_plaintext from_utf8
    encrypt_inner parse_intents parse_intent_string find_char get_gadget password_gadget split_twice
    is_whitespace trim as_bytes show_ℕ
run_encrypt-Stored_example =
    run_encrypt-Stored outside encryption disk tt (none, none) encrypted_once refl (λ e. cc e)

main-decrypt_example :
    main outside (some (decrypt request)) (λ contract_addr ticket. some encrypted_once) [] disk tt
    ≡ panic
main-decrypt_example =
    main-decrypt outside request (λ contract_addr ticket. some encrypted_once) [] disk tt

main-no_password_example :
    main outside
      (some (encrypt (record encryption { node = record unlocked { vault_config = default } })))
      (λ contract_addr ticket. some (none, none))
      []
      disk
      tt
    ≡ panic
main-no_password_example =
    main-no_password outside
      (encrypt (record encryption { node = record unlocked { vault_config = default } }))
      (λ contract_addr ticket. some (none, none)) [] disk tt refl
