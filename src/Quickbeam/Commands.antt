-- ===== src/Quickbeam/Commands.antt =====
-- Which commands of quickbeam/src/main.rs cannot succeed.
use fangorn_rs.Prelude.{ℕ, ◌≡◌, refl, Option, none, some}
use fangorn_rs.Rust.Outcome.{Outcome, ok, err, panic, unwrap, ◌>>=◌}
use fangorn_rs.Rust.Text.{Text}
use fangorn_rs.Backend.{AnyError}
use fangorn_rs.Node.{build_keys-no_password}
use fangorn_rs.Node.Build.{build}
use fangorn_rs.Crypto.Handlers.EndToEnd.{handle_decrypt-pd_rx}
use fangorn_rs.Quickbeam.{
  Command, encrypt, decrypt, DecryptArgs, EncryptArgs, encrypt_with, NodeArgs, node_args, Outside,
  build_node, connected, Stores, decrypted, run_encrypt, run_decrypt, main,
}
use fangorn_rs.Quickbeam.Connected.{Unfailing, PubkeyWritten, connected-Unfailing}

unwrap-panics :
    {A B : Type 0} (o : Option A) (next : A → Outcome AnyError B)
    → ((a : A) → next a ≡ panic)
    → (unwrap o >>= next) ≡ panic
unwrap-panics none next k = refl
unwrap-panics (some a) next k = k a

decrypted-Unfailing :
    {F : Type 0} (o : Outside F) (args : DecryptArgs)
    (s : Option (Stores o args.contract_addr args.ticket)) (p : o.Pool)
    (P : o.SystemPublicKeys × F → Type 0) (m : Outcome AnyError (o.SystemPublicKeys × F))
    → Unfailing P m
    → decrypted o args s p m ≡ panic
decrypted-Unfailing o args s p P (ok (sys_keys, f)) h =
    handle_decrypt-pd_rx o.files o.hex (o.schemes sys_keys) (o.store args.contract_addr args.ticket)
      o.witnesses (o.add args.request_pool_contract_addr) o.location args.config_path args.filename
      args.witness s p f
decrypted-Unfailing o args s p P (err e) h = absurd h
decrypted-Unfailing o args s p P panic h = refl

module _ {F : Type 0} (o : Outside F) where
  -- The decrypt command panics, whatever its arguments, the stores, the pool, the files and the
  -- network are.
  pub main-decrypt :
      (args : DecryptArgs)
      (setup : (contract_addr ticket : Text) → Option (Stores o contract_addr ticket)) (p : o.Pool)
      (f : F) (n : o.Network)
      → main o (some (decrypt args)) setup p f n ≡ panic
  unfolding main run_decrypt
  main-decrypt args setup p f n =
      decrypted-Unfailing o args (setup args.contract_addr args.ticket) p
        (λ r. PubkeyWritten o f r.1) (connected o args.node 3 f n)
        (connected-Unfailing o args.node 3 f n)

  build_node-no_password :
      (args : NodeArgs) (index : ℕ) (f : F) (n : o.Network)
      → args.vault_config.vault_pswd ≡ none
      → build_node o args.vault_config index f n ≡ panic
  unfolding build_node build
  build_node-no_password args index f n missing =
      rw
        (build_keys-no_password o.vault o.open_or_create o.keys o.ste o.sk o.rng args.vault_config
          index missing)
        refl

  connected-no_password :
      (args : NodeArgs) (index : ℕ) (f : F) (n : o.Network)
      → args.vault_config.vault_pswd ≡ none
      → connected o args index f n ≡ panic
  unfolding connected
  connected-no_password args index f n missing =
      unwrap-panics (o.files.read_file f args.system_keys_dir) _ λ bytes.
        unwrap-panics (o.deserialize_compressed bytes) _
          λ sys_keys. rw (build_node-no_password args index f n missing) refl

  encrypt-no_password :
      (args : EncryptArgs) (setup : Option (Stores o args.contract_addr args.ticket)) (f : F)
      (n : o.Network)
      → args.node.vault_config.vault_pswd ≡ none
      → encrypt_with o args setup f n ≡ panic
  unfolding run_encrypt
  encrypt-no_password args none f n missing =
      rw (connected-no_password args.node 2 f n missing) refl
  encrypt-no_password args (some s) f n missing =
      rw (encrypt_with, run_encrypt, connected-no_password args.node 2 f n missing) refl

  -- Without a vault password, which is the default of the command line, every command panics.
  pub main-no_password :
      (c : Command) (setup : (contract_addr ticket : Text) → Option (Stores o contract_addr ticket))
      (p : o.Pool) (f : F) (n : o.Network)
      → (node_args c).vault_config.vault_pswd ≡ none
      → main o (some c) setup p f n ≡ panic
  unfolding main run_encrypt
  main-no_password (encrypt args) setup p f n missing =
      encrypt-no_password args (setup args.contract_addr args.ticket) f n missing
  main-no_password (decrypt args) setup p f n missing = main-decrypt args setup p f n
