-- ===== src/Quickbeam.antt =====
-- quickbeam/src/main.rs: the command line that encrypts and decrypts files as a node of the network. The
-- stores and the pool are functions of the addresses that a command names.
pub mod Commands
pub mod Connected
pub mod Stored
pub mod Examples
use fangorn_rs.Prelude.{ℕ, Option, none, some, List, [], ◌∷◌}
use fangorn_rs.Rust.Outcome.{Outcome, ok, err, panic, unwrap, ◌>>=◌}
use fangorn_rs.Rust.Text.{Text}
use fangorn_rs.Backend.{AnyError}
use fangorn_rs.Gadget.Codec.{Bytes, Scale}
use fangorn_rs.Gadget.Syntax.{Nom}
use fangorn_rs.Gadget.Sr25519.{Hex}
use fangorn_rs.Gadget.{GadgetRegistry, IntentError}
use fangorn_rs.Pool.{DecryptionRequest}
use fangorn_rs.Types.{VaultConfig}
use fangorn_rs.Storage.DocStore.{Files}
use fangorn_rs.Crypto.KeyVault.{Vault}
use fangorn_rs.Crypto.KeyVault.Iroh.{IrohKeys}
use fangorn_rs.Crypto.KeyVault.Ste.{SteKeys}
use fangorn_rs.Crypto.AppStore.{AppStore}
use fangorn_rs.Crypto.Handlers.{Schemes, handle_encrypt, handle_decrypt}
use fangorn_rs.Node.Build.{Endpoints, try_connect_peers, build}

-- What both commands name: the system keys, the bootstrap peer and the vault.
pub record NodeArgs : Type 0 where
  pub system_keys_dir : Text
  pub bootstrap_url : Text
  pub bootstrap_pubkey : Text
  pub vault_config : VaultConfig

pub record EncryptArgs : Type 0 where
  pub message_path : Text
  pub filename : Text
  pub config_path : Text
  pub intent : Text
  pub contract_addr : Text
  pub ticket : Text
  pub node : NodeArgs

pub record DecryptArgs : Type 0 where
  pub config_path : Text
  pub filename : Text
  pub witness : Text
  pub contract_addr : Text
  pub request_pool_contract_addr : Text
  pub ticket : Text
  pub node : NodeArgs

pub data Command : Type 0 where
  encrypt : EncryptArgs → Command
  decrypt : DecryptArgs → Command

abbrev pub node_args : Command → NodeArgs
node_args (encrypt args) = args.node
node_args (decrypt args) = args.node

-- What the program takes from elsewhere: the keys of the system with the encryption under them, the
-- parsers of addresses, the vault with the keys that are drawn, the network, the stores of a registry
-- contract and a ticket, and the pool contract.
pub record Outside (F : Type 0) : Type 1 where
  pub SystemPublicKeys : Type 0
  pub deserialize_compressed : Bytes → Option SystemPublicKeys
  pub schemes : SystemPublicKeys → Schemes
  -- `PublicKey::from_str`, the parser of a socket address, and `EndpointAddr` of both
  pub Addr : Type 0
  pub endpoint_addr : Text → Text → Option Addr
  pub vault : Vault
  pub open_or_create : Text → Text → Option vault.State
  pub keys : IrohKeys
  pub ste : SteKeys
  pub sk : keys.SecretKey
  pub rng : ste.Random
  pub Network : Type 0
  pub iroh : Endpoints Network keys.SecretKey keys.PublicKey Addr
  pub files : Files F
  pub hex : Hex
  pub nom : Nom
  pub World : Type 0
  pub registry : GadgetRegistry World
  pub show_error : IntentError → Text
  pub store : Text → Text → AppStore World
  pub witnesses : Scale (List Bytes)
  pub Pool : Type 0
  pub add : Text → DecryptionRequest → Pool → Outcome AnyError (Unit {0}) × Pool
  -- the location that a node names in its requests
  pub location : Bytes

module _ {F : Type 0} (o : Outside F) where
  -- `build_node`: port 4000, and the index that the command gives.
  unfoldable pub build_node : VaultConfig → ℕ → F → o.Network → Outcome AnyError (F × o.Network)
  unfolding build
  build_node vault_config index f n = do
    (node, (f', n')) ←
        build o.vault o.open_or_create o.keys o.ste o.sk o.rng o.iroh o.files 4000 index
          vault_config f n
    ok (f', n')

  -- What comes before the handler of a command: the system keys, and the files once the node is
  -- connected to the bootstrap peer.
  unfoldable pub connected :
      NodeArgs → ℕ → F → o.Network → Outcome AnyError (o.SystemPublicKeys × F)
  unfolding build_node try_connect_peers
  connected args index f n = do
    sys_keys_bytes ← unwrap (o.files.read_file f args.system_keys_dir)
    sys_keys ← unwrap (o.deserialize_compressed sys_keys_bytes)
    (f', n') ← build_node args.vault_config index f n
    boot ← unwrap (o.endpoint_addr args.bootstrap_pubkey args.bootstrap_url)
    n'' ← try_connect_peers o.iroh (some (boot ∷ [])) n'
    ok (sys_keys, f')

  abbrev pub Stores : Text → Text → Type 0
  Stores contract_addr ticket = (o.store contract_addr ticket).State

  module _ (args : EncryptArgs) where
    abbrev pub encrypted :
        Stores args.contract_addr args.ticket
        → Outcome AnyError (o.SystemPublicKeys × F)
        → Outcome AnyError (Unit {0}) × Stores args.contract_addr args.ticket
    encrypted s (ok (sys_keys, f)) =
        handle_encrypt o.files o.hex (o.schemes sys_keys) (o.store args.contract_addr args.ticket)
          o.nom o.registry o.show_error args.message_path args.filename args.config_path args.intent
          s f
    encrypted s (err e) = (err e, s)
    encrypted s panic = (panic, s)

    -- The arm of `Commands::Encrypt`.
    unfoldable pub run_encrypt :
        Stores args.contract_addr args.ticket
        → F
        → o.Network
        → Outcome AnyError (Unit {0}) × Stores args.contract_addr args.ticket
    unfolding handle_encrypt connected
    run_encrypt s f n = encrypted s (connected args.node 2 f n)

  module _ (args : DecryptArgs) where
    abbrev pub decrypted :
        Option (Stores args.contract_addr args.ticket)
        → o.Pool
        → Outcome AnyError (o.SystemPublicKeys × F)
        → Outcome AnyError (Unit {0})
    decrypted setup p (ok (sys_keys, f)) =
        (handle_decrypt o.files o.hex (o.schemes sys_keys) (o.store args.contract_addr args.ticket)
          o.witnesses (o.add args.request_pool_contract_addr) o.location args.config_path
          args.filename args.witness setup p f).0
    decrypted setup p (err e) = err e
    decrypted setup p panic = panic

    -- The arm of `Commands::Decrypt`.
    unfoldable pub run_decrypt :
        Option (Stores args.contract_addr args.ticket)
        → o.Pool
        → F
        → o.Network
        → Outcome AnyError (Unit {0})
    unfolding handle_decrypt connected
    run_decrypt setup p f n = decrypted setup p (connected args.node 3 f n)

  -- Without the stores, `iroh_testnet_setup` panics once the node is connected.
  abbrev pub encrypt_with :
      (args : EncryptArgs)
      → Option (Stores args.contract_addr args.ticket)
      → F
      → o.Network
      → Outcome AnyError (Unit {0})
  encrypt_with args (some s) f n = (run_encrypt args s f n).0
  encrypt_with args none f n = connected args.node 2 f n >>= λ r. panic

  -- `setup` is what `iroh_testnet_setup` of cipher.rs makes: the stores, or `none` where it panics.
  unfoldable pub main :
      Option Command
      → ((contract_addr ticket : Text) → Option (Stores contract_addr ticket))
      → o.Pool
      → F
      → o.Network
      → Outcome AnyError (Unit {0})
  unfolding run_encrypt run_decrypt
  main (some (encrypt args)) setup p f n =
      encrypt_with args (setup args.contract_addr args.ticket) f n
  main (some (decrypt args)) setup p f n =
      run_decrypt args (setup args.contract_addr args.ticket) p f n
  main none setup p f n = ok tt
