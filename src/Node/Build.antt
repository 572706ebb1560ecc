-- ===== src/Node/Build.antt =====
-- fangorn/src/node/node.rs: `build`, behind the making of the keys, and the connections to peers. The
-- endpoint of iroh, with the protocols over it, is a parameter.
use fangorn_rs.Prelude.{ℕ, Option, none, some, List, [], ◌∷◌, ◌++◌}
use fangorn_rs.Rust.Outcome.{Outcome, ok, unwrap, unwrap_result, ◌>>=◌}
use fangorn_rs.Rust.Text.{Text, codes, as_bytes}
use fangorn_rs.Backend.{AnyError}
use fangorn_rs.Types.{VaultConfig}
use fangorn_rs.Crypto.KeyVault.{Vault}
use fangorn_rs.Crypto.KeyVault.Iroh
use fangorn_rs.Crypto.KeyVault.Iroh.{IrohKeys, IrohKeyVault}
use fangorn_rs.Crypto.KeyVault.Ste.{SteKeys, SteKeyVault}
use fangorn_rs.Storage.DocStore.{Files}
use fangorn_rs.Node.{build_keys}

-- The protocols that a node speaks.
pub data Alpn : Type 0 where
  blobs_alpn docs_alpn gossip_alpn : Alpn

-- An endpoint in the network `N`: `bind` makes it under a key and a port, `id` is its public key as
-- text, and `connect` dials a peer.
pub record Endpoints (N SecretKey PublicKey Addr : Type 0) : Type 0 where
  pub bind : SecretKey → PublicKey → ℕ → N → Option N
  pub id : N → Text
  pub connect : Addr → Alpn → N → Option N

abbrev pub pubkey_path : Text
pubkey_path = codes "pubkey.txt"

module _ {N SK PK Addr : Type 0} (iroh : Endpoints N SK PK Addr) where
  unfoldable pub connect_to_peer_for_multiple_protocols : Addr → N → Outcome AnyError N
  connect_to_peer_for_multiple_protocols peer n = do
    n1 ← unwrap (iroh.connect peer blobs_alpn n)
    n2 ← unwrap (iroh.connect peer docs_alpn n1)
    unwrap (iroh.connect peer gossip_alpn n2)

  unfoldable pub connect_all : List Addr → N → Outcome AnyError N
  unfolding connect_to_peer_for_multiple_protocols
  connect_all [] n = ok n
  connect_all (peer ∷ bootstrap) n = do
    n' ← connect_to_peer_for_multiple_protocols peer n
    connect_all bootstrap n'

  unfoldable pub try_connect_peers : Option (List Addr) → N → Outcome AnyError N
  unfolding connect_all
  try_connect_peers (some bootstrap) n = connect_all bootstrap n
  try_connect_peers none n = ok n

-- What a node is built from: the vault, the drawn keys, the endpoint and the files.
module _ (vault : Vault) (open_or_create : Text → Text → Option vault.State) (keys : IrohKeys)
    (ste : SteKeys) (sk : keys.SecretKey) (rng : ste.Random) {N Addr F : Type 0}
    (iroh : Endpoints N keys.SecretKey keys.PublicKey Addr) (files : Files F) where
  -- The vaults, and the state of the vault store. Its endpoint is in the network, its state is the one
  -- of Types.State, and its channel the one of Node.Channel.
  pub record Node : Type 0 where
    pub iroh_vault : IrohKeyVault
    pub ste_vault : SteKeyVault
    pub vault_config : VaultConfig
    pub stored : vault.State

  unfoldable pub build : ℕ → ℕ → VaultConfig → F → N → Outcome AnyError (Node × (F × N))
  unfolding build_keys Iroh.get_secret_key Iroh.get_public_key
  build bind_port index vault_config f n = do
    (stored, iroh_vault, ste_vault) ←
        unwrap_result (build_keys vault open_or_create keys ste sk rng vault_config index)
    let (secret, v) = Iroh.get_secret_key vault keys iroh_vault stored
    let (public, v') = Iroh.get_public_key vault keys iroh_vault v
    secret_key ← unwrap_result secret
    public_key ← unwrap_result public
    n' ← unwrap (iroh.bind secret_key public_key bind_port n)
    f' ← unwrap (files.write_file f pubkey_path (as_bytes (iroh.id n' ++ codes "\n")))
    let node : Node = record {
      iroh_vault = iroh_vault;
      ste_vault = ste_vault;
      vault_config = vault_config;
      stored = v';
    }
    ok (node, (f', n'))
