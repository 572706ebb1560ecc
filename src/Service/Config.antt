-- ===== src/Service/Config.antt =====
-- fangorn/src/node/service.rs and fangorn/src/main.rs: the config of a service from the arguments of the
-- command `run`. The parser of a peer's address is a parameter.
use fangorn_rs.Prelude.{
  ℕ, ◌≡◌, refl, Bool, false, Option, none, some, List, [], ◌∷◌, ◌∙◌, if◌then◌else◌,
}
use fangorn_rs.Rust.Outcome.{Outcome, ok, panic, unwrap, ◌>>=◌, >>=-assoc}
use fangorn_rs.Rust.Text.{Text}
use fangorn_rs.Rust.Lines.{is_empty}
use fangorn_rs.Backend.{AnyError}
use fangorn_rs.Gadget.Codec.{Bytes, Scale}
use fangorn_rs.Types.{Announcement, VaultConfig}
use fangorn_rs.Service.Documents.{Docs, Shared, setup_document_stream}

pub record ServiceConfig (Addr : Type 0) : Type 0 where
  pub bind_port : ℕ
  pub rpc_port : ℕ
  pub index : ℕ
  pub is_bootstrap : Bool
  pub ticket : Option Text
  pub bootstrap_peers : Option (List Addr)
  pub predicate_registry_contract_addr : Text
  pub request_pool_contract_addr : Text

-- `FangornNodeCommands::Run`
pub record RunArgs : Type 0 where
  pub bind_port : ℕ
  pub rpc_port : ℕ
  pub index : ℕ
  pub is_bootstrap : Bool
  pub ticket : Text
  pub predicate_registry_contract_addr : Text
  pub request_pool_contract_addr : Text
  pub bootstrap_pubkey : Option Text
  pub bootstrap_ip : Option Text
  pub vault_config : VaultConfig

module _ {Addr : Type 0} (endpoint_addr : Text → Text → Option Addr) where
  -- A peer is named by both of its parts, and an address that does not parse is a panic.
  unfoldable pub build_bootstrap_peers :
      Option Text → Option Text → Outcome AnyError (Option (List Addr))
  build_bootstrap_peers (some pubkey_str) (some ip_str) = do
    addr ← unwrap (endpoint_addr pubkey_str ip_str)
    ok (some (addr ∷ []))
  build_bootstrap_peers (some pubkey_str) none = ok none
  build_bootstrap_peers none ip = ok none

  peers-panics :
      {A : Type 0} (pubkey ip : Option Text) (next : Option (List Addr) → Outcome AnyError A)
      → ((peers : Option (List Addr)) → next peers ≡ panic)
      → (build_bootstrap_peers pubkey ip >>= next) ≡ panic
  unfolding build_bootstrap_peers
  peers-panics (some pubkey) (some ip) next k = parsed (endpoint_addr pubkey ip)
    where
      parsed : (o : Option Addr) → ((unwrap o >>= λ addr. ok (some (addr ∷ []))) >>= next) ≡ panic
      parsed none = refl
      parsed (some addr) = k (some (addr ∷ []))
  peers-panics (some pubkey) none next k = k none
  peers-panics none ip next k = k none

  -- An empty ticket is none.
  unfoldable pub service_config : RunArgs → Outcome AnyError (ServiceConfig Addr)
  unfolding build_bootstrap_peers
  service_config args = do
    peers ← build_bootstrap_peers args.bootstrap_pubkey args.bootstrap_ip
    ok (record {
      bind_port = args.bind_port;
      rpc_port = args.rpc_port;
      index = args.index;
      is_bootstrap = args.is_bootstrap;
      ticket = if is_empty args.ticket then none else some args.ticket;
      bootstrap_peers = peers;
      predicate_registry_contract_addr = args.predicate_registry_contract_addr;
      request_pool_contract_addr = args.request_pool_contract_addr;
    })

  module _ (D : Type 0) (docs : Docs D) (codec : Scale Announcement)
      (import : Text → Option D) where
    -- The document that a ticket leads to.
    abbrev imported : Option Text → Option D
    imported none = none
    imported (some ticket) = import ticket

    -- The document of the service that a command starts.
    abbrev opened : Bytes → D → RunArgs → Outcome AnyError (Shared D)
    opened config_bytes fresh args = do
      config ← service_config args
      setup_document_stream D docs codec config.is_bootstrap config_bytes fresh
          (imported config.ticket)

    -- A node that is no bootstrap node does not start with the default ticket, which is empty.
    opened-no_ticket :
        (config_bytes : Bytes) (fresh : D) (args : RunArgs)
        → args.is_bootstrap ≡ false
        → args.ticket ≡ []
        → opened config_bytes fresh args ≡ panic
    unfolding service_config setup_document_stream
    opened-no_ticket config_bytes fresh args joins empty =
        >>=-assoc (build_bootstrap_peers args.bootstrap_pubkey args.bootstrap_ip) _ _
        ∙ peers-panics args.bootstrap_pubkey args.bootstrap_ip _ λ peers. rw (joins, empty) refl
