-- ===== src/Network.antt =====
-- The node of fangorn/src/node/service.rs as its worker runs: the services that it processes requests
-- with, over the stores of the clients and the pool of fangorn/src/pool/contract_pool.rs.
pub mod Worker
pub mod Examples
use fangorn_rs.Prelude.{Option}
use fangorn_rs.Rust.Outcome.{Outcome}
use fangorn_rs.Rust.Text.{Text}
use fangorn_rs.Utils.{Ss58}
use fangorn_rs.Backend.{Backend, AnyError}
use fangorn_rs.Gadget.Codec.{Bytes}
use fangorn_rs.Pool.ContractPool.{PoolCodecs, submit_partial_attestation}
use fangorn_rs.Service.Request.{Delivery, Services}
use fangorn_rs.Crypto.AppStore.{AppStore}
use fangorn_rs.Crypto.Handlers.{Schemes}

-- What a node has of its own: its key, the reading of addresses, the bytes of partial decryptions, the
-- connection to a recipient, and the chain with the address of its pool's contract.
pub record NodeSide (schemes : Schemes) (W : Type 0) : Type 1 where
  pub Address : Type 0
  pub address : Bytes → Option Address
  pub partial_decryption : schemes.Ciphertext → Outcome AnyError schemes.PartialDecryption
  pub serialize : schemes.PartialDecryption → Bytes
  pub deliver : Address → Bytes → Delivery
  pub ss58 : Ss58
  pub codecs : PoolCodecs
  pub backend : Backend W Bytes Text Bytes
  pub pool_address : Text

module _ (schemes : Schemes) {W : Type 0} (node : NodeSide schemes W) (store : AppStore W) where
  -- With the stores in a state and the chain in a state.
  abbrev pub node_services : store.State → W → Services W
  node_services s world = record {
    Cid = store.Cid;
    Ciphertext = schemes.Ciphertext;
    PartialDecryption = schemes.PartialDecryption;
    Address = node.Address;
    get_intent = λ filename. store.get_intent filename s;
    fetch = λ cid. store.fetch cid s;
    deserialize = schemes.deserialize;
    partial_decryption = node.partial_decryption;
    serialize = node.serialize;
    address = node.address;
    deliver = node.deliver;
    submit = λ id attestation.
        (submit_partial_attestation W node.ss58 node.codecs node.backend node.pool_address id
          attestation world).0;
  }
