-- ===== src/Pool/ContractPool.antt =====
-- fangorn/src/pool/contract_pool.rs: the request pool over the pool contract on a chain, which is
-- behind the backend interface.
pub mod Chain
pub mod Examples
use fangorn_rs.Prelude.{ℕ, Option, none, some, List, [], ◌∷◌, ◌++◌}
use fangorn_rs.Rust.Outcome.{Outcome, ok, err, ok_or, unwrap, ◌>>=◌}
use fangorn_rs.Rust.Text.{Text, codes}
use fangorn_rs.Utils.{Ss58, decode_contract_addr}
use fangorn_rs.Backend.{Backend, AnyError}
use fangorn_rs.Gadget.Codec.{Bytes, Scale, decode_all}
use fangorn_rs.Gadget.Psp22.{remove_status}
use fangorn_rs.Pool.{DecryptionRequest, encode_request}

-- The SCALE codecs of byte strings, of lists of requests and of `u64`.
pub record PoolCodecs : Type 0 where
  pub bytes : Scale Bytes
  pub requests : Scale (List DecryptionRequest)
  pub number : Scale ℕ
  pub failure : Bytes → AnyError

-- `InkContractPool`, with its address and the type of the chain's state.
module _ (S : Type 0) (ss58 : Ss58) (codecs : PoolCodecs) (backend : Backend S Bytes Text Bytes)
    (contract_address : Text) where
  abbrev pub written : Outcome AnyError Bytes × S → Outcome AnyError (Unit {0}) × S
  written (result, s) = (result >>= λ hash. ok tt, s)

  unfoldable pub add : DecryptionRequest → S → Outcome AnyError (Unit {0}) × S
  add req s = written (
      backend.write (decode_contract_addr ss58 contract_address) (codes "add")
        (encode_request codecs.bytes req) s)

  unfoldable pub read_all : S → Outcome AnyError (List DecryptionRequest)
  read_all s = do
    result ← backend.read (decode_contract_addr ss58 contract_address) (codes "read_all") none s
    bytes ← unwrap result
    let input = remove_status bytes
    ok_or (decode_all codecs.requests input) (codecs.failure input)

  unfoldable pub count : S → Outcome AnyError ℕ
  count s = do
    result ← backend.read (decode_contract_addr ss58 contract_address) (codes "count") none s
    bytes ← unwrap result
    let input = remove_status bytes
    ok_or (decode_all codecs.number input) (codecs.failure input)

  unfoldable pub submit_partial_attestation : Bytes → Bytes → S → Outcome AnyError (Unit {0}) × S
  submit_partial_attestation id attestation s = written (
      backend.write (decode_contract_addr ss58 contract_address) (codes "submit_partial_decryption")
        (codecs.bytes.encode id ++ codecs.bytes.encode attestation) s)
