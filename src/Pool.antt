-- ===== src/Pool.antt =====
-- fangorn/src/pool: decryption requests, the pool on the chain, and the watcher that polls it.
pub mod Watcher
pub mod ContractPool
use fangorn_rs.Prelude.{ℕ, ◌≡◌, refl, Option, none, some, List, ◌++◌, append_assoc}
use fangorn_rs.Gadget.Codec.{Bytes, Scale}

-- `location` is the newtype `OpaqueEndpointAddr`, which is encoded as its bytes.
pub record DecryptionRequest : Type 0 where
  pub filename : Bytes
  pub witness_hex : Bytes
  pub location : Bytes

pub record PartialDecryptionMessage : Type 0 where
  pub filename : Bytes
  pub index : ℕ
  pub partial_decryption_bytes : Bytes

-- The derived codec of a request: its fields in turn.
module _ (bytes : Scale Bytes) where
  unfoldable pub encode_request : DecryptionRequest → Bytes
  encode_request r =
      bytes.encode r.filename ++ (bytes.encode r.witness_hex ++ bytes.encode r.location)

  unfoldable pub decode_request : Bytes → Option (DecryptionRequest × Bytes)
  decode_request b = elim (bytes.decode b) [
    | none ↦ none
    | some (f, r) ↦ elim (bytes.decode r) [
      | none ↦ none
      | some (w, r') ↦ elim (bytes.decode r') [
        | none ↦ none
        | some (l, r'') ↦ some (record { filename = f; witness_hex = w; location = l }, r'')
      ]
    ]
  ]

  pub decode-encode_request :
      (q : DecryptionRequest) (rest : Bytes)
      → decode_request (encode_request q ++ rest) ≡ some (q, rest)
  unfolding encode_request decode_request
  decode-encode_request q rest =
      rw
        (
          append_assoc (bytes.encode q.filename)
              (bytes.encode q.witness_hex ++ bytes.encode q.location) rest,
          append_assoc (bytes.encode q.witness_hex) (bytes.encode q.location) rest,
          decode_request,
          bytes.decode-encode q.filename
              (bytes.encode q.witness_hex ++ (bytes.encode q.location ++ rest)),
          bytes.decode-encode q.witness_hex (bytes.encode q.location ++ rest),
          bytes.decode-encode q.location rest,
        )
        refl

  abbrev pub request_scale : Scale DecryptionRequest
  request_scale = record {
    encode = encode_request;
    decode = decode_request;
    decode-encode = decode-encode_request;
  }

  -- `Sha256::digest(self.encode())`
  unfoldable pub id : (Bytes → Bytes) → DecryptionRequest → Bytes
  unfolding encode_request
  id sha256 r = sha256 (encode_request r)
