-- ===== src/Crypto/Decrypt.antt =====
-- fangorn/src/crypto/decrypt.rs, and how fangorn/src/crypto/cipher.rs reads the witnesses: the client
-- that asks for decryption. The pool and the node's address are parameters.
pub mod Witnesses
use fangorn_rs.Prelude.{◌≡◌, some, List, map}
use fangorn_rs.Rust.Outcome.{Outcome, ok}
use fangorn_rs.Rust.Text.{Text, trim, split, as_bytes}
use fangorn_rs.Backend.{AnyError}
use fangorn_rs.Gadget.Codec.{Bytes, Scale, decode_all, decode_all-encode}
use fangorn_rs.Gadget.Sr25519.{Hex}
use fangorn_rs.Pool.{DecryptionRequest}

-- `witness_string.trim().split(',').map(|s| s.trim())`
unfoldable pub parse_witnesses : Text → List Text
parse_witnesses witness_string = map trim (split b',' (trim witness_string))

module _ (hex : Hex) (witnesses : Scale (List Bytes)) where
  unfoldable pub encode_witnesses : List Text → Bytes
  encode_witnesses ws = hex.encode (witnesses.encode (map as_bytes ws))

  -- The request of a client at `location`.
  unfoldable pub decryption_request : Bytes → Text → List Text → DecryptionRequest
  unfolding encode_witnesses
  decryption_request location filename ws = record {
    filename = as_bytes filename;
    witness_hex = encode_witnesses ws;
    location = location;
  }

  -- `add` is the pool's. What it returns is not looked at.
  unfoldable pub request_decrypt :
      {S : Type 0}
      → (DecryptionRequest → S → Outcome AnyError (Unit {0}) × S)
      → Bytes
      → Text
      → List Text
      → S
      → Outcome AnyError (Unit {0}) × S
  request_decrypt add location filename ws s =
      (ok tt, (add (decryption_request location filename ws) s).1)

  -- What a node decodes from a client's request are the client's witnesses, as bytes.
  pub decode_all-decryption_request :
      (location : Bytes) (filename : Text) (ws : List Text)
      → (b : Bytes) × (hex.decode (decryption_request location filename ws).witness_hex ≡ some b)
        × (decode_all witnesses b ≡ some (map as_bytes ws))
  unfolding decryption_request
  decode_all-decryption_request location filename ws = (
    witnesses.encode (map as_bytes ws),
    hex.decode-encode (witnesses.encode (map as_bytes ws)),
    decode_all-encode witnesses (map as_bytes ws),
  )
