-- ===== src/Service/Request.antt =====
-- fangorn/src/node/service.rs: `process_decryption_request`, how a node answers a request from the
-- pool. What it calls outside this file comes as parameters: the stores, the vault's key, the
-- connection to the recipient and the pool.
pub mod Authorized
pub mod Answered
pub mod Examples
use fangorn_rs.Prelude.{
  ℕ, Bool, true, false, Option, none, some, List, [], ◌∷◌, ltb, ◌==◌, if◌then◌else◌, ℕ-Eq, List-Eq,
}
use fangorn_rs.Rust.Outcome.{Outcome, ok, err, panic, unwrap, unwrap_result, ◌>>=◌}
use fangorn_rs.Backend.{AnyError}
use fangorn_rs.Gadget.Codec.{Bytes, Scale}
use fangorn_rs.Gadget.{GadgetRegistry, Intent, IntentError, verify_intents}
use fangorn_rs.Gadget.Sr25519.{Hex}
use fangorn_rs.Pool.{DecryptionRequest, PartialDecryptionMessage}

-- What came of the connection to the recipient: none was made, sending or reading failed, or this
-- was the response.
pub data Delivery : Type 0 where
  refused : Delivery
  broken : AnyError → Delivery
  response : Bytes → Delivery

pub record Services (W : Type 0) : Type 1 where
  pub Cid : Type 0
  pub Ciphertext : Type 0
  pub PartialDecryption : Type 0
  pub Address : Type 0
  -- the intent store and the document store
  pub get_intent : Bytes → Outcome AnyError (Option (Cid × List (Intent W)))
  pub fetch : Cid → Outcome AnyError (Option Bytes)
  -- the threshold encryption with the key of this node
  pub deserialize : Bytes → Option Ciphertext
  pub partial_decryption : Ciphertext → Outcome AnyError PartialDecryption
  pub serialize : PartialDecryption → Bytes
  -- `serde_json::from_slice` of a location
  pub address : Bytes → Option Address
  pub deliver : Address → Bytes → Delivery
  -- `submit_partial_attestation` of the pool
  pub submit : Bytes → Bytes → Outcome AnyError (Unit {0})

-- What a node has done for a request, oldest first. On a connection that then breaks, the message
-- counts as sent.
pub data Effect (A : Type 0) : Type 0 where
  sends : A → Bytes → Effect A
  attests : Bytes → Bytes → Effect A

-- A verdict of `verify_intents`; an error is printed, and counts as a refusal.
abbrev pub verdict : Outcome IntentError Bool → Outcome AnyError Bool
verdict (ok b) = ok b
verdict (err e) = ok false
verdict panic = panic

-- `index.try_into().unwrap()` for a `u8`
abbrev pub to_u8 : ℕ → Outcome AnyError ℕ
to_u8 index = if ltb index 256 then ok index else panic

module _ {W : Type 0} (services : Services W) (hex : Hex) (witnesses : Scale (List Bytes))
    (message : Scale PartialDecryptionMessage) (id : DecryptionRequest → Bytes)
    (registry : GadgetRegistry W) (world : W) (index : ℕ) where
  open services use {
    Cid, Address, get_intent, fetch, deserialize, partial_decryption, serialize, address, deliver,
    submit,
  }

  -- The message for a ciphertext, and where it goes.
  abbrev pub respond :
      DecryptionRequest → Option Bytes → Outcome AnyError (Option (Address × Bytes))
  respond req none = ok none
  respond req (some ciphertext_bytes) = do
    ciphertext ← unwrap (deserialize ciphertext_bytes)
    partial ← unwrap_result (partial_decryption ciphertext)
    index ← to_u8 index
    receiver_endpoint_addr ← unwrap (address req.location)
    let pd_message : PartialDecryptionMessage = record {
      filename = req.filename;
      index = index;
      partial_decryption_bytes = serialize partial;
    }
    ok (some (receiver_endpoint_addr, message.encode pd_message))

  -- The part before the connection: `none` where the node does not answer.
  unfoldable pub prepare : DecryptionRequest → Outcome AnyError (Option (Address × Bytes))
  prepare req = do
    witness ← unwrap (hex.decode req.witness_hex)
    found ← unwrap_result (get_intent req.filename)
    entry ← unwrap found
    verified ← verdict (verify_intents witnesses registry world entry.1 witness)
    if verified then (do data' ← unwrap_result (fetch entry.0); respond req data') else ok none

  abbrev pub attested :
      DecryptionRequest
      → Address
      → Bytes
      → Outcome AnyError (Unit {0})
      → Outcome AnyError (Unit {0}) × List (Effect Address)
  attested req to msg (ok done) = (ok tt, sends to msg ∷ attests (id req) [] ∷ [])
  attested req to msg (err e) = (panic, sends to msg ∷ [])
  attested req to msg panic = (panic, sends to msg ∷ [])

  -- The part after the connection. Only an echo of the message is attested.
  abbrev pub delivered :
      DecryptionRequest
      → Address
      → Bytes
      → Delivery
      → Outcome AnyError (Unit {0}) × List (Effect Address)
  delivered req to msg refused = (ok tt, [])
  delivered req to msg (broken e) = (err e, sends to msg ∷ [])
  delivered req to msg (response echo) =
      if echo == msg then attested req to msg (submit (id req) []) else (ok tt, sends to msg ∷ [])

  abbrev pub answer :
      DecryptionRequest
      → Outcome AnyError (Option (Address × Bytes))
      → Outcome AnyError (Unit {0}) × List (Effect Address)
  answer req (ok none) = (ok tt, [])
  answer req (ok (some (to, msg))) = delivered req to msg (deliver to msg)
  answer req (err e) = (err e, [])
  answer req panic = (panic, [])

  unfoldable pub process_decryption_request :
      DecryptionRequest → Outcome AnyError (Unit {0}) × List (Effect Address)
  unfolding prepare
  process_decryption_request req = answer req (prepare req)
