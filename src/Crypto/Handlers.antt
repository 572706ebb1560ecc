-- ===== src/Crypto/Handlers.antt =====
-- fangorn/src/crypto/cipher.rs: `handle_encrypt` and `handle_decrypt`, with the constructors of the two
-- clients (encrypt.rs and decrypt.rs). The stores, the pool and the threshold encryption are
-- parameters. The node is the one of node/node.rs, with its channel.
pub mod EndToEnd
use fangorn_rs.Prelude.{ℕ, Bool, Option, none, some, List}
use fangorn_rs.Rust.Outcome.{Outcome, ok, err, panic, ok_or, unwrap, unwrap_result, ◌>>=◌}
use fangorn_rs.Rust.Text.{Text, codes, as_bytes, from_utf8}
use fangorn_rs.Backend.{AnyError}
use fangorn_rs.Gadget.Codec.{Bytes, Scale}
use fangorn_rs.Gadget.Syntax.{Nom}
use fangorn_rs.Gadget.Sr25519.{Hex}
use fangorn_rs.Gadget.{GadgetRegistry, IntentError}
use fangorn_rs.Pool.{DecryptionRequest}
use fangorn_rs.Client.{RawPartialDecryptionMessage}
use fangorn_rs.Node.Channel.{pd_rx}
use fangorn_rs.Storage.DocStore.{Files, read_plaintext, write_plaintext}
use fangorn_rs.Crypto.AppStore.{AppStore}
use fangorn_rs.Crypto.Encrypt.{Encryption, encrypt}
use fangorn_rs.Crypto.Decrypt.{parse_witnesses, request_decrypt}
use fangorn_rs.Crypto.Collect.{Decryption, collect}

pub data DecryptionClientError : Type 0 where
  docstore_error intent_store_error decryption_error : Text → DecryptionClientError
  serialization_error deserialization_error ciphertext_not_found : DecryptionClientError
  rpc_error decoding_error config_read_error plaintext_write_error : Text → DecryptionClientError
  intent_not_found lookup_error : Text → DecryptionClientError
  missing_rpc_address : ℕ → DecryptionClientError

-- The threshold encryption over a config and the system keys. `positions` are those of the aggregate
-- key of the subset 0 and 1.
pub record Schemes : Type 1 where
  pub Config : Type 0
  pub deserialize_config : Bytes → Option Config
  pub encryption : Config → Encryption
  pub PartialDecryption : Type 0
  pub Ciphertext : Type 0
  pub zero_decryption : PartialDecryption
  pub deserialize : Bytes → Option Ciphertext
  pub agg_dec : Config → List PartialDecryption → Ciphertext → List Bool → Outcome AnyError Bytes
  pub positions : Config → List ℕ

-- What a client's decryption uses.
abbrev pub decryption : (schemes : Schemes) → schemes.Config → Decryption
decryption schemes config = record {
  Ciphertext = schemes.Ciphertext;
  PartialDecryption = schemes.PartialDecryption;
  zero_decryption = schemes.zero_decryption;
  deserialize = schemes.deserialize;
  agg_dec = schemes.agg_dec config;
}

abbrev pub pt_dir : Text
pt_dir = codes "tmp/plaintexts/"

module _ {F : Type 0} (files : Files F) (hex : Hex) (schemes : Schemes) where
  -- `fs::read_to_string`
  abbrev pub read_to_string : Text → F → Option Text
  read_to_string path f = elim (files.read_file f path) [
    | none ↦ none
    | some contents ↦ from_utf8 contents
  ]

  -- The config of `EncryptionClient::new`.
  unfoldable pub encryption_config : Text → F → Outcome AnyError schemes.Config
  encryption_config config_path f = do
    config_hex ← unwrap (read_to_string config_path f)
    config_bytes ← unwrap (hex.decode (as_bytes config_hex))
    unwrap (schemes.deserialize_config config_bytes)

  -- The config of `DecryptionClient::new`.
  unfoldable pub decryption_config : Text → F → Outcome DecryptionClientError schemes.Config
  decryption_config config_path f = do
    config_hex ← ok_or (read_to_string config_path f) (config_read_error config_path)
    config_bytes ← ok_or (hex.decode (as_bytes config_hex)) (decoding_error config_hex)
    ok_or (schemes.deserialize_config config_bytes) deserialization_error

  module _ {W : Type 0} (store : AppStore W) where
    module _ (nom : Nom) (registry : GadgetRegistry W) (show_error : IntentError → Text) where
      -- The encryption of a message that was read, behind the making of the client.
      abbrev pub encrypt_message :
          Text
          → Text
          → Outcome AnyError (Bytes × schemes.Config)
          → store.State
          → Outcome AnyError (Unit {0}) × store.State
      encrypt_message filename intent_str (ok (message, config)) s =
          let out =
            encrypt nom (schemes.encryption config) store registry show_error message
              (as_bytes filename) intent_str s in
          (unwrap_result out.0, out.1)
      encrypt_message filename intent_str (err e) s = (err e, s)
      encrypt_message filename intent_str panic s = (panic, s)

      -- `s` are the stores that `iroh_testnet_setup` has opened.
      unfoldable pub handle_encrypt :
          Text → Text → Text → Text → store.State → F → Outcome AnyError (Unit {0}) × store.State
      unfolding read_plaintext encryption_config encrypt
      handle_encrypt message_path filename config_path intent_str s f =
          encrypt_message filename intent_str
            (do
              message ← unwrap_result (read_plaintext F files pt_dir message_path f)
              config ← encryption_config config_path f
              ok (message, config))
            s

    module _ {P : Type 0} (witnesses : Scale (List Bytes))
        (add : DecryptionRequest → P → Outcome AnyError (Unit {0}) × P) (location : Bytes) where
      -- The task that handles the first message, and the wait for it: where the task panics or the
      -- channel closes, the wait panics.
      abbrev pub written : Outcome AnyError (Text × Bytes) → F → Outcome AnyError (Unit {0}) × F
      written (ok (filename, plain_bytes)) f =
          let out = write_plaintext F files pt_dir filename plain_bytes f in
          (unwrap_result out.0, out.1)
      written (err e) f = (panic, f)
      written panic f = (panic, f)

      abbrev pub received :
          schemes.Config
          → Option (RawPartialDecryptionMessage schemes.PartialDecryption)
          → store.State
          → F
          → Outcome AnyError (Unit {0}) × F
      received config none s f = (panic, f)
      received config (some raw) s f =
          written (collect (decryption schemes config) (schemes.positions config) store raw s) f

      -- What follows a request, whose failure ends the call in silence: the first message on the node's
      -- channel is taken.
      abbrev pub requested :
          schemes.Config
          → store.State
          → F
          → Outcome AnyError (Unit {0}) × P
          → Outcome AnyError (Unit {0}) × (P × F)
      requested config s f (ok done, p) = let out = received config pd_rx s f in (out.0, (p, out.1))
      requested config s f (err e, p) = (ok tt, (p, f))
      requested config s f (panic, p) = (panic, (p, f))

      abbrev pub with_client :
          Text
          → Text
          → store.State
          → P
          → F
          → Outcome DecryptionClientError schemes.Config
          → Outcome AnyError (Unit {0}) × (P × F)
      with_client filename witness_string s p f (ok config) =
          requested config s f
            (request_decrypt hex witnesses add location filename (parse_witnesses witness_string) p)
      with_client filename witness_string s p f (err e) = (panic, (p, f))
      with_client filename witness_string s p f panic = (panic, (p, f))

      -- `setup` is what `iroh_testnet_setup` has made: the stores, or `none` where it panics, without a
      -- chain or without a ticket that can be imported.
      unfoldable pub handle_decrypt :
          Text → Text → Text → Option store.State → P → F → Outcome AnyError (Unit {0}) × (P × F)
      unfolding decryption_config parse_witnesses request_decrypt collect write_plaintext pd_rx
      handle_decrypt config_path filename witness_string (some s) p f =
          with_client filename witness_string s p f (decryption_config config_path f)
      handle_decrypt config_path filename witness_string none p f = (panic, (p, f))
