-- ===== src/Crypto/Handlers/EndToEnd.antt =====
-- What the calls of fangorn/src/crypto/cipher.rs do: an encryption that returns, and a decryption,
-- which does not.
use fangorn_rs.Prelude.{◌≡◌, refl, ap, ◌∙◌, Option, none, some, List}
use fangorn_rs.Rust.Outcome.{Outcome, ok, err, panic, unwrap, unwrap_result, >>=-eq-ok}
use fangorn_rs.Rust.Text.{Text, as_bytes}
use fangorn_rs.Backend.{AnyError}
use fangorn_rs.Gadget.Codec.{Bytes, Scale}
use fangorn_rs.Gadget.Syntax.{Nom}
use fangorn_rs.Gadget.Sr25519.{Hex}
use fangorn_rs.Gadget.{GadgetRegistry, IntentError}
use fangorn_rs.Pool.{DecryptionRequest}
use fangorn_rs.Storage.DocStore.{Files, read_plaintext}
use fangorn_rs.Node.Channel.{pd_rx}
use fangorn_rs.Crypto.AppStore.{AppStore}
use fangorn_rs.Crypto.Encrypt.{EncryptionClientError, encrypt}
use fangorn_rs.Crypto.Decrypt.{request_decrypt}
use fangorn_rs.Crypto.Handlers.{
  Schemes, DecryptionClientError, with_client, encryption_config, decryption_config,
  encrypt_message, handle_encrypt, handle_decrypt,
}

module _ {F : Type 0} (files : Files F) (hex : Hex) (schemes : Schemes) where
  -- No decryption returns: the node that node/node.rs has built has no sender on its channel, so that
  -- the call panics, whatever the config, the stores and the pool.
  pub handle_decrypt-pd_rx :
      {W P : Type 0} (store : AppStore W) (witnesses : Scale (List Bytes))
      (add : DecryptionRequest → P → Outcome AnyError (Unit {0}) × P) (location : Bytes)
      (config_path filename witness_string : Text) (setup : Option store.State) (p : P) (f : F)
      → (handle_decrypt files hex schemes store witnesses add location config_path filename
          witness_string setup p f).0
        ≡ panic
  unfolding handle_decrypt request_decrypt pd_rx
  handle_decrypt-pd_rx store witnesses add location config_path filename witness_string none p f =
      refl
  handle_decrypt-pd_rx store witnesses add location config_path filename witness_string (some s) p
        f =
      panics (decryption_config files hex schemes config_path f)
    where
      panics :
          (m : Outcome DecryptionClientError schemes.Config)
          → (with_client files hex schemes store witnesses add location filename witness_string s p
              f m).0
            ≡ panic
      panics (ok config) = refl
      panics (err e) = refl
      panics panic = refl

  module _ {W : Type 0} (store : AppStore W) (nom : Nom) (registry : GadgetRegistry W)
      (show_error : IntentError → Text) where
    unwrapped :
        (out : Outcome EncryptionClientError (Unit {0}) × store.State) (s' : store.State)
        → ◌≡◌ {A = Outcome AnyError (Unit {0}) × store.State}
            (unwrap_result out.0, out.1)
            (ok tt, s')
        → out ≡ (ok tt, s')
    unwrapped (ok done, s) s' h = λ i. (ok tt, (h i).1)
    unwrapped (err e, s) s' h = absurd (cc (ap (λ p. p.0) h))
    unwrapped (panic, s) s' h = absurd (cc (ap (λ p. p.0) h))

    encrypt_message-eq-ok :
        (filename intent_str : Text) (m : Outcome AnyError (Bytes × schemes.Config))
        (s s' : store.State)
        → encrypt_message files hex schemes store nom registry show_error filename intent_str m s
          ≡ (ok tt, s')
        → (pt : Bytes) × (config : schemes.Config) × (m ≡ ok (pt, config))
          × (encrypt nom
                (schemes.encryption config)
                store
                registry
                show_error
                pt
                (as_bytes filename)
                intent_str
                s
              ≡ (ok tt, s'))
    encrypt_message-eq-ok filename intent_str (ok (pt, config)) s s' h =
        (pt, config, refl, unwrapped _ s' h)
    encrypt_message-eq-ok filename intent_str (err e) s s' h = absurd (cc (ap (λ p. p.0) h))
    encrypt_message-eq-ok filename intent_str panic s s' h = absurd (cc (ap (λ p. p.0) h))

    -- What a call that returned has read and encrypted.
    pub handle_encrypt-eq-ok :
        (message_path filename config_path intent_str : Text) (s s' : store.State) (f : F)
        → handle_encrypt files hex schemes store nom registry show_error message_path filename
            config_path intent_str s f
          ≡ (ok tt, s')
        → (pt : Bytes) × (config : schemes.Config) × (files.read_file f message_path ≡ some pt)
          × (encryption_config files hex schemes config_path f ≡ ok config)
          × (encrypt nom
                (schemes.encryption config)
                store
                registry
                show_error
                pt
                (as_bytes filename)
                intent_str
                s
              ≡ (ok tt, s'))
    unfolding handle_encrypt read_plaintext
    handle_encrypt-eq-ok message_path filename config_path intent_str s s' f h =
        let (pt, config, both, done) = encrypt_message-eq-ok filename intent_str _ s s' h in
        let (pt', read, rest) =
          >>=-eq-ok (unwrap_result (unwrap (files.read_file f message_path))) _ both in
        let (config', configured, made) =
          >>=-eq-ok (encryption_config files hex schemes config_path f) _ rest in
        (
          pt,
          config,
          was_read (files.read_file f message_path) pt' read ∙ ap some (cc made),
          configured ∙ ap ok (cc made),
          done,
        )
      where
        was_read :
            (o : Option Bytes) (b : Bytes)
            → unwrap_result {F = AnyError} (unwrap {E = AnyError} o) ≡ ok b
            → o ≡ some b
        was_read none b h = cc
        was_read (some c) b h = cc
