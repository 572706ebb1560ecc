-- ===== src/Crypto/Collect.antt =====
-- fangorn/src/crypto/cipher.rs: how `handle_decrypt` turns the first partial decryption that arrives
-- into the plaintext. The threshold encryption is a parameter.
use fangorn_rs.Prelude.{
  ◌<◌, arith, ℕ, ◌≡◌, refl, Bool, true, false, Option, some, List, length, get_elem?, set,
  replicate, ltb, if◌then◌else◌,
}
use fangorn_rs.Rust.Outcome.{Outcome, ok, panic, unwrap, unwrap_result, ◌>>=◌}
use fangorn_rs.Rust.Text.{Text, as_bytes, from_utf8, IsText, from_utf8-as_bytes}
use fangorn_rs.Backend.{AnyError}
use fangorn_rs.Gadget.Codec.{Bytes}
use fangorn_rs.Gadget.Syntax.{Nom}
use fangorn_rs.Gadget.{GadgetRegistry, IntentError}
use fangorn_rs.Types.{max_committee_size}
use fangorn_rs.Client.{RawPartialDecryptionMessage}
use fangorn_rs.Crypto.AppStore.{AppStore}
use fangorn_rs.Crypto.Encrypt.{Encryption, encrypt_inner, encrypt, encrypt-stored}

pub record Decryption : Type 1 where
  pub Ciphertext : Type 0
  pub PartialDecryption : Type 0
  -- `PartialDecryption::zero()`
  pub zero_decryption : PartialDecryption
  pub deserialize : Bytes → Option Ciphertext
  -- `agg_dec(partial_decryptions, ciphertext, selector, ..)`
  pub agg_dec : List PartialDecryption → Ciphertext → List Bool → Outcome AnyError Bytes

-- `vec![false; MAX_COMMITTEE_SIZE]` with its first entry set.
abbrev pub selector : List Bool
selector = set (replicate max_committee_size false) 0 true

module _ (scheme : Decryption) (positions : List ℕ) where
  open scheme use {Ciphertext, PartialDecryption, zero_decryption, deserialize, agg_dec}

  -- `partial_decryptions[pks[idx].position] = partial_decryption`, with `idx` at 0, where `positions`
  -- are those of the aggregate key. An index out of range is a panic.
  unfoldable pub place : PartialDecryption → Outcome AnyError (List PartialDecryption)
  place pd = do
    position ← unwrap (get_elem? positions 0)
    if ltb position (length positions)
        then ok (set (replicate (length positions) zero_decryption) position pd)
        else panic

  module _ {W : Type 0} (store : AppStore W) where
    -- The filename and the plaintext that are then written.
    unfoldable pub collect :
        RawPartialDecryptionMessage PartialDecryption
        → store.State
        → Outcome AnyError (Text × Bytes)
    unfolding place
    collect raw s = do
      partial_decryptions ← place raw.partial_decryption
      found ← unwrap_result (store.get_intent raw.filename s)
      entry ← unwrap found
      held ← unwrap_result (store.fetch entry.0 s)
      ciphertext_bytes ← unwrap held
      ciphertext ← unwrap (deserialize ciphertext_bytes)
      plain_bytes ← unwrap_result (agg_dec partial_decryptions ciphertext selector)
      filename ← unwrap (from_utf8 raw.filename)
      ok (filename, plain_bytes)

    -- What a client encrypted under a filename, a client decrypts to the same plaintext under the same
    -- filename, on a store that keeps its promises: after the encryption, the first partial decryption
    -- for the file gives the plaintext back. The scheme decrypts what it encrypted with the partial
    -- decryption at the first position of the aggregate key, which is in range.
    pub collect-encrypt :
        (nom : Nom) (encryption : Encryption) (registry : GadgetRegistry W)
        (show : IntentError → Text)
        → (pt : Bytes) (filename raw_intent : Text) (s s' : store.State)
        → (pd : PartialDecryption) (index position : ℕ) → IsText filename
        → encrypt nom encryption store registry show pt (as_bytes filename) raw_intent s
          ≡ (ok tt, s')
        → get_elem? positions 0 ≡ some position
        → position < length positions
        → ((b : Bytes)
            → encrypt_inner nom encryption store registry show pt ≡ ok b
            → (ct : Ciphertext) × (deserialize b ≡ some ct)
              × (agg_dec
                    (set (replicate (length positions) zero_decryption) position pd)
                    ct
                    selector
                  ≡ ok pt))
        → collect
            (record { filename = as_bytes filename; index = index; partial_decryption = pd })
            s'
          ≡ ok (filename, pt)
    unfolding collect place
    collect-encrypt nom encryption registry show pt filename raw_intent s s' pd index position text
          done first inside correct =
        let (is, c, b, parsed, made, found, held) =
          encrypt-stored nom encryption store registry show pt (as_bytes filename) raw_intent s s'
            done in
        let (ct, known, plain) = correct b made in
        let in_range : ltb position (length positions) ≡ true = ground (arith, inside) in
        rw (first, in_range, found, held, known, plain, from_utf8-as_bytes filename text) refl
