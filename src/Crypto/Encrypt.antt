-- ===== src/Crypto/Encrypt.antt =====
-- fangorn/src/crypto/encrypt.rs: the encryption client. The threshold encryption is a parameter.
use fangorn_rs.Prelude.{ℕ, ◌≡◌, refl, ap, ◌∙◌, Option, none, some, List, [], ◌∷◌, map}
use fangorn_rs.Rust.Outcome.{Outcome, ok, err, panic, map_err, ◌>>=◌}
use fangorn_rs.Rust.Text.{Text, codes}
use fangorn_rs.Backend.{AnyError}
use fangorn_rs.Gadget.Codec.{Bytes}
use fangorn_rs.Gadget.Syntax.{Nom}
use fangorn_rs.Gadget.{GadgetRegistry, Intent, IntentError, parse_intents}
use fangorn_rs.Storage.IntentStore.Chain.{without_gadget}
use fangorn_rs.Crypto.AppStore.{AppStore}

pub data EncryptionClientError : Type 0 where
  docstore_error encryption_error intent_parsing_error : Text → EncryptionClientError
  serialization_error : EncryptionClientError

-- `silent_threshold_encryption` with a config and system keys.
pub record Encryption : Type 1 where
  pub Point : Type 0
  pub Key : Type 0
  pub Ciphertext : Type 0
  pub sha256 : Bytes → Bytes
  -- `hash_to_g2(commitment, context)`
  pub hash_to_g2 : Bytes → Bytes → Point
  -- `system_keys.get_aggregate_key(subset, crs, lag_polys)`
  pub aggregate_key : List ℕ → Key
  pub encrypt : Key → ℕ → Point → Bytes → Outcome AnyError Ciphertext
  pub serialize : Ciphertext → Option Bytes

abbrev serialized : Option Bytes → Outcome EncryptionClientError Bytes
serialized none = err serialization_error
serialized (some b) = ok b

-- `threshold`, which the constructor sets.
abbrev pub threshold : ℕ
threshold = 1

module _ {W : Type 0} (nom : Nom) (scheme : Encryption) (store : AppStore W)
    (registry : GadgetRegistry W) (show_error : IntentError → Text) where
  unfoldable pub encrypt_inner : Bytes → Outcome EncryptionClientError Bytes
  encrypt_inner plaintext = do
    let commitment = scheme.sha256 plaintext
    let gamma_g2 = scheme.hash_to_g2 commitment (codes "fangorn")
    let ek = scheme.aggregate_key (0 ∷ threshold ∷ [])
    ciphertext ← map_err encryption_error (scheme.encrypt ek threshold gamma_g2 plaintext)
    serialized (scheme.serialize ciphertext)

  abbrev pub registered :
      Outcome AnyError (Unit {0}) × store.State
      → Outcome EncryptionClientError (Unit {0}) × store.State
  registered (ok done, s) = (ok tt, s)
  registered (err e, s) = (panic, s)
  registered (panic, s) = (panic, s)

  abbrev pub stored :
      Bytes
      → List (Intent W)
      → Outcome AnyError store.Cid × store.State
      → Outcome EncryptionClientError (Unit {0}) × store.State
  stored filename intents (ok cid, s) = registered (store.register_intent filename cid intents s)
  stored filename intents (err e, s) = (err (docstore_error e), s)
  stored filename intents (panic, s) = (panic, s)

  abbrev pub encrypted :
      Bytes
      → List (Intent W)
      → Outcome EncryptionClientError Bytes
      → store.State
      → Outcome EncryptionClientError (Unit {0}) × store.State
  encrypted filename intents (ok ciphertext) s = stored filename intents (store.add ciphertext s)
  encrypted filename intents (err e) s = (err e, s)
  encrypted filename intents panic s = (panic, s)

  abbrev pub parsed :
      Bytes
      → Bytes
      → Outcome IntentError (List (Intent W))
      → store.State
      → Outcome EncryptionClientError (Unit {0}) × store.State
  parsed plaintext filename (ok intents) s = encrypted filename intents (encrypt_inner plaintext) s
  parsed plaintext filename (err e) s = (err (intent_parsing_error (show_error e)), s)
  parsed plaintext filename panic s = (panic, s)

  -- The intents are parsed first, then the ciphertext is stored, then the intents are registered.
  unfoldable pub encrypt :
      Bytes → Bytes → Text → store.State → Outcome EncryptionClientError (Unit {0}) × store.State
  encrypt plaintext filename raw_intent s =
      parsed plaintext filename (parse_intents nom registry raw_intent) s

  registered-eq-ok :
      (out : Outcome AnyError (Unit {0}) × store.State) (s' : store.State)
      → registered out ≡ (ok tt, s')
      → out ≡ (ok tt, s')
  registered-eq-ok (ok done, s) s' h = λ i. (ok tt, (h i).1)
  registered-eq-ok (err e, s) s' h = absurd (cc (ap (λ p. p.0) h))
  registered-eq-ok (panic, s) s' h = absurd (cc (ap (λ p. p.0) h))

  stored-eq-ok :
      (f ct : Bytes) (is : List (Intent W)) (s s' : store.State)
      → (out : Outcome AnyError store.Cid × store.State) → store.add ct s ≡ out
      → stored f is out ≡ (ok tt, s')
      → (c : store.Cid) × (store.get_intent f s' ≡ ok (some (c, map without_gadget is)))
        × (store.fetch c s' ≡ ok (some ct))
  stored-eq-ok f ct is s s' (ok c, mid) e h =
      let done = registered-eq-ok (store.register_intent f c is mid) s' h in
      (
        c,
        store.get-register_law f c is mid s' done,
        store.fetch-register_law f c c is mid s' done ∙ store.fetch-add_law ct c s mid e,
      )
  stored-eq-ok f ct is s s' (err x, mid) e h = absurd (cc (ap (λ p. p.0) h))
  stored-eq-ok f ct is s s' (panic, mid) e h = absurd (cc (ap (λ p. p.0) h))

  encrypted-eq-ok :
      (f : Bytes) (is : List (Intent W)) (m : Outcome EncryptionClientError Bytes)
      (s s' : store.State)
      → encrypted f is m s ≡ (ok tt, s')
      → (c : store.Cid) × (ct : Bytes) × (m ≡ ok ct)
        × (store.get_intent f s' ≡ ok (some (c, map without_gadget is)))
        × (store.fetch c s' ≡ ok (some ct))
  encrypted-eq-ok f is (ok ct) s s' h =
      let (c, found, held) = stored-eq-ok f ct is s s' (store.add ct s) refl h in
      (c, ct, refl, found, held)
  encrypted-eq-ok f is (err x) s s' h = absurd (cc (ap (λ p. p.0) h))
  encrypted-eq-ok f is panic s s' h = absurd (cc (ap (λ p. p.0) h))

  parsed-eq-ok :
      (pt f : Bytes) (m : Outcome IntentError (List (Intent W))) (s s' : store.State)
      → parsed pt f m s ≡ (ok tt, s')
      → (is : List (Intent W)) × (c : store.Cid) × (ct : Bytes) × (m ≡ ok is)
        × (encrypt_inner pt ≡ ok ct)
        × (store.get_intent f s' ≡ ok (some (c, map without_gadget is)))
        × (store.fetch c s' ≡ ok (some ct))
  parsed-eq-ok pt f (ok is) s s' h =
      let (c, ct, made, found, held) = encrypted-eq-ok f is (encrypt_inner pt) s s' h in
      (is, c, ct, refl, made, found, held)
  parsed-eq-ok pt f (err x) s s' h = absurd (cc (ap (λ p. p.0) h))
  parsed-eq-ok pt f panic s s' h = absurd (cc (ap (λ p. p.0) h))

  -- After a successful encryption the stores hold the file: the intents that the raw intent parses to
  -- are found under the filename, without their gadgets, together with a cid, under which the
  -- ciphertext of the plaintext is fetched.
  pub encrypt-stored :
      (pt f : Bytes) (raw_intent : Text) (s s' : store.State)
      → encrypt pt f raw_intent s ≡ (ok tt, s')
      → (is : List (Intent W)) × (c : store.Cid) × (ct : Bytes) × (parse_intents nom registry
            raw_intent
          ≡ ok is)
        × (encrypt_inner pt ≡ ok ct)
        × (store.get_intent f s' ≡ ok (some (c, map without_gadget is)))
        × (store.fetch c s' ≡ ok (some ct))
  unfolding encrypt
  encrypt-stored pt f raw_intent s s' h =
      parsed-eq-ok pt f (parse_intents nom registry raw_intent) s s' h

  encrypted-rejected :
      (f : Bytes) (is : List (Intent W)) (m : Outcome EncryptionClientError Bytes) (s : store.State)
      → ((ct : Bytes) → ¬ (m ≡ ok ct))
      → ((encrypted f is m s).1 ≡ s) × ¬ ((encrypted f is m s).0 ≡ ok tt)
  encrypted-rejected f is (ok ct) s h = absurd (h ct refl)
  encrypted-rejected f is (err e) s h = (refl, λ k. cc k)
  encrypted-rejected f is panic s h = (refl, λ k. cc k)

  parsed-rejected :
      (pt f : Bytes) (m : Outcome IntentError (List (Intent W))) (s : store.State)
      → ((is : List (Intent W)) (ct : Bytes) → m ≡ ok is → ¬ (encrypt_inner pt ≡ ok ct))
      → ((parsed pt f m s).1 ≡ s) × ¬ ((parsed pt f m s).0 ≡ ok tt)
  parsed-rejected pt f (ok is) s h =
      encrypted-rejected f is (encrypt_inner pt) s (λ ct. h is ct refl)
  parsed-rejected pt f (err e) s h = (refl, λ k. cc k)
  parsed-rejected pt f panic s h = (refl, λ k. cc k)

  -- An encryption whose intents do not parse, or whose plaintext does not encrypt, fails with an error
  -- or a panic and leaves the stores as they were.
  pub encrypt-rejected :
      (pt f : Bytes) (raw_intent : Text) (s : store.State)
      → ((is : List (Intent W)) (ct : Bytes)
          → parse_intents nom registry raw_intent ≡ ok is
          → ¬ (encrypt_inner pt ≡ ok ct))
      → ((encrypt pt f raw_intent s).1 ≡ s) × ¬ ((encrypt pt f raw_intent s).0 ≡ ok tt)
  unfolding encrypt
  encrypt-rejected pt f raw_intent s h =
      parsed-rejected pt f (parse_intents nom registry raw_intent) s h
