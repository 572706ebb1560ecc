-- ===== src/Service/Request/Authorized.antt =====
-- What `process_decryption_request` of fangorn/src/node/service.rs has found out when it has prepared a
-- partial decryption.
use fangorn_rs.Prelude.{
  ℕ, ◌≡◌, ◌<◌, refl, ap, sym, ◌∙◌, Bool, true, false, Option, none, some, List, length,
  if◌then◌else◌, ℕ-Eq, List-Eq, arith,
}
use fangorn_rs.Rust.Outcome.{
  Outcome, ok, err, panic, unwrap, unwrap_result, ◌>>=◌, >>=-eq-ok, unwrap-eq-ok,
}
use fangorn_rs.Backend.{AnyError}
use fangorn_rs.Gadget.Codec.{Bytes, Scale, decode_all}
use fangorn_rs.Gadget.{GadgetRegistry, Intent, IntentError, verify_intents}
use fangorn_rs.Gadget.Verification.{AllVerified, verify_intents_iff}
use fangorn_rs.Gadget.Sr25519.{Hex}
use fangorn_rs.Pool.{DecryptionRequest, PartialDecryptionMessage}
use fangorn_rs.Service.Request.{Services, verdict, to_u8, respond, prepare}

unwrap_result-eq-ok :
    {E F A : Type 0} (m : Outcome E A) {a : A} → unwrap_result {F = F} m ≡ ok a → m ≡ ok a
unwrap_result-eq-ok (ok a) h = cc
unwrap_result-eq-ok (err e) h = cc
unwrap_result-eq-ok panic h = cc

verdict-true : (m : Outcome IntentError Bool) → verdict m ≡ ok true → m ≡ ok true
verdict-true (ok b) h = ground (arith, h)
verdict-true (err e) h = ground (arith, h)
verdict-true panic h = cc

to_u8-eq-ok : (i : ℕ) (n : ℕ) → to_u8 i ≡ ok n → (i < 256) × (n ≡ i)
to_u8-eq-ok i n h = ground (arith, h)

module _ {W : Type 0} (services : Services W) (hex : Hex) (witnesses : Scale (List Bytes))
    (message : Scale PartialDecryptionMessage) (id : DecryptionRequest → Bytes)
    (registry : GadgetRegistry W) (world : W) (index : ℕ) where
  open services use {
    Cid, Ciphertext, PartialDecryption, Address, get_intent, fetch, deserialize, partial_decryption,
    serialize, address, deliver, submit,
  }

  -- The witness of the request decodes to one witness for each intent that is registered for the
  -- file, every intent accepts its own, and `msg` is this node's partial decryption of the file's
  -- ciphertext, for the recipient `to`.
  pub record Authorized (req : DecryptionRequest) (to : Address) (msg : Bytes) : Type 0 where
    pub witness : Bytes
    pub ws : List Bytes
    pub entry : Cid × List (Intent W)
    pub ciphertext_bytes : Bytes
    pub ciphertext : Ciphertext
    pub partial : PartialDecryption
    pub unhexed : hex.decode req.witness_hex ≡ some witness
    pub registered : get_intent req.filename ≡ ok (some entry)
    pub decoded : decode_all witnesses witness ≡ some ws
    pub one_each : length ws ≡ length entry.1
    pub accepted : AllVerified registry world entry.1 ws
    pub available : fetch entry.0 ≡ ok (some ciphertext_bytes)
    pub deserialized : deserialize ciphertext_bytes ≡ some ciphertext
    pub decrypted : partial_decryption ciphertext ≡ ok partial
    pub indexed : index < 256
    pub addressed : address req.location ≡ some to
    pub encoded :
        message.encode (record {
          filename = req.filename;
          index = index;
          partial_decryption_bytes = serialize partial;
        })
        ≡ msg

  abbrev respond_to : DecryptionRequest → Option Bytes → Outcome AnyError (Option (Address × Bytes))
  respond_to = respond services hex witnesses message id registry world index

  abbrev pd_bytes : DecryptionRequest → PartialDecryption → Bytes
  pd_bytes req partial = message.encode (record {
    filename = req.filename;
    index = index;
    partial_decryption_bytes = serialize partial;
  })

  abbrev addressed_to :
      DecryptionRequest → PartialDecryption → ℕ → Outcome AnyError (Option (Address × Bytes))
  addressed_to req partial n = do
    receiver_endpoint_addr ← unwrap (address req.location)
    ok (
        some (
          receiver_endpoint_addr,
          message.encode (record {
            filename = req.filename;
            index = n;
            partial_decryption_bytes = serialize partial;
          }),
        ))

  respond-addressed :
      (req : DecryptionRequest) (to : Address) (msg : Bytes) (partial : PartialDecryption) (n : ℕ)
      → addressed_to req partial n ≡ ok (some (to, msg))
      → (address req.location ≡ some to)
        × (message.encode (record {
          filename = req.filename;
          index = n;
          partial_decryption_bytes = serialize partial;
        })
            ≡ msg)
  respond-addressed req to msg partial n h =
      let (a, e, h') = >>=-eq-ok (unwrap (address req.location)) _ h in
      (unwrap-eq-ok _ e ∙ ground (arith, h'), ground (arith, h'))

  respond-eq-ok :
      (req : DecryptionRequest) (to : Address) (msg : Bytes) (found : Option Bytes)
      → respond_to req found ≡ ok (some (to, msg))
      → (b : Bytes) × (ciphertext : Ciphertext) × (partial : PartialDecryption) × (found ≡ some b)
        × (deserialize b ≡ some ciphertext)
        × (partial_decryption ciphertext ≡ ok partial)
        × (index < 256)
        × (address req.location ≡ some to)
        × (pd_bytes req partial ≡ msg)
  respond-eq-ok req to msg none h = absurd (cc h)
  respond-eq-ok req to msg (some b) h =
      let (ciphertext, e1, h1) = >>=-eq-ok (unwrap (deserialize b)) _ h in
      let (partial, e2, h2) = >>=-eq-ok (unwrap_result (partial_decryption ciphertext)) _ h1 in
      let (n, e3, h3) = >>=-eq-ok (to_u8 index) _ h2 in
      let (small, same) = to_u8-eq-ok index n e3 in
      let (addressed, encoded) = respond-addressed req to msg partial n h3 in
      (
        b,
        ciphertext,
        partial,
        refl,
        unwrap-eq-ok _ e1,
        unwrap_result-eq-ok _ e2,
        small,
        addressed,
        ap
              (λ i. message.encode (record {
                filename = req.filename;
                index = i;
                partial_decryption_bytes = serialize partial;
              }))
              (sym same)
            ∙ encoded,
      )

  after_verdict :
      (req : DecryptionRequest) (to : Address) (msg : Bytes) (cid : Cid) (verified : Bool)
      → (if verified then unwrap_result (fetch cid) >>= respond_to req else ok none)
        ≡ ok (some (to, msg))
      → (verified ≡ true)
        × ((found : Option Bytes) × (fetch cid ≡ ok found)
            × (respond_to req found ≡ ok (some (to, msg))))
  after_verdict req to msg cid true h =
      let (found, e, h') = >>=-eq-ok (unwrap_result (fetch cid)) _ h in
      (refl, (found, unwrap_result-eq-ok _ e, h'))
  after_verdict req to msg cid false h = absurd (cc h)

  abbrev pub prep : DecryptionRequest → Outcome AnyError (Option (Address × Bytes))
  prep = prepare services hex witnesses message id registry world index

  abbrev judged :
      DecryptionRequest
      → Bytes
      → Cid × List (Intent W)
      → Outcome AnyError (Option (Address × Bytes))
  judged req witness entry = do
    verified ← verdict (verify_intents witnesses registry world entry.1 witness)
    if verified then unwrap_result (fetch entry.0) >>= respond_to req else ok none

  judged-Authorized :
      (req : DecryptionRequest) (to : Address) (msg witness : Bytes) (entry : Cid × List (Intent W))
      → hex.decode req.witness_hex ≡ some witness
      → get_intent req.filename ≡ ok (some entry)
      → judged req witness entry ≡ ok (some (to, msg))
      → Authorized req to msg
  judged-Authorized req to msg witness entry unhexed registered h =
      let (verified, e1, h1) =
        >>=-eq-ok (verdict (verify_intents witnesses registry world entry.1 witness)) _ h in
      let (held, (found, e2, h2)) = after_verdict req to msg entry.0 verified h1 in
      let (b, ciphertext, partial, e3, e4, e5, e6, e7, e8) = respond-eq-ok req to msg found h2 in
      let (_, (ws, decoded, one_each, accepted)) =
        (verify_intents_iff registry world witnesses entry.1 witness true).0
          (verdict-true _ (e1 ∙ ap ok held)) in
      record {
        witness = witness;
        ws = ws;
        entry = entry;
        ciphertext_bytes = b;
        ciphertext = ciphertext;
        partial = partial;
        unhexed = unhexed;
        registered = registered;
        decoded = decoded;
        one_each = one_each;
        accepted = accepted;
        available = e2 ∙ ap ok e3;
        deserialized = e4;
        decrypted = e5;
        indexed = e6;
        addressed = e7;
        encoded = e8;
      }

  pub prepare-Authorized :
      (req : DecryptionRequest) (to : Address) (msg : Bytes)
      → prep req ≡ ok (some (to, msg))
      → Authorized req to msg
  unfolding prepare
  prepare-Authorized req to msg h =
      let (witness, e1, h1) = >>=-eq-ok (unwrap (hex.decode req.witness_hex)) _ h in
      let (found, e2, h2) = >>=-eq-ok (unwrap_result (get_intent req.filename)) _ h1 in
      let (entry, e3, h3) = >>=-eq-ok (unwrap found) _ h2 in
      judged-Authorized req to msg witness entry (unwrap-eq-ok _ e1)
        (unwrap_result-eq-ok _ e2 ∙ ap ok (unwrap-eq-ok _ e3)) h3
