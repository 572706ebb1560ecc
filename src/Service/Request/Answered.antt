-- ===== src/Service/Request/Answered.antt =====
-- When `process_decryption_request` of fangorn/src/node/service.rs gives out a partial decryption.
use fangorn_rs.Prelude.{
  ℕ, ◌≡◌, ◌⊎◌, refl, ap, Option, none, some, List, [], ◌∷◌, ◌==◌, Bool-cases, inl, inr, list_eq_iff,
  ℕ-Eq, List-Eq, arith,
}
use fangorn_rs.Rust.Outcome.{Outcome, ok, err, panic}
use fangorn_rs.Backend.{AnyError}
use fangorn_rs.Gadget.Codec.{Bytes, Scale}
use fangorn_rs.Gadget.{GadgetRegistry}
use fangorn_rs.Gadget.Sr25519.{Hex}
use fangorn_rs.Pool.{DecryptionRequest, PartialDecryptionMessage}
use fangorn_rs.Service.Request.{
  Delivery, refused, broken, response, Services, Effect, sends, attests, attested, delivered,
  answer, process_decryption_request,
}
use fangorn_rs.Service.Request.Authorized.{Authorized, prep, prepare-Authorized}

module _ {W : Type 0} (services : Services W) (hex : Hex) (witnesses : Scale (List Bytes))
    (message : Scale PartialDecryptionMessage) (id : DecryptionRequest → Bytes)
    (registry : GadgetRegistry W) (world : W) (index : ℕ) where
  open services use {
    Cid, Ciphertext, PartialDecryption, Address, get_intent, fetch, deserialize, partial_decryption,
    serialize, address, deliver, submit,
  }

  attested-cases :
      (req : DecryptionRequest) (to : Address) (msg : Bytes) (m : Outcome AnyError (Unit {0}))
      → (e : Effect Address) (rest : List (Effect Address))
      → (attested services hex witnesses message id registry world index req to msg m).1 ≡ e ∷ rest
      → (e ≡ sends to msg) × ((rest ≡ []) ⊎ (rest ≡ attests (id req) [] ∷ []))
  attested-cases req to msg (ok done) e rest h = (ground (arith, h), inr (ground (arith, h)))
  attested-cases req to msg (err x) e rest h = (ground (arith, h), inl (ground (arith, h)))
  attested-cases req to msg panic e rest h = (ground (arith, h), inl (ground (arith, h)))

  delivered-cases :
      (req : DecryptionRequest) (to : Address) (msg : Bytes) (d : Delivery) (e : Effect Address)
      → (rest : List (Effect Address))
      → (delivered services hex witnesses message id registry world index req to msg d).1 ≡ e ∷ rest
      → (e ≡ sends to msg)
        × ((rest ≡ []) ⊎ ((rest ≡ attests (id req) [] ∷ []) × (d ≡ response msg)))
  delivered-cases req to msg refused e rest h = absurd (cc h)
  delivered-cases req to msg (broken x) e rest h = (ground (arith, h), inl (ground (arith, h)))
  delivered-cases req to msg (response echo) e rest h = elim (Bool-cases (echo == msg)) [
    | inl same ↦
        let (first, others) =
          attested-cases req to msg (submit (id req) []) e rest (rw (delivered, same) at h) in
        let echoed = ap response ((list_eq_iff echo msg).0 same) in
        (
          first,
          elim others [ inl none_more ↦ inl none_more | inr one_more ↦ inr (one_more, echoed) ],
        )
    | inr other ↦
        let h' = rw (delivered, other) at h in (ground (arith, h'), inl (ground (arith, h')))
  ]

  -- The message goes out only behind a preparation that gave it.
  effect-prepared :
      (req : DecryptionRequest) (m : Outcome AnyError (Option (Address × Bytes)))
      (e : Effect Address)
      → (rest : List (Effect Address))
      → (answer services hex witnesses message id registry world index req m).1 ≡ e ∷ rest
      → (to : Address) × (msg : Bytes) × (m ≡ ok (some (to, msg)))
        × (e ≡ sends to msg)
        × ((rest ≡ []) ⊎ ((rest ≡ attests (id req) [] ∷ []) × (deliver to msg ≡ response msg)))
  effect-prepared req (ok none) e rest h = absurd (cc h)
  effect-prepared req (err x) e rest h = absurd (cc h)
  effect-prepared req panic e rest h = absurd (cc h)
  effect-prepared req (ok (some (to, msg))) e rest h =
      let (first, others) = delivered-cases req to msg (deliver to msg) e rest h in
      (to, msg, refl, first, others)

  -- A node acts on a request only where it may: its first effect sends this node's partial decryption
  -- of the file's ciphertext to the recipient, after every intent of the file has accepted its
  -- witness; a second effect is the attestation of the request, and only after the recipient has
  -- echoed the message.
  pub process-Authorized :
      (req : DecryptionRequest) (e : Effect Address) (rest : List (Effect Address))
      → (process_decryption_request services hex witnesses message id registry world index req).1
        ≡ e ∷ rest
      → (to : Address) × (msg : Bytes) × (e ≡ sends to msg)
        × Authorized services hex witnesses message id registry world index req to msg
        × ((rest ≡ []) ⊎ ((rest ≡ attests (id req) [] ∷ []) × (deliver to msg ≡ response msg)))
  unfolding process_decryption_request
  process-Authorized req e rest h =
      let (to, msg, prepared, first, others) =
        effect-prepared req (prep services hex witnesses message id registry world index req) e rest
          h in
      (
        to,
        msg,
        first,
        prepare-Authorized services hex witnesses message id registry world index req to msg
            prepared,
        others,
      )
