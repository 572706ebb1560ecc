-- ===== src/Network/Worker.antt =====
-- fangorn/src/node/service.rs: the worker of `spawn_pool_watcher`, which processes the requests that
-- the watcher sends, one after another.
use fangorn_rs.Prelude.{
  ℕ, ◌≡◌, refl, ap, sym, ◌∙◌, Bool, true, false, none, List, [], ◌∷◌, ◌++◌, Option-cases, inl, inr,
  subst, ◌⊎◌,
}
use mathlib.Core.List.{Memᴰ}
use mathlib.Core.List.Memᴰ
use fangorn_rs.Rust.Outcome.{Outcome, ok, err, panic}
use fangorn_rs.Backend.{AnyError}
use fangorn_rs.Gadget.Codec.{Bytes, Scale}
use fangorn_rs.Gadget.Sr25519.{Hex}
use fangorn_rs.Gadget.{GadgetRegistry}
use fangorn_rs.Pool.{DecryptionRequest, PartialDecryptionMessage}
use fangorn_rs.Service.Request.{Effect, sends, attests, prepare, process_decryption_request}
use fangorn_rs.Service.Request.Authorized.{Authorized}
use fangorn_rs.Service.Request.Answered.{process-Authorized}
use fangorn_rs.Crypto.AppStore.{AppStore}
use fangorn_rs.Crypto.Handlers.{Schemes}
use fangorn_rs.Network.{NodeSide, node_services}

module _ {W : Type 0} (hex : Hex) (schemes : Schemes) (store : AppStore W)
    (registry : GadgetRegistry W) (witnesses : Scale (List Bytes))
    (message : Scale PartialDecryptionMessage) (node : NodeSide schemes W)
    (id : DecryptionRequest → Bytes) (index : ℕ) where
  -- A request, with the stores and the chain at the time that it is processed.
  pub record Visit : Type 0 where
    pub req : DecryptionRequest
    pub stores : store.State
    pub chain : W

  abbrev pub process : Visit → Outcome AnyError (Unit {0}) × List (Effect node.Address)
  process v =
      process_decryption_request (node_services schemes node store v.stores v.chain) hex witnesses
        message id registry v.chain index v.req

  -- An error is printed, and a panic ends the task.
  abbrev pub and_on :
      Outcome AnyError (Unit {0}) × List (Effect node.Address)
      → Bool × List (Effect node.Address)
      → Bool × List (Effect node.Address)
  and_on (ok done, es) rest = (rest.0, es ++ rest.1)
  and_on (err e, es) rest = (rest.0, es ++ rest.1)
  and_on (panic, es) rest = (false, es)

  -- Whether the worker still runs, and what it has done.
  unfoldable pub worker : List Visit → Bool × List (Effect node.Address)
  unfolding process_decryption_request
  worker [] = (true, [])
  worker (v ∷ vs) = let rest = worker vs in and_on (process v) rest

  and_on-stopped :
      (r : Outcome AnyError (Unit {0}) × List (Effect node.Address))
      (rest : Bool × List (Effect node.Address))
      → and_on r (false, rest.1) ≡ (false, (and_on r rest).1)
  and_on-stopped (ok done, es) rest = refl
  and_on-stopped (err e, es) rest = refl
  and_on-stopped (panic, es) rest = refl

  process-unregistered :
      (v : Visit) → store.get_intent v.req.filename v.stores ≡ ok none → process v ≡ (panic, [])
  unfolding process_decryption_request prepare
  process-unregistered v h = elim (Option-cases (hex.decode v.req.witness_hex)) [
    | inl e ↦ rw (process_decryption_request, prepare, e) refl
    | inr (witness, e) ↦ rw (process_decryption_request, prepare, e, h) refl
  ]

  -- A request for a filename that no intents are registered for ends the worker, whatever its
  -- witness: what was done before it stays, and no later request is processed.
  pub worker-unregistered :
      (before : List Visit) (v : Visit) (rest : List Visit)
      → store.get_intent v.req.filename v.stores ≡ ok none
      → worker (before ++ v ∷ rest) ≡ (false, (worker before).1)
  unfolding worker
  worker-unregistered [] v rest h = ap (λ r. and_on r (worker rest)) (process-unregistered v h)
  worker-unregistered (u ∷ us) v rest h =
      ap (and_on (process u)) (worker-unregistered us v rest h)
      ∙ and_on-stopped (process u) (worker us)

  -- What an effect sends, if it sends.
  abbrev sent_or : node.Address × Bytes → Effect node.Address → node.Address × Bytes
  sent_or d (sends to msg) = (to, msg)
  sent_or d (attests i a) = d

  abbrev Allows : Visit → node.Address × Bytes → Type 0
  Allows v (to, msg) =
      Authorized (node_services schemes node store v.stores v.chain) hex witnesses message id
        registry v.chain index v.req to msg

  process-Allows :
      (v : Visit) (to : node.Address) (msg : Bytes) (es : List (Effect node.Address))
      → (process v).1 ≡ es
      → Memᴰ (sends to msg) es
      → Allows v (to, msg)
  process-Allows v to msg [] h m = absurd (Memᴰ.not-nil m)
  process-Allows v to msg (e ∷ rest) h m =
      let (to', msg', first, allowed, others) =
        process-Authorized (node_services schemes node store v.stores v.chain) hex witnesses message
          id registry v.chain index v.req e rest h in
      elim (Memᴰ.cases_cons m) [
        | inl same ↦ subst (Allows v) (ap (sent_or (to', msg')) (sym (same ∙ first))) allowed
        | inr later ↦ elim others [
          | inl none_more ↦ absurd (Memᴰ.not-nil (subst (Memᴰ (sends to msg)) none_more later))
          | inr (one_more, echoed) ↦
              absurd (cc (Memᴰ.eq_of_singleton (subst (Memᴰ (sends to msg)) one_more later)))
        ]
      ]

  and_on-sends :
      (r : Outcome AnyError (Unit {0}) × List (Effect node.Address))
      (rest : Bool × List (Effect node.Address)) (e : Effect node.Address)
      → Memᴰ e (and_on r rest).1
      → Memᴰ e r.1 ⊎ Memᴰ e rest.1
  and_on-sends (ok done, es) rest e m = Memᴰ.append_cases es m
  and_on-sends (err x, es) rest e m = Memᴰ.append_cases es m
  and_on-sends (panic, es) rest e m = inl m

  -- Whatever requests come, every message that the worker sends is this node's partial decryption for
  -- one of them, to its recipient, and the intents of the file had accepted its witnesses when it was
  -- processed.
  pub worker-Authorized :
      (vs : List Visit) (to : node.Address) (msg : Bytes)
      → Memᴰ (sends to msg) (worker vs).1
      → (v : Visit) × Memᴰ v vs
        × Authorized
            (node_services schemes node store v.stores v.chain)
            hex
            witnesses
            message
            id
            registry
            v.chain
            index
            v.req
            to
            msg
  unfolding worker
  worker-Authorized [] to msg m = absurd (Memᴰ.not-nil m)
  worker-Authorized (v ∷ vs) to msg m =
      elim (and_on-sends (process v) (worker vs) (sends to msg) m) [
        | inl own ↦ (v, Memᴰ.head refl, process-Allows v to msg (process v).1 refl own)
        | inr later ↦
            let (u, there, allowed) = worker-Authorized vs to msg later in
            (u, Memᴰ.tail there, allowed)
      ]
