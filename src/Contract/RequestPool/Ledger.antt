-- ===== src/Contract/RequestPool/Ledger.antt =====
-- The specification of contract/pool/lib.rs: a list of requests, and for each id at most one
-- attestation. It has no index, no counts and no partial attestations.
use fangorn_rs.Prelude.{
  true, false, Bool, Option, none, some, List, [], ◌∷◌, ◌++◌, map, contains, ◌==◌, if◌then◌else◌,
  ℕ-Eq, List-Eq, Pair-Eq,
}
use fangorn_rs.Contract.Ink.{Bytes, AccountId, Result, ok, err}
use fangorn_rs.Contract.RequestPool.{
  Storage, RequestPool, DecryptionRequest, Attestation, Error, Call, adds, attests, request_id,
  step, request_already_exists, unauthorized, request_not_found, already_fulfilled,
}
use fangorn_rs.Contract.RequestPool.Attestations.{copies}

pub record Ledger : Type 0 where
  pub workers : List AccountId
  pub listed : List DecryptionRequest
  pub published : Bytes → Option Attestation

abbrev pub publish : Bytes → Attestation → (Bytes → Option Attestation) → Bytes → Option Attestation
publish id a published j = if id == j then some a else published j

abbrev pub new_ledger : List AccountId → Ledger
new_ledger workers = record { workers = workers; listed = []; published = λ id. none }

module _ (s : Storage) where
  open s use {requests_map, fulfilled_map}

  abbrev pub id_of : DecryptionRequest → Bytes
  id_of r = request_id s r.filename r.witness_hex r.location

  -- A request with the id is listed.
  abbrev pub has : Ledger → Bytes → Bool
  has l id = contains (map id_of l.listed) id

  -- The specification of each message that changes the pool. Accepted requests are listed, in order. An
  -- accepted attestation is published, as often as the caller is listed among the workers.
  abbrev pub append_request : Bool → DecryptionRequest → Ledger → Result Error (Unit {0}) × Ledger
  append_request true r l = (err request_already_exists, l)
  append_request false r l = (ok tt, record l { listed = l.listed ++ r ∷ [] })

  abbrev pub publish_once :
      Bool
      → Bool
      → Option Attestation
      → AccountId
      → Bytes
      → Attestation
      → Ledger
      → Result Error (Unit {0}) × Ledger
  publish_once false there old caller id a l = (err unauthorized, l)
  publish_once true false old caller id a l = (err request_not_found, l)
  publish_once true true (some b) caller id a l = (err already_fulfilled, l)
  publish_once true true none caller id a l =
      (ok tt, record l { published = publish id (copies l.workers caller a) l.published })

  abbrev pub spec_step : Call s → Ledger → Result Error (Unit {0}) × Ledger
  spec_step (adds env f w x) l =
      let r : DecryptionRequest = record { filename = f; witness_hex = w; location = x } in
      append_request (has l (id_of r)) r l
  spec_step (attests env id a) l =
      publish_once (contains l.workers env.caller) (has l id) (l.published id) env.caller id a l

  -- The results of messages, and what they leave.
  abbrev pub results : List (Call s) → RequestPool s → List (Result Error (Unit {0}))
  results [] p = []
  results (c ∷ cs) p = (step s c p).0 ∷ results cs (step s c p).1

  abbrev pub spec_results : List (Call s) → Ledger → List (Result Error (Unit {0}))
  spec_results [] l = []
  spec_results (c ∷ cs) l = (spec_step c l).0 ∷ spec_results cs (spec_step c l).1

  abbrev pub spec_run : List (Call s) → Ledger → Ledger
  spec_run [] l = l
  spec_run (c ∷ cs) l = spec_run cs (spec_step c l).1
