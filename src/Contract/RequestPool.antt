-- ===== src/Contract/RequestPool.antt =====
-- contract/pool/lib.rs: the on-chain pool of decryption requests. Each message is a function of the
-- pool that returns its result and the new pool. The contract is deployed over a storage, which
-- gives its four mappings and the hash Blake2x256.
pub mod Invariant
pub mod Requests
pub mod Attestations
pub mod Ledger
pub mod Refinement
mod Examples
use fangorn_rs.Prelude.{
  ℕ, ◌+◌, ◌-◌, ◌^◌, min, Option, none, some, List, [], ◌∷◌, ◌++◌, leb, length, contains, filter_map,
  flatten, unwrap_or, if◌then◌else◌, nat_eq, ℕ-Eq, List-Eq, Pair-Eq,
}
use fangorn_rs.Contract.Ink.{Bytes, AccountId, Result, ok, err, Mapping, Env}

abbrev pub GenericData : Type 0
GenericData = Bytes

abbrev pub Attestation : Type 0
Attestation = Bytes

pub record DecryptionRequest : Type 0 where
  pub filename : GenericData
  pub witness_hex : GenericData
  pub location : GenericData

pub record Storage : Type 1 where
  pub requests_map : Mapping Bytes DecryptionRequest
  pub partials_map : Mapping (Bytes × AccountId) Attestation
  pub counts_map : Mapping Bytes ℕ
  pub fulfilled_map : Mapping Bytes Attestation
  -- hash_bytes::<Blake2x256>
  pub blake2x256 : Bytes → Bytes

abbrev pub threshold : ℕ
threshold = 1

abbrev pub total_workers : ℕ
total_workers = 2

abbrev pub u32_max : ℕ
u32_max = 2 ^ 32 - 1

abbrev pub u64_max : ℕ
u64_max = 2 ^ 64 - 1

pub data Event : Type 0 where
  request_added : Bytes → ℕ → Event
  request_fulfilled : Bytes → Bytes → Event
  partial_attestation_submitted : Bytes → AccountId → ℕ → Event

pub data Error : Type 0 where
  request_already_exists request_not_found already_fulfilled unauthorized already_attested : Error

module _ (s : Storage) where
  open s use {requests_map, partials_map, counts_map, fulfilled_map, blake2x256}

  -- `events` is what `emit_event` has written, oldest first.
  pub record RequestPool : Type 0 where
    pub requests : requests_map.Map
    pub request_ids : List Bytes
    pub partial_attestations : partials_map.Map
    pub attestation_counts : counts_map.Map
    pub fulfilled_attestations : fulfilled_map.Map
    pub authorized_workers : List AccountId
    pub count : ℕ
    pub events : List Event

  abbrev pub empty : List AccountId → RequestPool
  empty workers = record {
    requests = requests_map.new;
    request_ids = [];
    partial_attestations = partials_map.new;
    attestation_counts = counts_map.new;
    fulfilled_attestations = fulfilled_map.new;
    authorized_workers = workers;
    count = 0;
    events = [];
  }

  -- The constructor; `none` is the failed assertion.
  unfoldable pub new : List AccountId → Option RequestPool
  new workers = if nat_eq (length workers) total_workers then some (empty workers) else none

  unfoldable pub hash_request : Bytes → Bytes
  hash_request bytes = blake2x256 bytes

  pub hash_attestation : Attestation → Bytes
  hash_attestation attestation = blake2x256 attestation

  unfoldable pub request_id : GenericData → GenericData → GenericData → Bytes
  unfolding hash_request
  request_id filename witness_hex location = hash_request (filename ++ witness_hex ++ location)

  -- The part of `add` that follows its check.
  unfoldable pub record_request : Env → Bytes → DecryptionRequest → RequestPool → RequestPool
  record_request env id request p = record p {
    requests = requests_map.insert p.requests id request;
    request_ids = p.request_ids ++ id ∷ [];
    count = min (p.count + 1) u64_max;
    events = p.events ++ request_added id env.block_timestamp ∷ [];
  }

  unfoldable pub add :
      Env
      → GenericData
      → GenericData
      → GenericData
      → RequestPool
      → Result Error (Unit {0}) × RequestPool
  add env filename witness_hex location p =
      let id = request_id filename witness_hex location in
      let request : DecryptionRequest = record {
        filename = filename;
        witness_hex = witness_hex;
        location = location;
      } in
      if requests_map.contains p.requests id
      then (err request_already_exists, p)
      else (ok tt, record_request env id request p)

  pub read_all : RequestPool → List DecryptionRequest
  read_all p = filter_map (requests_map.get p.requests) p.request_ids

  pub count : RequestPool → ℕ
  count p = p.count

  -- The attestations of the workers for a request, in the order of the workers.
  pub partials : RequestPool → Bytes → List Attestation
  partials p request_id =
      filter_map (λ worker. partials_map.get p.partial_attestations (request_id, worker))
        p.authorized_workers

  pub finalize_request : Bytes → RequestPool → Result Error (Unit {0}) × RequestPool
  unfolding partials hash_attestation
  finalize_request request_id p =
      let combined = flatten (partials p request_id) in
      (
        ok tt,
        record p {
          fulfilled_attestations =
              fulfilled_map.insert p.fulfilled_attestations request_id combined;
          events = p.events ++ request_fulfilled request_id (hash_attestation combined) ∷ [];
        },
      )

  -- The part of `submit_partial_attestation` that follows its checks.
  pub record_attestation :
      AccountId → Bytes → Attestation → RequestPool → Result Error (Unit {0}) × RequestPool
  record_attestation caller request_id attestation p =
      let new_count =
        min (unwrap_or (counts_map.get p.attestation_counts request_id) 0 + 1) u32_max in
      let q = record p {
        partial_attestations =
            partials_map.insert p.partial_attestations (request_id, caller) attestation;
        attestation_counts = counts_map.insert p.attestation_counts request_id new_count;
        events = p.events ++ partial_attestation_submitted request_id caller new_count ∷ [];
      } in
      if leb threshold new_count then finalize_request request_id q else (ok tt, q)

  pub submit_partial_attestation :
      Env → Bytes → Attestation → RequestPool → Result Error (Unit {0}) × RequestPool
  submit_partial_attestation env request_id attestation p =
      if contains p.authorized_workers env.caller
      then if requests_map.contains p.requests request_id
        then if fulfilled_map.contains p.fulfilled_attestations request_id
          then (err already_fulfilled, p)
          else if partials_map.contains p.partial_attestations (request_id, env.caller)
          then (err already_attested, p)
          else record_attestation env.caller request_id attestation p
        else (err request_not_found, p)
      else (err unauthorized, p)

  pub get_attestation : RequestPool → Bytes → Option Attestation
  get_attestation p id = fulfilled_map.get p.fulfilled_attestations id

  pub get_attestation_count : RequestPool → Bytes → ℕ
  get_attestation_count p id = unwrap_or (counts_map.get p.attestation_counts id) 0

  -- The messages that change the pool.
  pub data Call : Type 0 where
    adds : Env → GenericData → GenericData → GenericData → Call
    attests : Env → Bytes → Attestation → Call

  pub step : Call → RequestPool → Result Error (Unit {0}) × RequestPool
  step (adds env filename witness_hex location) p = add env filename witness_hex location p
  step (attests env request_id attestation) p =
      submit_partial_attestation env request_id attestation p

  pub run : List Call → RequestPool → RequestPool
  run [] p = p
  run (c ∷ cs) p = run cs (step c p).1
