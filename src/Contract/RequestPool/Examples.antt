-- ===== src/Contract/RequestPool/Examples.antt =====
-- The request pool of contract/pool/lib.rs on concrete messages, over mappings that are functions
-- and a hash that is the identity.
use fangorn_rs.Prelude.{
  ◌≡◌, refl, ◌⊎◌, true, false, none, some, List, [], ◌∷◌, is_some, contains, ℕ-Eq, List-Eq, Pair-Eq,
}
use fangorn_rs.Contract.Ink.{Bytes, AccountId, Env, ok, err, function_mapping}
use fangorn_rs.Contract.RequestPool.{
  Storage, RequestPool, Call, adds, attests, empty, new, add, request_id, count, read_all,
  submit_partial_attestation, get_attestation, run, record_request, record_attestation,
  finalize_request, step, hash_request, request_already_exists, already_fulfilled, unauthorized,
  request_not_found,
}
use fangorn_rs.Contract.RequestPool.Invariant.{IsValid, run-new-IsValid}
use fangorn_rs.Contract.RequestPool.Requests.{add_collides}
use fangorn_rs.Contract.RequestPool.Ledger.{results, spec_results, spec_run, new_ledger}
use fangorn_rs.Contract.RequestPool.Refinement.{run-refine}
use fangorn_rs.Contract.RequestPool.Attestations.{copies, submit_cases, attested_once}

abbrev storage : Storage
storage = record {
  requests_map = function_mapping;
  partials_map = function_mapping;
  counts_map = function_mapping;
  fulfilled_map = function_mapping;
  blake2x256 = λ b. b;
}

abbrev alice : AccountId
alice = 1 ∷ []

abbrev bob : AccountId
bob = 2 ∷ []

abbrev by_alice : Env
by_alice = record { caller = alice; block_timestamp = 7 }

abbrev by_bob : Env
by_bob = record { caller = bob; block_timestamp = 8 }

abbrev staff : List AccountId
staff = alice ∷ bob ∷ []

abbrev start : RequestPool storage
start = empty storage staff

abbrev calls : List (Call storage)
calls =
    adds by_alice (10 ∷ []) (11 ∷ []) (12 ∷ []) ∷ attests by_bob (10 ∷ 11 ∷ 12 ∷ []) (5 ∷ []) ∷ []

start_new : new storage staff ≡ some start
unfolding new
start_new = refl

-- One request, and nothing attested.
abbrev requested : RequestPool storage
requested = (add storage by_alice (10 ∷ []) (11 ∷ []) (12 ∷ []) start).1

abbrev id : Bytes
id = 10 ∷ 11 ∷ 12 ∷ []

requested-IsValid : IsValid storage requested
unfolding run step
requested-IsValid =
    run-new-IsValid storage staff (adds by_alice (10 ∷ []) (11 ∷ []) (12 ∷ []) ∷ []) start start_new

run-new-IsValid_example : IsValid storage (run storage calls start)
run-new-IsValid_example = run-new-IsValid storage staff calls start start_new

count_one : count storage (run storage calls start) ≡ 1
unfolding count run step add record_request submit_partial_attestation record_attestation
    finalize_request request_id hash_request
count_one = refl

add_collides_example :
    add storage by_bob (10 ∷ 11 ∷ []) [] (12 ∷ []) requested
    ≡ (err request_already_exists, requested)
unfolding add request_id
add_collides_example =
    add_collides storage by_alice by_bob (10 ∷ []) (11 ∷ []) (12 ∷ []) (10 ∷ 11 ∷ []) [] (12 ∷ [])
      start refl refl

-- Bob has attested.
abbrev attested : RequestPool storage
attested = (submit_partial_attestation storage by_bob id (5 ∷ []) requested).1

submit_cases_example :
    let r = submit_partial_attestation storage by_bob id (5 ∷ []) requested in
    ((contains requested.authorized_workers bob ≡ false) × (r ≡ (err unauthorized, requested)))
    ⊎ ((contains requested.authorized_workers bob ≡ true)
        × (is_some (storage.requests_map.get requested.requests id) ≡ false)
        × (r ≡ (err request_not_found, requested)))
    ⊎ ((contains requested.authorized_workers bob ≡ true)
        × (is_some (get_attestation storage requested id) ≡ true)
        × (r ≡ (err already_fulfilled, requested)))
    ⊎ ((contains requested.authorized_workers bob ≡ true)
        × (is_some (storage.requests_map.get requested.requests id) ≡ true)
        × (get_attestation storage requested id ≡ none)
        × (r.0 ≡ ok tt)
        × (get_attestation storage r.1 id
            ≡ some (copies requested.authorized_workers bob (5 ∷ []))))
submit_cases_example = submit_cases storage by_bob id (5 ∷ []) requested requested-IsValid

attested_once_example :
    submit_partial_attestation storage by_alice id (6 ∷ []) (run storage calls attested)
    ≡ (err already_fulfilled, run storage calls attested)
unfolding add record_request submit_partial_attestation record_attestation finalize_request
    request_id
attested_once_example =
    attested_once storage by_bob by_alice id (5 ∷ []) (6 ∷ []) calls requested requested-IsValid
      refl refl

run-refine_example :
    (results storage calls start ≡ spec_results storage calls (new_ledger staff))
    × (read_all storage (run storage calls start)
        ≡ (spec_run storage calls (new_ledger staff)).listed)
    × ((j : Bytes)
        → get_attestation storage (run storage calls start) j
          ≡ (spec_run storage calls (new_ledger staff)).published j)
run-refine_example = run-refine storage staff calls start start_new
