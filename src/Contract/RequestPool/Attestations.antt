-- ===== src/Contract/RequestPool/Attestations.antt =====
-- Attesting in contract/pool/lib.rs: which submissions are accepted, and what they leave.
use fangorn_rs.Prelude.{
  ◌+◌, min, leb, ◌≡◌, ◌⊎◌, refl, ap, ◌∙◌, true, false, Option, none, some, List, [], ◌∷◌, ◌++◌,
  arith, append-nil, contains, Distinct, filter_map, flatten, is_some, unwrap_or, if◌then◌else◌,
  ◌==◌, list_eq_iff, ==-refl, Bool-cases, inl, inr, ℕ-Eq, List-Eq, Pair-Eq,
}
use fangorn_rs.Contract.Ink.{Bytes, AccountId, Env, ok, err}
use fangorn_rs.Contract.RequestPool.{
  Storage, threshold, u32_max, RequestPool, Attestation, Call, adds, attests, add, record_request,
  finalize_request, record_attestation, submit_partial_attestation, get_attestation, step, run,
  unauthorized, request_not_found, already_fulfilled,
}
use fangorn_rs.Contract.RequestPool.Invariant.{IsValid, step-IsValid, run-IsValid}

-- One copy of the attestation for each time that the caller is listed among the workers.
abbrev pub copies : List AccountId → AccountId → Attestation → Bytes
copies [] caller a = []
copies (w ∷ ws) caller a = if w == caller then a ++ copies ws caller a else copies ws caller a

copies-absent :
    (ws : List AccountId) (caller : AccountId) (a : Attestation)
    → contains ws caller ≡ false
    → copies ws caller a ≡ []
copies-absent [] caller a h = refl
copies-absent (w ∷ ws) caller a h = ground (arith, copies-absent ws caller a)

-- A worker that is listed once is copied once.
pub copies-Distinct :
    (ws : List AccountId) (caller : AccountId) (a : Attestation)
    → Distinct ws
    → contains ws caller ≡ true
    → copies ws caller a ≡ a
copies-Distinct [] caller a d h = cc
copies-Distinct (w ∷ ws) caller a d h = ground (
  arith,
  copies-Distinct ws caller a d.1,
  copies-absent ws caller a,
  append-nil a,
  list_eq_iff w caller,
)

-- The attestations read for a request where `f` gives the caller's alone.
flatten-copies :
    (f : AccountId → Option Attestation) (ws : List AccountId) (caller : AccountId)
    (a : Attestation)
    → ((w : AccountId) → f w ≡ (if w == caller then some a else none))
    → flatten (filter_map f ws) ≡ copies ws caller a
flatten-copies f [] caller a h = refl
flatten-copies f (w ∷ ws) caller a h = ground (arith, h w, flatten-copies f ws caller a h)

module _ (s : Storage) where
  open s use {requests_map, partials_map, counts_map, fulfilled_map}

  -- Nothing is attested for a request that is not fulfilled.
  no_partial :
      (p : RequestPool s) (id : Bytes) (w : AccountId)
      → IsValid s p
      → fulfilled_map.contains p.fulfilled_attestations id ≡ false
      → partials_map.get p.partial_attestations (id, w) ≡ none
  no_partial p id w v h =
      ground (arith, v.attested id w, fulfilled_map.contains-get p.fulfilled_attestations id)

  record_attestation_lem :
      (caller : AccountId) (id : Bytes) (a : Attestation) (p : RequestPool s)
      → IsValid s p
      → fulfilled_map.contains p.fulfilled_attestations id ≡ false
      → ((record_attestation s caller id a p).0 ≡ ok tt)
        × (get_attestation s (record_attestation s caller id a p).1 id
            ≡ some (copies p.authorized_workers caller a))
  unfolding record_attestation finalize_request get_attestation
  record_attestation_lem caller id a p v h =
      let none_yet : unwrap_or (counts_map.get p.attestation_counts id) 0 ≡ 0 =
        ground (arith, v.tallied id, fulfilled_map.contains-get p.fulfilled_attestations id) in
      let read : (w : AccountId)
          → partials_map.get (partials_map.insert p.partial_attestations (id, caller) a) (id, w)
            ≡ (if w == caller then some a else none) =
        λ w. ground (
          arith,
          partials_map.get-insert p.partial_attestations (id, caller) a (id, w),
          no_partial p id w v h,
          list_eq_iff id id,
          list_eq_iff caller w,
          list_eq_iff w caller,
        ) in
      rw none_yet (
        refl,
        rw (fulfilled_map.get-insert, ==-refl id)
            (ap some (flatten-copies _ p.authorized_workers caller a read)),
      )

  -- What a submission to a well-formed pool does, on every branch: an unauthorized caller, an unknown
  -- request and a fulfilled request are refused, in this order, with the pool unchanged. Any other
  -- submission is accepted and fulfils the request at once, with the attestation repeated as often
  -- as the caller is listed among the workers. `already_attested` is never returned.
  pub submit_cases :
      (env : Env) (id : Bytes) (a : Attestation) (p : RequestPool s)
      → IsValid s p
      → let r = submit_partial_attestation s env id a p in
        ((contains p.authorized_workers env.caller ≡ false) × (r ≡ (err unauthorized, p)))
        ⊎ ((contains p.authorized_workers env.caller ≡ true)
            × (is_some (requests_map.get p.requests id) ≡ false)
            × (r ≡ (err request_not_found, p)))
        ⊎ ((contains p.authorized_workers env.caller ≡ true)
            × (is_some (get_attestation s p id) ≡ true)
            × (r ≡ (err already_fulfilled, p)))
        ⊎ ((contains p.authorized_workers env.caller ≡ true)
            × (is_some (requests_map.get p.requests id) ≡ true)
            × (get_attestation s p id ≡ none)
            × (r.0 ≡ ok tt)
            × (get_attestation s r.1 id ≡ some (copies p.authorized_workers env.caller a)))
  unfolding submit_partial_attestation get_attestation
  submit_cases env id a p v = ground (
    arith,
    requests_map.contains-get p.requests id,
    fulfilled_map.contains-get p.fulfilled_attestations id,
    partials_map.contains-get p.partial_attestations (id, env.caller),
    no_partial p id env.caller v,
    record_attestation_lem env.caller id a p v,
    v.known id,
  )

  -- Where the workers are distinct, an accepted submission publishes exactly its attestation.
  pub get_attestation-submit :
      (env : Env) (id : Bytes) (a : Attestation) (p : RequestPool s)
      → IsValid s p
      → Distinct p.authorized_workers
      → (submit_partial_attestation s env id a p).0 ≡ ok tt
      → get_attestation s (submit_partial_attestation s env id a p).1 id ≡ some a
  get_attestation-submit env id a p v d h =
      ground (arith, submit_cases env id a p v, copies-Distinct p.authorized_workers env.caller a d)

  finalize_request-ne :
      (j id : Bytes) (q : RequestPool s)
      → (j == id) ≡ false
      → get_attestation s (finalize_request s j q).1 id ≡ get_attestation s q id
  unfolding finalize_request get_attestation
  finalize_request-ne j id q ne = rw (fulfilled_map.get-insert, ne)

  record_attestation-ne :
      (caller : AccountId) (j id : Bytes) (a : Attestation) (p : RequestPool s)
      → (j == id) ≡ false
      → get_attestation s (record_attestation s caller j a p).1 id ≡ get_attestation s p id
  unfolding record_attestation get_attestation
  record_attestation-ne caller j id a p ne =
      let seen = unwrap_or (counts_map.get p.attestation_counts j) 0 in
      elim (Bool-cases (leb threshold (min (seen + 1) u32_max))) [
        | inl met ↦ rw met (finalize_request-ne j id _ ne)
        | inr unmet ↦ rw unmet
      ]

  -- A submission for another request changes nothing for this one.
  pub submit-ne :
      (env : Env) (j id : Bytes) (a : Attestation) (p : RequestPool s)
      → (j == id) ≡ false
      → get_attestation s (submit_partial_attestation s env j a p).1 id ≡ get_attestation s p id
  unfolding submit_partial_attestation
  submit-ne env j id a p ne = ground (arith, record_attestation-ne env.caller j id a p ne)

  step-fulfilled :
      (c : Call s) (id : Bytes) (p : RequestPool s) {b : Attestation}
      → get_attestation s p id ≡ some b
      → get_attestation s (step s c p).1 id ≡ some b
  unfolding step
  step-fulfilled (adds env f w l) id p h = unfold add record_request get_attestation in ground arith
  step-fulfilled (attests env j a) id p h = elim (Bool-cases (j == id)) [
    | inl same ↦
        unfold submit_partial_attestation get_attestation in
        ground (arith, fulfilled_map.contains-get p.fulfilled_attestations j, list_eq_iff j id)
    | inr other ↦ submit-ne env j id a p other ∙ h
  ]

  -- What is published for a request stays, whatever messages follow.
  pub run-fulfilled :
      (cs : List (Call s)) (id : Bytes) (p : RequestPool s) {b : Attestation}
      → get_attestation s p id ≡ some b
      → get_attestation s (run s cs p) id ≡ some b
  unfolding run
  run-fulfilled [] id p h = h
  run-fulfilled (c ∷ cs) id p h = run-fulfilled cs id (step s c p).1 (step-fulfilled c id p h)

  pub step-workers :
      (c : Call s) (p : RequestPool s) → (step s c p).1.authorized_workers ≡ p.authorized_workers
  unfolding step add record_request submit_partial_attestation record_attestation finalize_request
  step-workers (adds env f w l) p = ground arith
  step-workers (attests env j a) p = ground arith

  pub run-workers :
      (cs : List (Call s)) (p : RequestPool s)
      → (run s cs p).authorized_workers ≡ p.authorized_workers
  unfolding run
  run-workers [] p = refl
  run-workers (c ∷ cs) p = run-workers cs (step s c p).1 ∙ step-workers c p

  -- A request is attested once: after an accepted submission and any further messages, a submission
  -- of an authorized worker for the same request is refused as already fulfilled.
  pub attested_once :
      (env env' : Env) (id : Bytes) (a a' : Attestation) (cs : List (Call s)) (p : RequestPool s)
      → IsValid s p
      → (submit_partial_attestation s env id a p).0 ≡ ok tt
      → contains p.authorized_workers env'.caller ≡ true
      → let q = run s cs (submit_partial_attestation s env id a p).1 in
        submit_partial_attestation s env' id a' q ≡ (err already_fulfilled, q)
  unfolding step get_attestation
  attested_once env env' id a a' cs p v h c =
      let p' = (submit_partial_attestation s env id a p).1 in
      let q = run s cs p' in
      let published : get_attestation s p' id ≡ some (copies p.authorized_workers env.caller a) =
        ground (arith, submit_cases env id a p v) in
      let still = run-fulfilled cs id p' published in
      let valid = run-IsValid s cs p' (step-IsValid s (attests env id a) p v) in
      let workers : contains q.authorized_workers env'.caller ≡ true =
        rw (run-workers cs p', step-workers (attests env id a) p) c in
      ground (arith, submit_cases env' id a' q valid, valid.known id, still, workers)
