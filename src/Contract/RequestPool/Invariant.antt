-- ===== src/Contract/RequestPool/Invariant.antt =====
-- The well-formed states of the request pool of contract/pool/lib.rs.
use fangorn_rs.Prelude.{
  min, ◌≡◌, refl, sym, subst, ◌∙◌, nat_eq, true, false, some, List, [], ◌∷◌, arith, length,
  length-append, contains, contains-append, Distinct, Distinct-push, is_some, unwrap_or,
  if◌then◌else◌, list_eq_iff, Bool-cases, some_inj, inl, inr, ℕ-Eq, List-Eq, Pair-Eq,
}
use fangorn_rs.Contract.Ink.{Bytes, AccountId, Env}
use fangorn_rs.Contract.RequestPool.{
  Storage, RequestPool, DecryptionRequest, GenericData, Attestation, Call, adds, attests, empty,
  new, record_request, add, request_id, record_attestation, finalize_request,
  submit_partial_attestation, step, run, u64_max, total_workers,
}

module _ (s : Storage) where
  open s use {requests_map, partials_map, counts_map, fulfilled_map}

  pub record IsValid (p : RequestPool s) : Type 0 where
    pub staffed : length p.authorized_workers ≡ total_workers
    pub distinct : Distinct p.request_ids
    pub listed : (id : Bytes) → contains p.request_ids id ≡ is_some (requests_map.get p.requests id)
    pub counted : p.count ≡ min (length p.request_ids) u64_max
    -- each request stands under the hash of its contents
    pub keyed :
        (id : Bytes) (r : DecryptionRequest)
        → requests_map.get p.requests id ≡ some r
        → request_id s r.filename r.witness_hex r.location ≡ id
    pub tallied :
        (id : Bytes)
        → unwrap_or (counts_map.get p.attestation_counts id) 0
          ≡ (if is_some (fulfilled_map.get p.fulfilled_attestations id) then 1 else 0)
    pub attested :
        (id : Bytes) (worker : AccountId)
        → is_some (partials_map.get p.partial_attestations (id, worker)) ≡ true
        → is_some (fulfilled_map.get p.fulfilled_attestations id) ≡ true
    pub known :
        (id : Bytes)
        → is_some (fulfilled_map.get p.fulfilled_attestations id) ≡ true
        → is_some (requests_map.get p.requests id) ≡ true

  empty-IsValid :
      (workers : List AccountId) → length workers ≡ total_workers → IsValid (empty s workers)
  empty-IsValid workers e = record {
    staffed = e;
    distinct = tt;
    listed = λ id. ground (arith, requests_map.get-new id);
    counted = omega arith;
    keyed = λ id r h. ground (arith, requests_map.get-new id);
    tallied = λ id. ground (arith, counts_map.get-new id, fulfilled_map.get-new id);
    attested = λ id w h. ground (arith, partials_map.get-new (id, w));
    known = λ id h. ground (arith, fulfilled_map.get-new id);
  }

  pub new-IsValid :
      (workers : List AccountId) (p : RequestPool s) → new s workers ≡ some p → IsValid p
  unfolding new
  new-IsValid workers p e = elim (Bool-cases (nat_eq (length workers) total_workers)) [
    | inl two ↦ subst IsValid (some_inj (rw two at e)) (empty-IsValid workers (ground arith))
    | inr other ↦ cc (rw other at e)
  ]

  record_request-IsValid :
      (env : Env) (id : Bytes) (r : DecryptionRequest) (p : RequestPool s)
      → IsValid p
      → request_id s r.filename r.witness_hex r.location ≡ id
      → requests_map.contains p.requests id ≡ false
      → IsValid (record_request s env id r p)
  unfolding record_request
  record_request-IsValid env id r p v e fresh = record {
    staffed = v.staffed;
    distinct =
        Distinct-push p.request_ids id v.distinct
          (v.listed id ∙ sym (requests_map.contains-get p.requests id) ∙ fresh);
    listed = λ j. ground (
      arith,
      v.listed j,
      contains-append p.request_ids (id ∷ []) j,
      requests_map.get-insert p.requests id r j,
    );
    counted = omega (arith, v.counted, length-append p.request_ids (id ∷ []));
    keyed = λ j q h.
        ground (arith, v.keyed j q, requests_map.get-insert p.requests id r j, list_eq_iff id j);
    tallied = v.tallied;
    attested = v.attested;
    known = λ j h. ground (arith, v.known j, requests_map.get-insert p.requests id r j);
  }

  add-IsValid :
      (env : Env) (f w l : GenericData) (p : RequestPool s)
      → IsValid p
      → IsValid (add s env f w l p).1
  unfolding add
  add-IsValid env f w l p v =
      elim (Bool-cases (requests_map.contains p.requests (request_id s f w l))) [
        | inl old ↦ rw old v
        | inr fresh ↦ rw fresh (record_request-IsValid env _ _ p v refl fresh)
      ]

  record_attestation-IsValid :
      (caller : AccountId) (id : Bytes) (a : Attestation) (p : RequestPool s)
      → IsValid p
      → requests_map.contains p.requests id ≡ true
      → fulfilled_map.contains p.fulfilled_attestations id ≡ false
      → IsValid (record_attestation s caller id a p).1
  unfolding record_attestation finalize_request
  record_attestation-IsValid caller id a p v there open' =
      let none_yet : unwrap_or (counts_map.get p.attestation_counts id) 0 ≡ 0 =
        ground (arith, v.tallied id, fulfilled_map.contains-get p.fulfilled_attestations id) in
      rw none_yet (record {
        staffed = v.staffed;
        distinct = v.distinct;
        listed = v.listed;
        counted = v.counted;
        keyed = v.keyed;
        tallied =
            λ j. rw (counts_map.get-insert, fulfilled_map.get-insert) (ground (arith, v.tallied j));
        attested = λ j w h. rw fulfilled_map.get-insert (
            ground (
              arith,
              v.attested j w,
              partials_map.get-insert p.partial_attestations (id, caller) a (j, w),
            ));
        known = λ j. rw fulfilled_map.get-insert λ h.
            ground
              (arith, v.known j, there, requests_map.contains-get p.requests id, list_eq_iff id j);
      })

  submit_partial_attestation-IsValid :
      (env : Env) (id : Bytes) (a : Attestation) (p : RequestPool s)
      → IsValid p
      → IsValid (submit_partial_attestation s env id a p).1
  unfolding submit_partial_attestation
  submit_partial_attestation-IsValid env id a p v =
      ground (arith, record_attestation-IsValid env.caller id a p v)

  pub step-IsValid : (c : Call s) (p : RequestPool s) → IsValid p → IsValid (step s c p).1
  unfolding step
  step-IsValid (adds env f w l) p v = add-IsValid env f w l p v
  step-IsValid (attests env id a) p v = submit_partial_attestation-IsValid env id a p v

  pub run-IsValid : (cs : List (Call s)) (p : RequestPool s) → IsValid p → IsValid (run s cs p)
  unfolding run
  run-IsValid [] p v = v
  run-IsValid (c ∷ cs) p v = run-IsValid cs (step s c p).1 (step-IsValid c p v)

  -- A pool that was constructed is well formed after any sequence of messages, whatever their
  -- outcome: the ids listed are those stored, none twice, each the hash of its request, their number
  -- is the count up to saturation, and a request is fulfilled exactly when it has one attestation.
  pub run-new-IsValid :
      (workers : List AccountId) (cs : List (Call s)) (p : RequestPool s)
      → new s workers ≡ some p
      → IsValid (run s cs p)
  run-new-IsValid workers cs p e = run-IsValid cs p (new-IsValid workers p e)
