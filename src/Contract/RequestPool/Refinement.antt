-- ===== src/Contract/RequestPool/Refinement.antt =====
-- contract/pool/lib.rs against its specification in Ledger.
use fangorn_rs.Prelude.{
  ◌≡◌, refl, sym, ap, ap₂, ◌∙◌, true, Option, some, List, [], ◌∷◌, ◌++◌, map, arith, length,
  contains, filter_map, is_some, ◌==◌, list_eq_iff, Bool-cases, Option-cases, subst, nat_eq,
  some_inj, inl, inr, ℕ-Eq, List-Eq, Pair-Eq,
}
use fangorn_rs.Contract.Ink.{Bytes, AccountId, Env}
use fangorn_rs.Contract.RequestPool.{
  Storage, RequestPool, DecryptionRequest, GenericData, Attestation, Call, adds, attests, new, add,
  record_request, submit_partial_attestation, record_attestation, finalize_request, read_all,
  get_attestation, step, run, total_workers,
}
use fangorn_rs.Contract.RequestPool.Invariant.{IsValid, new-IsValid, step-IsValid}
use fangorn_rs.Contract.RequestPool.Requests.{read_all-add}
use fangorn_rs.Contract.RequestPool.Attestations.{copies, submit_cases, submit-ne, step-workers}
use fangorn_rs.Contract.RequestPool.Ledger.{
  Ledger, id_of, has, spec_step, results, spec_results, spec_run, new_ledger,
}

module _ (s : Storage) where
  open s use {requests_map, fulfilled_map}

  pub record Represents (p : RequestPool s) (l : Ledger) : Type 0 where
    pub valid : IsValid s p
    pub same_workers : p.authorized_workers ≡ l.workers
    pub same_requests : read_all s p ≡ l.listed
    pub same_attestations : (id : Bytes) → get_attestation s p id ≡ l.published id

  ids-filter_map :
      (f : Bytes → Option DecryptionRequest) (ids : List Bytes)
      → ((j : Bytes)
          → contains ids j ≡ true
          → (r : DecryptionRequest) × (f j ≡ some r) × (id_of s r ≡ j))
      → map (id_of s) (filter_map f ids) ≡ ids
  ids-filter_map f [] h = refl
  ids-filter_map f (i ∷ ids) h =
      let (r, found, own) = h i (ground (arith, list_eq_iff i i)) in
      rw (filter_map, found)
        (ap₂ (λ x xs. x ∷ xs) own (ids-filter_map f ids (λ j m. h j (ground (arith, m)))))

  -- The listed requests are those of the index.
  has-read_all :
      (p : RequestPool s) (l : Ledger) (id : Bytes)
      → Represents p l
      → has s l id ≡ is_some (requests_map.get p.requests id)
  unfolding read_all
  has-read_all p l id h =
      ap (λ rs. contains (map (id_of s) rs) id) (sym h.same_requests)
      ∙ ap (λ ids. contains ids id)
          (ids-filter_map (requests_map.get p.requests) p.request_ids entry)
      ∙ h.valid.listed id
    where
      entry :
          (j : Bytes)
          → contains p.request_ids j ≡ true
          → (r : DecryptionRequest) × (requests_map.get p.requests j ≡ some r) × (id_of s r ≡ j)
      entry j m = elim (Option-cases (requests_map.get p.requests j)) [
        | inl e ↦ absurd (cc (sym m ∙ h.valid.listed j ∙ ap is_some e))
        | inr (r, e) ↦ (r, e, h.valid.keyed j r e)
      ]

  read_all-submit :
      (env : Env) (id : Bytes) (a : Attestation) (p : RequestPool s)
      → read_all s (submit_partial_attestation s env id a p).1 ≡ read_all s p
  unfolding read_all submit_partial_attestation record_attestation finalize_request
  read_all-submit env id a p = ground arith

  get_attestation-add :
      (env : Env) (f w x : GenericData) (id : Bytes) (p : RequestPool s)
      → get_attestation s (add s env f w x p).1 id ≡ get_attestation s p id
  unfolding get_attestation add record_request
  get_attestation-add env f w x id p = ground arith

  adds-Represents :
      (env : Env) (f w x : GenericData) (p : RequestPool s) (l : Ledger)
      → Represents p l
      → ((step s (adds env f w x) p).0 ≡ (spec_step s (adds env f w x) l).0)
        × Represents (step s (adds env f w x) p).1 (spec_step s (adds env f w x) l).1
  unfolding step
  adds-Represents env f w x p l h =
      let r : DecryptionRequest = record { filename = f; witness_hex = w; location = x } in
      let index = has-read_all p l (id_of s r) h in
      let next = step-IsValid s (adds env f w x) p h.valid in
      elim (read_all-add s env f w x p h.valid) [
        | inl (old, same) ↦ rw (same, index ∙ old) (refl, h)
        | inr (fresh, accepted, listed) ↦ rw (index ∙ fresh) (
          accepted,
          record {
            valid = next;
            same_workers = step-workers s (adds env f w x) p ∙ h.same_workers;
            same_requests = listed ∙ ap (λ rs. rs ++ r ∷ []) h.same_requests;
            same_attestations = λ id. get_attestation-add env f w x id p ∙ h.same_attestations id;
          },
        )
      ]

  attests-Represents :
      (env : Env) (id : Bytes) (a : Attestation) (p : RequestPool s) (l : Ledger)
      → Represents p l
      → ((step s (attests env id a) p).0 ≡ (spec_step s (attests env id a) l).0)
        × Represents (step s (attests env id a) p).1 (spec_step s (attests env id a) l).1
  unfolding step get_attestation
  attests-Represents env id a p l h =
      let index = has-read_all p l id h in
      let staff = ap (λ ws. contains ws env.caller) (sym h.same_workers) in
      let before = sym (h.same_attestations id) in
      let next = step-IsValid s (attests env id a) p h.valid in
      elim (submit_cases s env id a p h.valid) [
        | inl (stranger, same) ↦ rw (same, staff ∙ stranger) (refl, h)
        | inr (inl (worker, missing, same)) ↦ rw (same, staff ∙ worker, index ∙ missing) (refl, h)
        | inr (inr (inl (worker, done, same))) ↦ elim (Option-cases (get_attestation s p id)) [
          | inl e ↦ absurd (cc (sym done ∙ ap is_some e))
          | inr (b, e) ↦
              rw (same, staff ∙ worker, index ∙ h.valid.known id done, before ∙ e) (refl, h)
        ]
        | inr (inr (inr (worker, there, open', accepted, published))) ↦
            rw (staff ∙ worker, index ∙ there, before ∙ open')
              (
                accepted,
                record {
                  valid = next;
                  same_workers = step-workers s (attests env id a) p ∙ h.same_workers;
                  same_requests = read_all-submit env id a p ∙ h.same_requests;
                  same_attestations = λ j. elim (Bool-cases (id == j)) [
                    | inl same ↦ rw same (
                        subst
                          (λ k.
                            get_attestation s (submit_partial_attestation s env id a p).1 k
                            ≡ some (copies l.workers env.caller a))
                          ((list_eq_iff id j).0 same)
                          (published ∙ ap (λ ws. some (copies ws env.caller a)) h.same_workers))
                    | inr other ↦ rw other (submit-ne s env id j a p other ∙ h.same_attestations j)
                  ];
                },
              )
      ]

  step-Represents :
      (c : Call s) (p : RequestPool s) (l : Ledger)
      → Represents p l
      → ((step s c p).0 ≡ (spec_step s c l).0) × Represents (step s c p).1 (spec_step s c l).1
  step-Represents (adds env f w x) p l h = adds-Represents env f w x p l h
  step-Represents (attests env id a) p l h = attests-Represents env id a p l h

  run-Represents :
      (cs : List (Call s)) (p : RequestPool s) (l : Ledger)
      → Represents p l
      → (results s cs p ≡ spec_results s cs l) × Represents (run s cs p) (spec_run s cs l)
  unfolding run
  run-Represents [] p l h = (refl, h)
  run-Represents (c ∷ cs) p l h =
      let (same, next) = step-Represents c p l h in
      let (rest, last) = run-Represents cs (step s c p).1 (spec_step s c l).1 next in
      (ap₂ (λ x xs. x ∷ xs) same rest, last)

  new-Represents :
      (workers : List AccountId) (p : RequestPool s)
      → new s workers ≡ some p
      → Represents p (new_ledger workers)
  unfolding new read_all get_attestation
  new-Represents workers p made = elim (Bool-cases (nat_eq (length workers) total_workers)) [
    | inl two ↦
        let fresh = some_inj (rw two at made) in
        record {
          valid = new-IsValid s workers p made;
          same_workers = ap (λ q. q.authorized_workers) (sym fresh);
          same_requests = ap (read_all s) (sym fresh);
          same_attestations =
              λ id. ap (λ q. get_attestation s q id) (sym fresh) ∙ fulfilled_map.get-new id;
        }
    | inr other ↦ cc (rw other at made)
  ]

  -- A constructed pool is the list of its accepted requests with at most one attestation for an id:
  -- whatever messages come, it gives the results of the specification, and then `read_all` gives the
  -- listed requests in order, and `get_attestation` what was published.
  pub run-refine :
      (workers : List AccountId) (cs : List (Call s)) (p : RequestPool s)
      → new s workers ≡ some p
      → (results s cs p ≡ spec_results s cs (new_ledger workers))
        × (read_all s (run s cs p) ≡ (spec_run s cs (new_ledger workers)).listed)
        × ((id : Bytes)
            → get_attestation s (run s cs p) id ≡ (spec_run s cs (new_ledger workers)).published id)
  run-refine workers cs p made =
      let (same, last) = run-Represents cs p (new_ledger workers) (new-Represents workers p made) in
      (same, last.same_requests, last.same_attestations)
