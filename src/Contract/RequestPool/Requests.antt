-- ===== src/Contract/RequestPool/Requests.antt =====
-- Adding and listing requests in contract/pool/lib.rs.
use fangorn_rs.Prelude.{
  min, ◌≡◌, ◌⊎◌, refl, sym, ap, ◌∙◌, true, false, Option, some, List, [], ◌∷◌, ◌++◌, arith, length,
  contains, filter_map, is_some, ◌==◌, list_eq_iff, ==-refl, Bool-cases, inl, inr, ℕ-Eq, List-Eq,
  Pair-Eq,
}
use fangorn_rs.Contract.Ink.{Bytes, AccountId, Env, ok, err}
use fangorn_rs.Contract.RequestPool.{
  Storage, RequestPool, DecryptionRequest, GenericData, Call, record_request, add, request_id,
  read_all, count, request_already_exists, u64_max, run, new,
}
use fangorn_rs.Contract.RequestPool.Invariant.{IsValid, run-new-IsValid}

-- The listing of ids that are not `id` does not see what is stored under `id`.
filter_map-congr {ℓ} :
    {B : Type ℓ} (f g : Bytes → Option B) (id : Bytes) (xs : List Bytes)
    → ((j : Bytes) → (id == j) ≡ false → f j ≡ g j)
    → contains xs id ≡ false
    → filter_map f xs ≡ filter_map g xs
filter_map-congr f g id [] same h = refl
filter_map-congr f g id (x ∷ xs) same h =
    ground (arith, filter_map-congr f g id xs same, same x, list_eq_iff id x, list_eq_iff x id)

filter_map-append {ℓ} :
    {B : Type ℓ} (f : Bytes → Option B) (xs : List Bytes) (x : Bytes) (b : B)
    → f x ≡ some b
    → filter_map f (xs ++ x ∷ []) ≡ filter_map f xs ++ b ∷ []
filter_map-append f [] x b h = ground arith
filter_map-append f (y ∷ xs) x b h = ground (arith, filter_map-append f xs x b h)

length-filter_map {ℓ} :
    {B : Type ℓ} (f : Bytes → Option B) (xs : List Bytes)
    → ((j : Bytes) → contains xs j ≡ true → is_some (f j) ≡ true)
    → length (filter_map f xs) ≡ length xs
length-filter_map f [] h = refl
length-filter_map f (x ∷ xs) h =
    ground (arith, h x, list_eq_iff x x, length-filter_map f xs (λ j k. h j (ground (arith, k))))

module _ (s : Storage) where
  open s use {requests_map}

  read_all-record_request :
      (env : Env) (id : Bytes) (r : DecryptionRequest) (p : RequestPool s)
      → contains p.request_ids id ≡ false
      → read_all s (record_request s env id r p) ≡ read_all s p ++ r ∷ []
  unfolding read_all record_request
  read_all-record_request env id r p fresh =
      let new_map = requests_map.insert p.requests id r in
      filter_map-append (requests_map.get new_map) p.request_ids id r
        (ground (arith, requests_map.get-insert p.requests id r id, list_eq_iff id id))
      ∙ ap (λ l. l ++ r ∷ [])
          (filter_map-congr (requests_map.get new_map) (requests_map.get p.requests) id
            p.request_ids (λ j ne. ground (arith, requests_map.get-insert p.requests id r j, ne))
            fresh)

  -- `add` refuses a request whose id is stored, and then changes nothing; any other it accepts, and
  -- `read_all` lists it after those that it listed before.
  pub read_all-add :
      (env : Env) (f w l : GenericData) (p : RequestPool s)
      → IsValid s p
      → ((is_some (requests_map.get p.requests (request_id s f w l)) ≡ true)
          × (add s env f w l p ≡ (err request_already_exists, p)))
        ⊎ ((is_some (requests_map.get p.requests (request_id s f w l)) ≡ false)
            × ((add s env f w l p).0 ≡ ok tt)
            × (read_all s (add s env f w l p).1
                ≡ read_all s p ++ record { filename = f; witness_hex = w; location = l } ∷ []))
  unfolding add
  read_all-add env f w l p v =
      let id = request_id s f w l in
      let stored = requests_map.contains-get p.requests id in
      elim (Bool-cases (requests_map.contains p.requests id)) [
        | inl old ↦ inl (sym stored ∙ old, rw old)
        | inr fresh ↦ inr (
          sym stored ∙ fresh,
          rw fresh,
          rw fresh (read_all-record_request env id _ p (v.listed id ∙ sym stored ∙ fresh)),
        )
      ]

  -- In a constructed pool, after any messages, `count` is the number of requests that `read_all`
  -- lists, up to the largest u64.
  pub count-read_all :
      (workers : List AccountId) (cs : List (Call s)) (p : RequestPool s)
      → new s workers ≡ some p
      → count s (run s cs p) ≡ min (length (read_all s (run s cs p))) u64_max
  unfolding count read_all
  count-read_all workers cs p e =
      let q = run s cs p in
      let v : IsValid s q = run-new-IsValid s workers cs p e in
      omega (
        arith,
        v.counted,
        length-filter_map (requests_map.get q.requests) q.request_ids (λ j k. sym (v.listed j) ∙ k),
      )

  -- The id hashes the plain concatenation of the three parts, with no lengths. So once a request
  -- was accepted, another request whose parts only cut the same bytes differently is refused.
  pub add_collides :
      (env env' : Env) (f w l f' w' l' : GenericData) (p : RequestPool s)
      → f ++ w ++ l ≡ f' ++ w' ++ l'
      → (add s env f w l p).0 ≡ ok tt
      → add s env' f' w' l' (add s env f w l p).1
        ≡ (err request_already_exists, (add s env f w l p).1)
  unfolding add record_request request_id
  add_collides env env' f w l f' w' l' p same accepted =
      let id = request_id s f w l in
      let present : (r : DecryptionRequest)
          → requests_map.contains (requests_map.insert p.requests id r) id ≡ true =
        λ r. rw (requests_map.contains-get, requests_map.get-insert, ==-refl id) in
      elim (Bool-cases (requests_map.contains p.requests id)) [
        | inl old ↦ cc (rw old at accepted)
        | inr fresh ↦ rw (fresh, ← same, present)
      ]
