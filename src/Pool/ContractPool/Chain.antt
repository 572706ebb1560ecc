-- ===== src/Pool/ContractPool/Chain.antt =====
-- The pool of fangorn/src/pool/contract_pool.rs over a chain that runs the contract of
-- contract/pool/lib.rs.
use fangorn_rs.Prelude.{
  ◌≡◌, refl, ap, sym, ◌∙◌, none, some, List, [], ◌∷◌, ◌++◌, map, inl, inr, ℕ-Eq, List-Eq,
}
use fangorn_rs.Rust.Outcome.{ok}
use fangorn_rs.Rust.Text.{Text, codes}
use fangorn_rs.Utils.{Ss58, decode_contract_addr}
use fangorn_rs.Backend.{Backend}
use fangorn_rs.Contract.Ink
use fangorn_rs.Contract.Ink.{Env}
use fangorn_rs.Contract.Transaction.{Settles, Settles-done}
use fangorn_rs.Contract.RequestPool
use fangorn_rs.Contract.RequestPool.{Storage, RequestPool, u64_max, count as counted}
use fangorn_rs.Contract.RequestPool.Invariant.{IsValid}
use fangorn_rs.Contract.RequestPool.Requests.{read_all-add}
use fangorn_rs.Gadget.Codec.{Bytes, decode_all-encode}
use fangorn_rs.Pool.{DecryptionRequest, encode_request}
use fangorn_rs.Pool.ContractPool.{PoolCodecs, add, read_all, count}

-- A stored request, as the struct of the client.
abbrev pub of_contract : RequestPool.DecryptionRequest → DecryptionRequest
of_contract r = record { filename = r.filename; witness_hex = r.witness_hex; location = r.location }

-- What the pool relies on of the chain and of ink!: calls at the address run the messages of the
-- contract on the state `pool s`, for the environment of the transaction, and a reply comes behind a
-- status byte.
pub record RunsPool (S : Type 0) (codecs : PoolCodecs) (st : Storage)
    (backend : Backend S Bytes Text Bytes) (address : Bytes) : Type 0 where
  pub pool : S → RequestPool st
  pub env : S → Env
  pub write-add :
      (r : DecryptionRequest) (s : S)
      → let sent = backend.write address (codes "add") (encode_request codecs.bytes r) s in
        Settles
          (pool s)
          (RequestPool.add st (env s) r.filename r.witness_hex r.location (pool s))
          (sent.0, pool sent.1)
  pub read-read_all :
      (s : S)
      → backend.read address (codes "read_all") none s
        ≡ ok
            (some (0 ∷ codecs.requests.encode (map of_contract (RequestPool.read_all st (pool s)))))
  pub read-count :
      (s : S)
      → backend.read address (codes "count") none s
        ≡ ok (some (0 ∷ codecs.number.encode (counted st (pool s))))

map-append : {A B : Type 0} (f : A → B) (xs ys : List A) → map f (xs ++ ys) ≡ map f xs ++ map f ys
map-append f [] ys = refl
map-append f (x ∷ xs) ys = ap (λ l. f x ∷ l) (map-append f xs ys)

module _ (S : Type 0) (ss58 : Ss58) (codecs : PoolCodecs) (backend : Backend S Bytes Text Bytes)
    (contract_address : Text) (st : Storage)
    (chain : RunsPool S codecs st backend (decode_contract_addr ss58 contract_address)) where
  open chain use {pool, env, write-add, read-read_all, read-count}

  read_all_lem :
      (s : S)
      → read_all S ss58 codecs backend contract_address s
        ≡ ok (map of_contract (RequestPool.read_all st (pool s)))
  unfolding read_all
  read_all_lem s =
      rw
        (
          read-read_all s,
          decode_all-encode codecs.requests (map of_contract (RequestPool.read_all st (pool s))),
        )
        refl

  -- The message that accepted a request has put it at the end of the requests.
  accepted :
      (r : DecryptionRequest) (p p' : RequestPool st) (e : Env)
      → IsValid st p
      → RequestPool.add st e r.filename r.witness_hex r.location p ≡ (Ink.ok tt, p')
      → map of_contract (RequestPool.read_all st p')
        ≡ map of_contract (RequestPool.read_all st p) ++ r ∷ []
  accepted r p p' e v ran = elim (read_all-add st e r.filename r.witness_hex r.location p v) [
    | inl (old, refused) ↦ absurd (cc (ap (λ x. x.0) (sym refused ∙ ran)))
    | inr (fresh, done, listed) ↦
        ap (λ x. map of_contract (RequestPool.read_all st x.1)) (sym ran)
        ∙ ap (map of_contract) listed
        ∙ map-append of_contract (RequestPool.read_all st p) _
  ]

  -- A request that was added to a valid pool is read back: after it was accepted, `read_all` returns
  -- what it returned before, followed by the request.
  pub read_all-contract_add :
      (r : DecryptionRequest) (s : S)
      → IsValid st (pool s)
      → let sent = add S ss58 codecs backend contract_address r s in
        sent.0 ≡ ok tt
        → (rs : List DecryptionRequest) × (read_all S ss58 codecs backend contract_address s
            ≡ ok rs)
          × (read_all S ss58 codecs backend contract_address sent.1 ≡ ok (rs ++ r ∷ []))
  unfolding add
  read_all-contract_add r s v done =
      let sent =
        backend.write (decode_contract_addr ss58 contract_address) (codes "add")
          (encode_request codecs.bytes r) s in
      let (a, ran) = Settles-done (pool s) (pool sent.1) _ sent.0 (write-add r s) done in
      (
        map of_contract (RequestPool.read_all st (pool s)),
        read_all_lem s,
        read_all_lem sent.1 ∙ ap ok (accepted r (pool s) (pool sent.1) (env s) v ran),
      )

  -- `count` is the count that the contract keeps.
  pub count_lem :
      (s : S) → count S ss58 codecs backend contract_address s ≡ ok (counted st (pool s))
  unfolding count
  count_lem s = rw (read-count s, decode_all-encode codecs.number (counted st (pool s))) refl
