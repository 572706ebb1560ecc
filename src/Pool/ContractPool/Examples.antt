-- ===== src/Pool/ContractPool/Examples.antt =====
-- The pool of fangorn/src/pool/contract_pool.rs and its watcher on concrete inputs. The chain is the
-- state of one pool contract.
use fangorn_rs.Prelude.{
  ℕ, Bool, ◌⊎◌, length, nat_eq, ◌≡◌, refl, false, Option, none, some, List, [], ◌∷◌, ◌++◌, Distinct,
  ◌==◌, if◌then◌else◌, inl, inr, map, ℕ-Eq, List-Eq, Pair-Eq,
}
use fangorn_rs.Fixtures.{bytes_scale, number_scale, list_scale, ss58, plain_hash}
use fangorn_rs.Rust.Outcome.{Outcome, ok, err}
use fangorn_rs.Rust.Text.{Text, codes}
use fangorn_rs.Utils.{decode_contract_addr}
use fangorn_rs.Backend.{Backend, AnyError}
use fangorn_rs.Contract.Ink
use fangorn_rs.Contract.Ink.{Env, AccountId, function_mapping}
use fangorn_rs.Contract.Transaction.{Settles}
use fangorn_rs.Contract.RequestPool
use fangorn_rs.Contract.RequestPool.{Storage, RequestPool, empty, new, count as counted}
use fangorn_rs.Contract.RequestPool.Invariant.{new-IsValid}
use fangorn_rs.Gadget.Codec.{Bytes, Scale, decode_all, decode_all-encode}
use fangorn_rs.Pool.{DecryptionRequest, encode_request, decode_request, request_scale, id}
use fangorn_rs.Pool.ContractPool.{PoolCodecs, add, read_all}
use fangorn_rs.Pool.ContractPool.Chain.{of_contract, RunsPool, read_all-contract_add}
use fangorn_rs.Pool.Watcher
use fangorn_rs.Pool.Watcher.{Round, reads, fails, closed, watch}
use fangorn_rs.Pool.Watcher.Once.{AllSent, polled, watch-once}

abbrev storage : Storage
storage = record {
  requests_map = function_mapping;
  partials_map = function_mapping;
  counts_map = function_mapping;
  fulfilled_map = function_mapping;
  blake2x256 = λ b. b;
}

abbrev codecs : PoolCodecs
codecs = record {
  bytes = bytes_scale;
  requests = list_scale (request_scale bytes_scale);
  number = number_scale;
  failure = λ b. b;
}

abbrev Contract : Type 0
Contract = RequestPool storage

abbrev by_alice : Env
by_alice = record { caller = 1 ∷ []; block_timestamp = 7 }

abbrev settle :
    {E A : Type 0} → Contract → Ink.Result E A × Contract → Outcome AnyError Bytes × Contract
settle before (Ink.ok a, after) = (ok [], after)
settle before (Ink.err e, after) = (err [], before)

settle-Settles :
    {E A : Type 0} (before : Contract) (out : Ink.Result E A × Contract)
    → Settles before out (settle before out)
settle-Settles before (Ink.ok a, after) = inl ([], refl, a, refl)
settle-Settles before (Ink.err e, after) = inr ([], refl, refl)

module _ (request : Scale DecryptionRequest) (requests : Scale (List DecryptionRequest)) where
  abbrev add_decoded : Option DecryptionRequest → Contract → Outcome AnyError Bytes × Contract
  add_decoded none p = (err [], p)
  add_decoded (some r) p =
      settle p (RequestPool.add storage by_alice r.filename r.witness_hex r.location p)

  abbrev write : Text → Bytes → Contract → Outcome AnyError Bytes × Contract
  write method input p =
      if codes "add" == method then add_decoded (decode_all request input) p else (err [], p)

  abbrev read : Text → Contract → Outcome AnyError (Option Bytes)
  read method p =
      if codes "read_all" == method
      then ok (some (0 ∷ requests.encode (map of_contract (RequestPool.read_all storage p))))
      else ok (some (0 ∷ counted storage p ∷ []))

  abbrev chain : Backend Contract Bytes Text Bytes
  chain = record {
    read = λ account method input p. read method p;
    write = λ account method input p. write method input p;
  }

  write-add_lem :
      (r : DecryptionRequest) (p : Contract)
      → Settles p
          (RequestPool.add storage by_alice r.filename r.witness_hex r.location p)
          (write (codes "add") (request.encode r) p)
  write-add_lem r p =
      rw (decode_all-encode request r)
        (settle-Settles p (RequestPool.add storage by_alice r.filename r.witness_hex r.location p))

abbrev backend : Backend Contract Bytes Text Bytes
backend = chain (request_scale bytes_scale) codecs.requests

runs : RunsPool Contract codecs storage backend (decode_contract_addr ss58 [])
runs = record {
  pool = λ p. p;
  env = λ p. by_alice;
  write-add = write-add_lem (request_scale bytes_scale) codecs.requests;
  read-read_all = λ p. refl;
  read-count = λ p. refl;
}

abbrev start : Contract
start = empty storage ((1 ∷ []) ∷ (2 ∷ []) ∷ [])

abbrev request : DecryptionRequest
request = record { filename = codes "f"; witness_hex = codes "00"; location = codes "here" }

read_all-contract_add_example :
    (rs : List DecryptionRequest) × (read_all Contract ss58 codecs backend [] start ≡ ok rs)
    × (read_all Contract ss58 codecs backend []
          (add Contract ss58 codecs backend [] request start).1
        ≡ ok (rs ++ request ∷ []))
unfolding add runs RequestPool.add RequestPool.new RequestPool.request_id RequestPool.hash_request
    decode_request encode_request
read_all-contract_add_example =
    read_all-contract_add Contract ss58 codecs backend [] storage runs request start
      (new-IsValid storage ((1 ∷ []) ∷ (2 ∷ []) ∷ []) start refl) refl

abbrev rounds : List Round
rounds = reads (request ∷ []) ∷ reads (request ∷ request ∷ []) ∷ fails [] ∷ []

-- The receiver goes after the first request.
abbrev first_only : ℕ → Bool
first_only n = nat_eq n 0

watch-once_example :
    Distinct (
      map
        (id bytes_scale plain_hash)
        (watch (id bytes_scale plain_hash) first_only rounds Watcher.new).1.sent)
    × (AllSent
          (id bytes_scale plain_hash)
          first_only
          (watch (id bytes_scale plain_hash) first_only rounds Watcher.new).1
          (polled (id bytes_scale plain_hash) first_only rounds)
        ⊎ (((watch (id bytes_scale plain_hash) first_only rounds Watcher.new).0 ≡ err closed)
            × (first_only
                  (length (watch (id bytes_scale plain_hash) first_only rounds Watcher.new).1.sent)
                ≡ false)))
watch-once_example = watch-once (id bytes_scale plain_hash) first_only rounds
