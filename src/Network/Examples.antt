-- ===== src/Network/Examples.antt =====
-- A node whose recipients echo its messages, over the store of Fixtures, on a chain whose pool
-- contract does not know the selector of attestations.
use fangorn_rs.Prelude.{ℕ, ◌≡◌, refl, none, some, List, [], ◌∷◌, false}
use mathlib.Core.List.{Memᴰ}
use fangorn_rs.Fixtures.{hex, ss58, bytes_scale, list_scale, number_scale}
use fangorn_rs.Fixtures.Stores.{message_scale, cell, registry, schemes, encrypted_once}
use fangorn_rs.Rust.Outcome.{ok, err, panic}
use fangorn_rs.Rust.Text.{codes, as_bytes}
use fangorn_rs.Gadget.Codec.{Bytes, Scale}
use fangorn_rs.Gadget.{get_gadget, verify_intents, verify_intent, verify_pairs, resolve}
use fangorn_rs.Gadget.Password.{password_gadget}
use fangorn_rs.Pool.{DecryptionRequest, PartialDecryptionMessage, request_scale}
use fangorn_rs.Pool.ContractPool.{submit_partial_attestation}
use fangorn_rs.Crypto.Decrypt.{decryption_request}
use fangorn_rs.Service.Request.{response, sends, process_decryption_request, prepare}
use fangorn_rs.Service.Request.Authorized.{Authorized}
use fangorn_rs.Network.{NodeSide, node_services}
use fangorn_rs.Network.Worker.{Visit, process, worker, worker-unregistered, worker-Authorized}

abbrev witnesses : Scale (List Bytes)
witnesses = list_scale bytes_scale

abbrev message : Scale PartialDecryptionMessage
message = message_scale bytes_scale

-- A node whose partial decryptions are all 9.
abbrev node : NodeSide schemes ℕ
node = record {
  Address = Bytes;
  address = λ b. some b;
  partial_decryption = λ ct. ok 9;
  serialize = λ pd. pd ∷ [];
  deliver = λ to msg. response msg;
  ss58 = ss58;
  codecs = record {
    bytes = bytes_scale;
    requests = list_scale (request_scale bytes_scale);
    number = number_scale;
    failure = λ b. b;
  };
  backend = record {
    read = λ contract method input world. ok none;
    write = λ contract method input world. (err [], world);
  };
  pool_address = [];
}

abbrev request_id : DecryptionRequest → Bytes
request_id r = r.filename

abbrev msg : Bytes
msg =
    message.encode
      (record { filename = as_bytes (codes "f"); index = 1; partial_decryption_bytes = 9 ∷ [] })

-- A request with the password, and one with another word.
abbrev asked : DecryptionRequest
asked = decryption_request hex witnesses (1 ∷ []) (codes "f") (codes "abc" ∷ [])

abbrev guessed : DecryptionRequest
guessed = decryption_request hex witnesses (1 ∷ []) (codes "f") (codes "xyz" ∷ [])

abbrev known : Visit hex schemes cell registry witnesses message node request_id 1
known = record { req = asked; stores = encrypted_once; chain = 0 }

abbrev refused : Visit hex schemes cell registry witnesses message node request_id 1
refused = record { req = guessed; stores = encrypted_once; chain = 0 }

-- A store in which nothing is registered, and a request for the file of another one.
abbrev unknown : Visit hex schemes cell registry witnesses message node request_id 1
unknown = record { req = asked; stores = (none, none); chain = 0 }

process-known :
    process hex schemes cell registry witnesses message node request_id 1 known
    ≡ (panic, sends (1 ∷ []) msg ∷ [])
unfolding process_decryption_request prepare decryption_request as_bytes verify_intents verify_pairs
    verify_intent resolve password_gadget submit_partial_attestation get_gadget
process-known = refl

worker-unregistered_example :
    worker hex schemes cell registry witnesses message node request_id 1
      (refused ∷ unknown ∷ known ∷ [])
    ≡ (
      false,
      (worker hex schemes cell registry witnesses message node request_id 1 (refused ∷ [])).1,
    )
worker-unregistered_example =
    worker-unregistered hex schemes cell registry witnesses message node request_id 1 (refused ∷ [])
      unknown (known ∷ []) refl

sent :
    Memᴰ
      (sends (1 ∷ []) msg)
      (worker hex schemes cell registry witnesses message node request_id 1
        (refused ∷ known ∷ [])).1
unfolding worker process_decryption_request prepare decryption_request as_bytes verify_intents
    verify_pairs verify_intent resolve password_gadget submit_partial_attestation get_gadget
sent = Memᴰ.head refl

worker-Authorized_example :
    (v : Visit hex schemes cell registry witnesses message node request_id 1) × Memᴰ v
      (refused ∷ known ∷ [])
    × Authorized
        (node_services schemes node cell v.stores v.chain)
        hex
        witnesses
        message
        request_id
        registry
        v.chain
        1
        v.req
        (1 ∷ [])
        msg
worker-Authorized_example =
    worker-Authorized hex schemes cell registry witnesses message node request_id 1
      (refused ∷ known ∷ []) (1 ∷ []) msg sent
