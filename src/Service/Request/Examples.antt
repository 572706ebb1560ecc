-- ===== src/Service/Request/Examples.antt =====
-- A node that answers a request for a file with one password intent, as in
-- fangorn/src/node/service.rs. The recipient echoes what it gets.
use fangorn_rs.Prelude.{ℕ, ◌≡◌, refl, ◌⊎◌, none, some, List, [], ◌∷◌}
use fangorn_rs.Fixtures.{hex, bytes_scale, list_scale, plain_hash}
use fangorn_rs.Fixtures.Stores.{message_scale}
use fangorn_rs.Rust.Outcome.{ok}
use fangorn_rs.Rust.Text.{codes, as_bytes}
use fangorn_rs.Gadget.Codec.{Bytes, Scale}
use fangorn_rs.Gadget.{
  GadgetRegistry, Intent, verify_intents, verify_intent, verify_pairs, resolve, get_gadget,
}
use fangorn_rs.Gadget.Password.{password_gadget}
use fangorn_rs.Pool.{DecryptionRequest, PartialDecryptionMessage}
use fangorn_rs.Service.Request.{
  Services, Effect, sends, attests, response, process_decryption_request, prepare,
}
use fangorn_rs.Service.Request.Authorized.{Authorized}
use fangorn_rs.Service.Request.Answered.{process-Authorized}

abbrev secret : Intent ℕ
secret = record {
  intent_type = codes "Password";
  statement = as_bytes (codes "abc");
  gadget = none;
}

abbrev registry : GadgetRegistry ℕ
registry = record { gadgets = (codes "Password", password_gadget ℕ plain_hash) ∷ [] }

-- A partial decryption is the ciphertext.
abbrev services : Services ℕ
services = record {
  Cid = Bytes;
  Ciphertext = Bytes;
  PartialDecryption = Bytes;
  Address = Bytes;
  get_intent = λ f. ok (some (codes "c", secret ∷ []));
  fetch = λ c. ok (some (9 ∷ []));
  deserialize = λ b. some b;
  partial_decryption = λ ct. ok ct;
  serialize = λ pd. pd;
  address = λ b. some b;
  deliver = λ to msg. response msg;
  submit = λ i a. ok tt;
}

abbrev witnesses : Scale (List Bytes)
witnesses = list_scale bytes_scale

abbrev message : Scale PartialDecryptionMessage
message = message_scale bytes_scale

abbrev request : DecryptionRequest
request = record {
  filename = codes "f";
  witness_hex = hex.encode (witnesses.encode (codes "abc" ∷ []));
  location = 5 ∷ [];
}

abbrev request_id : DecryptionRequest → Bytes
request_id r = r.filename

-- Node 1's message for the file.
abbrev msg : Bytes
msg = message.encode (record { filename = codes "f"; index = 1; partial_decryption_bytes = 9 ∷ [] })

abbrev attestation : List (Effect Bytes)
attestation = attests (codes "f") [] ∷ []

process-Authorized_example :
    (to : Bytes) × (m : Bytes) × (◌≡◌ {A = Effect Bytes} (sends (5 ∷ []) msg) (sends to m))
    × Authorized services hex witnesses message request_id registry 0 1 request to m
    × ((attestation ≡ [])
        ⊎ ((attestation ≡ attests (codes "f") [] ∷ []) × (response m ≡ response m)))
unfolding process_decryption_request prepare verify_intents verify_pairs verify_intent resolve
    get_gadget password_gadget as_bytes
process-Authorized_example =
    process-Authorized services hex witnesses message request_id registry 0 1 request
      (sends (5 ∷ []) msg) attestation refl
