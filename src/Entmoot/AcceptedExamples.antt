-- ===== src/Entmoot/AcceptedExamples.antt =====
-- A witness of the decryption screen of entmoot/src against the intents of the encryption screen, on
-- a chain on which every account has 120 tokens and the nonce 5.
use fangorn_rs.Prelude.{ℕ, some, [], ◌∷◌, replicate, ◌==◌, ℕ-Eq, List-Eq}
use fangorn_rs.Fixtures.{number_scale}
use fangorn_rs.Rust.Outcome.{ok}
use fangorn_rs.Rust.Text.{Text, codes}
use fangorn_rs.Backend.{Backend}
use fangorn_rs.Gadget.Codec.{Bytes}
use fangorn_rs.Gadget.Psp22.{BalanceCodec}
use fangorn_rs.Gadget.Sr25519.{SignatureChain}
use fangorn_rs.Entmoot.Desk.{account}
use fangorn_rs.Entmoot.Strings.{Entries}

abbrev chain : Backend ℕ Bytes Text Bytes
chain = record {
  read = λ contract method input world. ok (some (0 ∷ world ∷ []));
  write = λ contract method input world. (ok [], world);
}

abbrev signatures : SignatureChain ℕ
signatures = record {
  signature = λ b. some b;
  verify = λ signature message key. signature == replicate 64 7;
  nonce = λ world key. ok 5;
}

abbrev codec : BalanceCodec
codec = record { scale = number_scale; failure = λ b. b }

abbrev e : Entries
e = record { password = codes "a(b)c"; contract_address = account; token_count = codes "40" }
