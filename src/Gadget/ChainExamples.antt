-- ===== src/Gadget/ChainExamples.antt =====
-- The gadgets of fangorn/src/gadget/psp22.rs and fangorn/src/gadget/sr25519.rs on concrete inputs:
-- a chain on which every account has the balance that is the state, and a signature that is 64 sevens.
use fangorn_rs.Prelude.{
  ℕ, zero, suc, ◌≡◌, refl, true, some, [], ◌∷◌, ◌==◌, replicate, arith, ℕ-Eq, List-Eq,
}
use fangorn_rs.Fixtures.{number_scale, ss58}
use fangorn_rs.Rust.Outcome.{ok}
use fangorn_rs.Rust.Text.{Text, as_bytes, IsText}
use fangorn_rs.Backend.{Backend}
use fangorn_rs.Gadget.Codec.{Bytes}
use fangorn_rs.Gadget.Psp22
use fangorn_rs.Gadget.Psp22.{BalanceCodec, check_balance}
use fangorn_rs.Gadget.Psp22.Balance.{statement_of, verify_witness-statement_of}
use fangorn_rs.Gadget.Sr25519.{SignatureChain}

abbrev chain : Backend ℕ Bytes Text Bytes
chain = record {
  read = λ account method input world. ok (some (0 ∷ world ∷ []));
  write = λ account method input world. (ok [], world);
}

abbrev codec : BalanceCodec
codec = record { scale = number_scale; failure = λ b. b }

abbrev contract : Text
contract = replicate 48 b'5'

contract-IsText : (n : ℕ) → IsText (replicate n b'5')
contract-IsText zero = tt
contract-IsText (suc n) = (refl, contract-IsText n)

verify_witness-statement_of_example :
    Psp22.verify_witness ℕ ss58 codec chain 120
      (as_bytes contract)
      (statement_of ℕ ss58 codec chain contract 100)
    ≡ ok true
unfolding Psp22.verify_witness
verify_witness-statement_of_example =
    verify_witness-statement_of ℕ ss58 codec chain 120 contract contract 100 120 0
      (contract-IsText 48) (omega arith) refl

abbrev signer : SignatureChain ℕ
signer = record {
  signature = λ b. some b;
  verify = λ signature message key. signature == replicate 64 7;
  nonce = λ world key. ok world;
}
