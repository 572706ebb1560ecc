-- ===== src/Gadget/Password.antt =====
-- fangorn/src/gadget/password.rs. SHA-256 is a parameter.
use fangorn_rs.Prelude.{◌≡◌, ◌↔◌, Bool, true, ◌==◌, list_eq_iff, ℕ-Eq, List-Eq, arith}
use fangorn_rs.Rust.Outcome.{Outcome, ok, ◌>>=◌}
use fangorn_rs.Rust.Text.{Text, codes, as_bytes}
use fangorn_rs.Gadget.Codec.{Bytes}
use fangorn_rs.Gadget.{IntentError, Gadget}

module _ (W : Type 0) (sha256 : Bytes → Bytes) where
  unfoldable pub verify_witness : W → Bytes → Bytes → Outcome IntentError Bool
  verify_witness world witness statement = ok (sha256 witness == statement)

  unfoldable pub parse_intent_data : Text → Outcome IntentError Bytes
  parse_intent_data content = ok (sha256 (as_bytes content))

  unfoldable pub password_gadget : Gadget W
  unfolding verify_witness parse_intent_data
  password_gadget = record {
    intent_type_id = codes "Password";
    verify_witness = verify_witness;
    parse_intent_data = parse_intent_data;
  }

  -- For the statement that is made of a password, a witness is accepted exactly when it has the hash
  -- of the password's bytes. The statement is always made, and verification never fails.
  pub verify_witness-parse_intent_data :
      (world : W) (password : Text) (witness : Bytes)
      → ((do
        statement ← password_gadget.parse_intent_data password
        password_gadget.verify_witness world witness statement)
          ≡ ok true)
        ↔ (sha256 witness ≡ sha256 (as_bytes password))
  unfolding password_gadget
  verify_witness-parse_intent_data world password witness =
      ground (arith, list_eq_iff (sha256 witness) (sha256 (as_bytes password)))
