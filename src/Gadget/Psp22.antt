-- ===== src/Gadget/Psp22.antt =====
-- fangorn/src/gadget/psp22.rs: the gadget that asks a PSP22 contract for a balance. The chain is a
-- parameter behind the backend interface, and so are the SS58 and SCALE codecs.
pub mod Balance
use fangorn_rs.Prelude.{
  ℕ, Bool, none, some, List, [], ◌∷◌, ◌++◌, length, take, drop, nat_eq, leb, if◌then◌else◌,
}
use fangorn_rs.Rust.Outcome.{Outcome, ok, err, ok_or, unwrap, map_err, ◌>>=◌}
use fangorn_rs.Rust.Text.{Text, codes, trim, split, from_utf8}
use fangorn_rs.Rust.Bytes.{u128_max, to_le_bytes, from_le_bytes, parse_uint}
use fangorn_rs.Utils.{Ss58, decode_public_key, decode_contract_addr}
use fangorn_rs.Backend.{Backend}
use fangorn_rs.Gadget.Codec.{Bytes, Scale}
use fangorn_rs.Gadget.{IntentError, parse_error, verification_error, Gadget}

-- `data.remove(0)` behind the test for emptiness.
abbrev pub remove_status : Bytes → Bytes
remove_status [] = []
remove_status (b ∷ bytes) = bytes

-- `u128` in SCALE, and what its failure to decode is called.
pub record BalanceCodec : Type 0 where
  pub scale : Scale ℕ
  pub failure : Bytes → Text

abbrev decode_balance : BalanceCodec → Bytes → Outcome IntentError ℕ
decode_balance codec bytes = elim (codec.scale.decode bytes) [
  | none ↦ err (verification_error (codes "Decode failed: " ++ codec.failure bytes))
  | some (balance, rest) ↦ ok balance
]

module _ (S : Type 0) (ss58 : Ss58) (codec : BalanceCodec)
    (backend : Backend S Bytes Text Bytes) where
  -- The part of `verify_witness` behind the decoding of the witness.
  unfoldable pub check_balance : S → Bytes → Bytes → Outcome IntentError Bool
  check_balance world account statement =
      if nat_eq (length account) 32
      then if nat_eq (length statement) 48
        then (do
          let token_contract = take 32 statement
          let minimum_balance = from_le_bytes (take 16 (drop 32 statement))
          result ←
              map_err (λ e. verification_error (codes "Contract query failed: " ++ e))
                (backend.read token_contract (codes "PSP22::balance_of") (some account) world)
          bytes ← unwrap result
          balance ← decode_balance codec (remove_status bytes)
          ok (leb minimum_balance balance))
        else err (verification_error (codes "Statement must be 48 bytes (32 addr + 16 balance)"))
      else err (verification_error (codes "Witness must be 32-byte account ID"))

  unfoldable pub verify_witness : S → Bytes → Bytes → Outcome IntentError Bool
  unfolding check_balance
  verify_witness world witness statement = do
    pubkey_string ← unwrap (from_utf8 witness)
    check_balance world (decode_public_key ss58 pubkey_string) statement

  -- The two parts that the comma separates.
  unfoldable pub parse_parts : List Text → Outcome IntentError Bytes
  parse_parts (address ∷ minimum ∷ []) =
      let contract_addr = decode_contract_addr ss58 (trim address) in
      if nat_eq (length contract_addr) 32
      then (do
        min_balance ←
            ok_or (parse_uint u128_max (trim minimum))
              (parse_error (codes "Minimum balance must be a valid u128."))
        ok (contract_addr ++ to_le_bytes 16 min_balance))
      else err (parse_error (codes "Address must be 32 bytes"))
  parse_parts _ = err (parse_error (codes "PSP22 format: contract_address,minimum_balance"))

  unfoldable pub parse_intent_data : Text → Outcome IntentError Bytes
  unfolding parse_parts
  parse_intent_data content = parse_parts (split b',' content)

  unfoldable pub psp22_gadget : Gadget S
  psp22_gadget = record {
    intent_type_id = codes "Psp22";
    verify_witness = verify_witness;
    parse_intent_data = parse_intent_data;
  }
