-- ===== src/Gadget/Sr25519.antt =====
-- fangorn/src/gadget/sr25519.rs: the gadget that checks a signature over the statement and the nonce
-- of the signer's account. The hex codec, the signature scheme and the chain are parameters.
use fangorn_rs.Prelude.{
  append-cancel, ℕ, ◌+◌, ◌<◌, ◌≡◌, ◌^◌, sym, ap, ◌∙◌, Bool, Option, some, [], ◌++◌, length,
  length-append, take, drop, take-append, drop-append, nat_eq, if◌then◌else◌, arith,
}
use fangorn_rs.Rust.Outcome.{Outcome, ok, err, ok_or, unwrap, unwrap_result, ◌>>=◌}
use fangorn_rs.Rust.Text.{Text, codes, from_utf8, as_bytes, IsText, from_utf8-as_bytes}
use fangorn_rs.Rust.Bytes.{to_le_bytes, from_le_bytes, from_le_bytes-to_le_bytes}
use fangorn_rs.Rust.Decimal.{show_ℕ}
use fangorn_rs.Utils.{Ss58, decode_public_key}
use fangorn_rs.Backend.{AnyError}
use fangorn_rs.Gadget.Codec.{Bytes}
use fangorn_rs.Gadget.{IntentError, verification_error, Gadget}

-- The crate hex: two characters for a byte.
pub record Hex : Type 0 where
  pub encode : Bytes → Bytes
  pub decode : Bytes → Option Bytes
  pub decode-encode : (b : Bytes) → decode (encode b) ≡ some b
  pub length-encode : (b : Bytes) → length (encode b) ≡ length b + length b

-- What the gadget takes from `sp_core::sr25519` and from the node of the chain in state `S`.
pub record SignatureChain (S : Type 0) : Type 0 where
  -- `Signature::try_from` of 64 bytes
  pub signature : Bytes → Option Bytes
  -- `Pair::verify(signature, message, public_key)`
  pub verify : Bytes → Bytes → Bytes → Bool
  -- `SubstrateBackend::nonce`
  pub nonce : S → Bytes → Outcome AnyError ℕ

module _ (S : Type 0) (ss58 : Ss58) (hex : Hex) (chain : SignatureChain S) where
  -- `statement || nonce`, the nonce as a u32.
  abbrev pub signed_message : Bytes → ℕ → Bytes
  signed_message statement nonce = statement ++ to_le_bytes 4 nonce

  -- The part of `verify_witness` behind the decoding of the public key and of the signature.
  unfoldable pub check_signature : S → Bytes → Bytes → Bytes → Outcome IntentError Bool
  check_signature world pubkey signature_bytes statement =
      if nat_eq (length signature_bytes) 64
      then (do
        signature ←
            ok_or (chain.signature signature_bytes)
              (verification_error (codes "Invalid Sr25519 Signature format"))
        nonce ← unwrap_result (chain.nonce world pubkey)
        ok (chain.verify signature (signed_message statement nonce) pubkey))
      else err (verification_error (codes "Invalid Signature length"))

  unfoldable pub verify_witness : S → Bytes → Bytes → Outcome IntentError Bool
  verify_witness world witness statement =
      if nat_eq (length witness) 176
      then (do
        pubkey_string ← unwrap (from_utf8 (take 48 witness))
        signature_bytes ← unwrap (hex.decode (drop 48 witness))
        check_signature world (decode_public_key ss58 pubkey_string) signature_bytes statement)
      else err (
          verification_error (
            codes "Witness must be 176 bytes (Pubkey-as-ss58 + Signature). Got "
            ++ show_ℕ (length witness)))

  unfoldable pub parse_intent_data : Text → Outcome IntentError Bytes
  parse_intent_data content = ok []

  unfoldable pub sr25519_gadget : Gadget S
  sr25519_gadget = record {
    intent_type_id = codes "Sr25519";
    verify_witness = verify_witness;
    parse_intent_data = parse_intent_data;
  }

  -- A witness of an address of 48 bytes and a signature of 64 bytes in hex is judged by the signature
  -- scheme on the statement followed by the current nonce of the address's account.
  pub verify_witness-signed :
      (world : S) (address : Text) (signature : Bytes) (statement : Bytes) (nonce : ℕ)
      → IsText address
      → length (as_bytes address) ≡ 48
      → length signature ≡ 64
      → chain.signature signature ≡ some signature
      → chain.nonce world (decode_public_key ss58 address) ≡ ok nonce
      → verify_witness world (as_bytes address ++ hex.encode signature) statement
        ≡ ok (
            chain.verify signature
              (signed_message statement nonce)
              (decode_public_key ss58 address))
  unfolding verify_witness check_signature
  verify_witness-signed world address signature statement nonce text long sig format current =
      let whole : length (as_bytes address ++ hex.encode signature) ≡ 176 = omega (
        arith,
        length-append (as_bytes address) (hex.encode signature),
        hex.length-encode signature,
      ) in
      rw (
        whole,
        take-append 48 (as_bytes address) (hex.encode signature) long,
        from_utf8-as_bytes address text,
        drop-append 48 (as_bytes address) (hex.encode signature) long,
        hex.decode-encode signature,
        sig,
        format,
        current,
      )

  -- Two nonces of u32 give two messages: a signature is checked against another message once the
  -- account's nonce has moved.
  pub signed_message-injective :
      (statement : Bytes) (m n : ℕ)
      → m < 256 ^ 4
      → n < 256 ^ 4
      → signed_message statement m ≡ signed_message statement n
      → m ≡ n
  signed_message-injective statement m n hm hn e =
      sym (from_le_bytes-to_le_bytes 4 m hm)
      ∙ ap from_le_bytes (append-cancel statement e)
      ∙ from_le_bytes-to_le_bytes 4 n hn
