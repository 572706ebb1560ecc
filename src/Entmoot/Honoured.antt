-- ===== src/Entmoot/Honoured.antt =====
-- From the encryption screen to the decryption screen of entmoot/src: the witness string that the one
-- prepares, read as in fangorn/src/crypto/cipher.rs, against the intent string of the other.
use fangorn_rs.Prelude.{◌≡◌, Bool, true}
use fangorn_rs.Rust.Text.{Text, IsText}
use fangorn_rs.Utils.{Ss58}
use fangorn_rs.Backend.{Backend}
use fangorn_rs.Gadget.Codec.{Bytes}
use fangorn_rs.Gadget.Psp22.{BalanceCodec}
use fangorn_rs.Gadget.Sr25519.{Hex, SignatureChain}
use fangorn_rs.Crypto.Decrypt.Witnesses.{IsWitness}
use fangorn_rs.Entmoot.Env.{Env}
use fangorn_rs.Entmoot.App.{App}
use fangorn_rs.Entmoot.Strings.{Entries}
use fangorn_rs.Entmoot.Accepted.{HasTokens, IsSigned}

module _ (S : Type 0) (ss58 : Ss58) (hex : Hex) (chain : SignatureChain S) (codec : BalanceCodec)
    (backend : Backend S Bytes Text Bytes) (sha256 : Bytes → Bytes) (world : S) (env : Env) where
  -- The user of the decryption screen meets the intents of some entries, as far as they are chosen: the
  -- password is the one that was entered, the account has the tokens, and the signer's signature on the
  -- account's nonce is valid. No witness has a comma, or whitespace at an end.
  pub record Meets (p c s : Bool) (e : Entries) (signature : Bytes) (address : Text) : Type 0 where
    pub text : IsText address
    pub tokens : c ≡ true → HasTokens S ss58 hex chain codec backend sha256 world e address
    pub signed : s ≡ true → IsSigned S ss58 hex chain codec backend sha256 world address signature
    pub password : p ≡ true → IsWitness e.password
    pub plain_address : IsWitness address
    pub plain_signature : IsWitness (hex.encode signature)
