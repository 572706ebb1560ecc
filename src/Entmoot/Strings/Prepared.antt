-- ===== src/Entmoot/Strings/Prepared.antt =====
-- The witness string of entmoot/src/menus/decryption/decrypt_screen.rs, as
-- fangorn/src/crypto/cipher.rs reads it.
use fangorn_rs.Prelude.{
  ℕ, ◌≡◌, refl, Bool, true, false, ◌||◌, some, List, [], ◌∷◌, ◌++◌, arith, contains-append, ℕ-Eq,
}
use fangorn_rs.Rust.Outcome.{ok}
use fangorn_rs.Rust.Text.{Text}
use fangorn_rs.Rust.Bytes.{to_le_bytes}
use fangorn_rs.Utils.{Ss58, decode_public_key, load_mnemonic}
use fangorn_rs.Gadget.Codec.{Bytes}
use fangorn_rs.Gadget.Sr25519.{Hex}
use fangorn_rs.Crypto.Decrypt.{parse_witnesses}
use fangorn_rs.Crypto.Decrypt.Witnesses.{
  comma, IsWitness, join_commas, starts_visible-append, ends_visible-append, parse_witnesses-join,
}
use fangorn_rs.Entmoot.Env.{Env}
use fangorn_rs.Entmoot.App.{App}
use fangorn_rs.Entmoot.Submission.{keystore_path}
use fangorn_rs.Entmoot.Decryption.{signed_nonce, witness_for, prepare_witness_string}
use fangorn_rs.Entmoot.Strings.{optional}

-- The witness of each intent that was chosen: the password, the address, and the address with a
-- signature.
abbrev pub witnesses_of : Bool → Bool → Bool → Text → Text → Bytes → List Text
witnesses_of p c s password address signature =
    optional p password (optional c address (optional s (address ++ signature) []))

pub IsWitness-append : (a b : Text) → IsWitness a → IsWitness b → IsWitness (a ++ b)
IsWitness-append a b h k = record {
  starts = starts_visible-append a b h.starts;
  ends = ends_visible-append a b k.ends;
  single = rw (contains-append a b comma, h.single) k.single;
}

module _ (env : Env) (ss58 : Ss58) (hex : Hex) where
  -- What signs in the name of the client: the mnemonic is there and makes a signer, whose account
  -- has a nonce on the chain.
  pub record Signs (app : App env) (signer : env.Signer) (n : ℕ) : Type 0 where
    pub mnemonic : Text
    pub backend : env.Backend
    pub loaded :
        load_mnemonic env.read_dir env.read_to_string keystore_path app.world ≡ some mnemonic
    pub made : env.from_phrase mnemonic ≡ some signer
    pub connected : app.substrate_backend ≡ some backend
    pub read :
        env.nonce
          (env.update_signer signer backend)
          (decode_public_key ss58 (env.address signer))
          app.world
        ≡ some n

  -- The signature on the nonce, in hex.
  abbrev pub signature_hex : env.Signer → ℕ → Bytes
  signature_hex signer n = hex.encode (env.sign signer (to_le_bytes 4 n))

  module _ (signer : env.Signer) (b : env.Backend) (w : env.World) (n : ℕ)
      (read : env.nonce b (decode_public_key ss58 (env.address signer)) w ≡ some n)
      (password : Text) where
    witness_for_lem :
        (p c s : Bool)
        → witness_for env ss58 hex p c s password signer b w
          ≡ ok (
              join_commas
                (witnesses_of p c s password (env.address signer) (signature_hex signer n)))
    unfolding witness_for signed_nonce
    witness_for_lem true true true = rw read
    witness_for_lem false true true = rw read
    witness_for_lem true false true = rw read
    witness_for_lem false false true = rw read
    witness_for_lem true true false = refl
    witness_for_lem false true false = refl
    witness_for_lem true false false = refl
    witness_for_lem false false false = refl

  parse_witnesses-witnesses_of :
      (p c s : Bool) (password address signature : Text)
      → (p || (c || s)) ≡ true
      → (p ≡ true → IsWitness password)
      → IsWitness address
      → IsWitness signature
      → parse_witnesses (join_commas (witnesses_of p c s password address signature))
        ≡ witnesses_of p c s password address signature
  parse_witnesses-witnesses_of true true true pw a sg h kp ka ks =
      parse_witnesses-join pw (a ∷ (a ++ sg) ∷ []) (kp refl) (ka, (IsWitness-append a sg ka ks, tt))
  parse_witnesses-witnesses_of true true false pw a sg h kp ka ks =
      parse_witnesses-join pw (a ∷ []) (kp refl) (ka, tt)
  parse_witnesses-witnesses_of true false true pw a sg h kp ka ks =
      parse_witnesses-join pw ((a ++ sg) ∷ []) (kp refl) (IsWitness-append a sg ka ks, tt)
  parse_witnesses-witnesses_of true false false pw a sg h kp ka ks =
      parse_witnesses-join pw [] (kp refl) tt
  parse_witnesses-witnesses_of false true true pw a sg h kp ka ks =
      parse_witnesses-join a ((a ++ sg) ∷ []) ka (IsWitness-append a sg ka ks, tt)
  parse_witnesses-witnesses_of false true false pw a sg h kp ka ks = parse_witnesses-join a [] ka tt
  parse_witnesses-witnesses_of false false true pw a sg h kp ka ks =
      parse_witnesses-join (a ++ sg) [] (IsWitness-append a sg ka ks) tt
  parse_witnesses-witnesses_of false false false pw a sg h kp ka ks = cc

  -- For every choice of intents the screen prepares a witness string from which one witness for each
  -- chosen intent is read, in the order in which the encryption screen writes the intents, if the
  -- password that is asked for, the address and the hex of the signature have no comma and no whitespace at their ends.
  pub prepare_witness_string-witnesses_of :
      (p c s : Bool) (password : Text) (app : App env) (signer : env.Signer) (n : ℕ)
      (signs : Signs app signer n)
      → app.display_password_input ≡ p
      → app.display_contract_address_input ≡ c
      → app.sr25519_intent ≡ s
      → (p || (c || s)) ≡ true
      → (p ≡ true → IsWitness password)
      → IsWitness (env.address signer)
      → IsWitness (signature_hex signer n)
      → (t : Text) × (prepare_witness_string env ss58 hex password app
          ≡ ok
              (t, record app { substrate_backend = some (env.update_signer signer signs.backend) }))
        × (parse_witnesses t
            ≡ witnesses_of p c s password (env.address signer) (signature_hex signer n))
  unfolding prepare_witness_string
  prepare_witness_string-witnesses_of p c s password app signer n signs hp hc hs some' kp ka ks =
      let b = env.update_signer signer signs.backend in
      (
        join_commas (witnesses_of p c s password (env.address signer) (signature_hex signer n)),
        ground (
          arith,
          signs.loaded,
          signs.made,
          signs.connected,
          witness_for_lem signer b app.world n signs.read password p c s,
        ),
        parse_witnesses-witnesses_of p c s password (env.address signer) (signature_hex signer n)
            some' kp ka ks,
      )
