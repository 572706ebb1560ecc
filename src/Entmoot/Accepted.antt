-- ===== src/Entmoot/Accepted.antt =====
-- What the decryption screen of entmoot/src prepares, against what the encryption screen registered:
-- the gadgets of fangorn/src/gadget accept it.
use fangorn_rs.Prelude.{
  ℕ, ◌≤◌, ◌≡◌, refl, sym, ap, ◌∙◌, Bool, true, false, ◌||◌, some, List, [], ◌∷◌, ◌++◌, append_assoc,
  map, length, contains, all, arith, ℕ-Eq, ==-refl, List-Eq,
}
use fangorn_rs.Rust.Outcome.{ok}
use fangorn_rs.Rust.Text.{
  Text, codes, trim, trim_start, as_bytes, encode_utf8, IsText, is_whitespace,
}
use fangorn_rs.Rust.Bytes.{u128_max, to_le_bytes, parse_uint}
use fangorn_rs.Rust.Bytes.Digits.{is_digit, parse_uint-digits}
use fangorn_rs.Rust.Decimal.{value_from}
use fangorn_rs.Rust.Lines.{is_empty}
use fangorn_rs.Utils.{Ss58, decode_public_key, decode_contract_addr, length-decode_contract_addr}
use fangorn_rs.Backend.{Backend}
use fangorn_rs.Gadget.Codec.{Bytes, Scale}
use fangorn_rs.Gadget.Syntax.{Nom}
use fangorn_rs.Gadget.{Intent, parse_intents, verify_intents}
use fangorn_rs.Gadget.Registry.{stored}
use fangorn_rs.Gadget.Accepts.{
  AcceptsOne, gadget-AcceptsOne, Accepts, Accepts-nil, Accepts-cons, Accepts-verify_intents,
}
use fangorn_rs.Gadget.Password
use fangorn_rs.Gadget.Psp22
use fangorn_rs.Gadget.Psp22.{BalanceCodec}
use fangorn_rs.Gadget.Psp22.Balance.{statement_of, verify_witness-statement_of}
use fangorn_rs.Gadget.Sr25519
use fangorn_rs.Gadget.Sr25519.{Hex, SignatureChain, signed_message, verify_witness-signed}
use fangorn_rs.Crypto.Gadgets.{gadget_registry, get_gadget-gadget_registry}
use fangorn_rs.Crypto.Decrypt.Witnesses.{comma, split-cut, split-last, trim-visible, ends_visible}
use fangorn_rs.Entmoot.Strings.{Entries, AreContents, intents_of, pairs_of, optional}
use fangorn_rs.Entmoot.Strings.Intents.{parse_intent_string-intents_of}
use fangorn_rs.Entmoot.Strings.Prepared.{witnesses_of}

as_bytes-append : (s t : Text) → as_bytes (s ++ t) ≡ as_bytes s ++ as_bytes t
unfolding as_bytes
as_bytes-append [] t = refl
as_bytes-append (c ∷ s) t =
    ap (λ b. encode_utf8 c ++ b) (as_bytes-append s t)
    ∙ sym (append_assoc (encode_utf8 c) (as_bytes s) (as_bytes t))

no_comma-digits : (t : Text) → all is_digit t ≡ true → contains t comma ≡ false
no_comma-digits [] h = refl
no_comma-digits (c ∷ t) h = ground (arith, no_comma-digits t)

visible-digit : (c : ℕ) → is_digit c ≡ true → is_whitespace c ≡ false
unfolding is_whitespace
visible-digit c h = ground arith

ends_visible-digits : (c : ℕ) (t : Text) → all is_digit (c ∷ t) ≡ true → ends_visible (c ∷ t) ≡ true
ends_visible-digits c [] h = ground (arith, visible-digit c)
ends_visible-digits c (d ∷ t) h = ends_visible-digits d t (ground (arith, h))

-- The space that the format puts in front of the number is trimmed, and the number is read.
parse-spaced :
    (t : Text)
    → is_empty t ≡ false
    → all is_digit t ≡ true
    → value_from 0 t ≤ u128_max
    → parse_uint u128_max (trim (b' ' ∷ t)) ≡ some (value_from 0 t)
unfolding trim trim_start is_whitespace
parse-spaced [] e h fits = cc
parse-spaced (c ∷ t) e h fits =
    let digit : is_digit c ≡ true = ground (arith, h) in
    ap (parse_uint u128_max)
      (trim-visible (c ∷ t) (ground (arith, visible-digit c digit)) (ends_visible-digits c t h))
    ∙ parse_uint-digits u128_max c t h fits

module _ (S : Type 0) (ss58 : Ss58) (hex : Hex) (chain : SignatureChain S) (codec : BalanceCodec)
    (backend : Backend S Bytes Text Bytes) (sha256 : Bytes → Bytes) (world : S) where
  abbrev Accepting : Text × Text → Text → Type 0
  Accepting = AcceptsOne (gadget_registry S ss58 hex chain codec backend sha256) world

  password-AcceptsOne : (password : Text) → Accepting (codes "Password", password) password
  unfolding Password.password_gadget Password.parse_intent_data Password.verify_witness
  password-AcceptsOne password =
      gadget-AcceptsOne _ world (codes "Password") password password
        (Password.password_gadget S sha256) (sha256 (as_bytes password))
        (get_gadget-gadget_registry S ss58 hex chain codec backend sha256).0 refl
        (ap ok (==-refl (sha256 (as_bytes password))))

  -- An account that the contract knows to have at least the entered number of tokens.
  pub record HasTokens (e : Entries) (address : Text) : Type 0 where
    pub entered : is_empty e.token_count ≡ false
    pub digits : all is_digit e.token_count ≡ true
    pub fits : value_from 0 e.token_count ≤ u128_max
    pub single : contains e.contract_address comma ≡ false
    pub flag : ℕ
    pub balance : ℕ
    pub answers :
        backend.read
          (decode_contract_addr ss58 (trim e.contract_address))
          (codes "PSP22::balance_of")
          (some (decode_public_key ss58 address))
          world
        ≡ ok (some (flag ∷ codec.scale.encode balance))
    pub enough : value_from 0 e.token_count ≤ balance

  psp22_statement :
      (e : Entries) (address : Text)
      → HasTokens e address
      → Psp22.parse_intent_data S ss58 codec backend
          (e.contract_address ++ (codes ", " ++ e.token_count))
        ≡ ok (
            statement_of S ss58 codec backend
              (trim e.contract_address)
              (value_from 0 e.token_count))
  unfolding Psp22.parse_intent_data Psp22.parse_parts
  psp22_statement e address h = rw (
    split-cut comma e.contract_address (b' ' ∷ e.token_count) h.single,
    split-last comma (b' ' ∷ e.token_count)
        (ground (arith, no_comma-digits e.token_count h.digits)),
    length-decode_contract_addr ss58 (trim e.contract_address),
    parse-spaced e.token_count h.entered h.digits h.fits,
  )

  psp22-AcceptsOne :
      (e : Entries) (address : Text)
      → IsText address
      → HasTokens e address
      → Accepting (codes "Psp22", e.contract_address ++ (codes ", " ++ e.token_count)) address
  unfolding Psp22.psp22_gadget
  psp22-AcceptsOne e address text h =
      gadget-AcceptsOne _ world (codes "Psp22")
        (e.contract_address ++ (codes ", " ++ e.token_count)) address
        (Psp22.psp22_gadget S ss58 codec backend)
        (statement_of S ss58 codec backend (trim e.contract_address) (value_from 0 e.token_count))
        (get_gadget-gadget_registry S ss58 hex chain codec backend sha256).1
        (psp22_statement e address h)
        (verify_witness-statement_of S ss58 codec backend world address (trim e.contract_address)
            (value_from 0 e.token_count) h.balance h.flag text h.fits h.answers
          ∙ ap ok (ground (arith, h.enough)))

  -- A signature on the nonce that the account of the address has, whose hex is ASCII.
  pub record IsSigned (address : Text) (signature : Bytes) : Type 0 where
    pub nonce : ℕ
    pub long : length (as_bytes address) ≡ 48
    pub whole : length signature ≡ 64
    pub ascii : as_bytes (hex.encode signature) ≡ hex.encode signature
    pub format : chain.signature signature ≡ some signature
    pub current : chain.nonce world (decode_public_key ss58 address) ≡ ok nonce
    pub valid : chain.verify signature (to_le_bytes 4 nonce) (decode_public_key ss58 address) ≡ true

  sr25519-AcceptsOne :
      (address : Text) (signature : Bytes)
      → IsText address
      → IsSigned address signature
      → Accepting (codes "Sr25519", []) (address ++ hex.encode signature)
  unfolding Sr25519.sr25519_gadget Sr25519.parse_intent_data
  sr25519-AcceptsOne address signature text h =
      gadget-AcceptsOne _ world (codes "Sr25519") [] (address ++ hex.encode signature)
        (Sr25519.sr25519_gadget S ss58 hex chain) []
        (get_gadget-gadget_registry S ss58 hex chain codec backend sha256).2 refl
        (ap (λ w. Sr25519.verify_witness S ss58 hex chain world w [])
            (as_bytes-append address (hex.encode signature)
              ∙ ap (λ b. as_bytes address ++ b) h.ascii)
          ∙ verify_witness-signed S ss58 hex chain world address signature [] h.nonce text h.long
              h.whole h.format h.current
          ∙ ap ok h.valid)

  -- Only what was chosen has to be accepted.
  optional-Accepts :
      (b : Bool) (p : Text × Text) (w : Text) (ps : List (Text × Text)) (ws : List Text)
      → (b ≡ true → Accepting p w)
      → Accepts (gadget_registry S ss58 hex chain codec backend sha256) world ps ws
      → Accepts
          (gadget_registry S ss58 hex chain codec backend sha256)
          world
          (optional b p ps)
          (optional b w ws)
  optional-Accepts true p w ps ws one rest = Accepts-cons _ world p w ps ws (one refl) rest
  optional-Accepts false p w ps ws one rest = rest

  -- What the decryption screen prepares is accepted for what the encryption screen registered: for
  -- every choice of intents, the intent string makes intents, and the witnesses for the same choice
  -- are verified against them as they come back from storage, if the password, the tokens and the
  -- signature are what they should be as far as they were chosen.
  pub verify_intents-intents_of :
      (nom : Nom) (scale : Scale (List Bytes)) (p c s : Bool) (e : Entries) (address : Text)
      (signature : Bytes)
      → (p || (c || s)) ≡ true
      → AreContents e
      → IsText address
      → (c ≡ true → HasTokens e address)
      → (s ≡ true → IsSigned address signature)
      → (is : List (Intent S)) × (parse_intents nom
            (gadget_registry S ss58 hex chain codec backend sha256)
            (intents_of p c s e)
          ≡ ok is)
        × (verify_intents scale
              (gadget_registry S ss58 hex chain codec backend sha256)
              world
              (map (stored (gadget_registry S ss58 hex chain codec backend sha256)) is)
              (scale.encode
                (map as_bytes (witnesses_of p c s e.password address (hex.encode signature))))
            ≡ ok true)
  unfolding parse_intents
  verify_intents-intents_of nom scale p c s e address signature some' contents text tokens signed =
      let content = e.contract_address ++ (codes ", " ++ e.token_count) in
      let proof = address ++ hex.encode signature in
      let ps1 = optional s (codes "Sr25519", []) [] in
      let ws1 = optional s proof [] in
      let accepted =
        optional-Accepts p (codes "Password", e.password) e.password
          (optional c (codes "Psp22", content) ps1) (optional c address ws1)
          (λ _. password-AcceptsOne e.password)
          (optional-Accepts c (codes "Psp22", content) address ps1 ws1
            (λ chosen. psp22-AcceptsOne e address text (tokens chosen))
            (optional-Accepts s (codes "Sr25519", []) proof [] []
              (λ chosen. sr25519-AcceptsOne address signature text (signed chosen))
              (Accepts-nil _ world))) in
      let (is, made, verified) =
        Accepts-verify_intents _ world scale (pairs_of p c s e)
          (witnesses_of p c s e.password address (hex.encode signature)) accepted in
      (is, rw (parse_intent_string-intents_of nom e contents p c s some') made, verified)
