-- ===== src/Fixtures/Chain.antt =====
-- Addresses, hex and a hash in place of the crates of the chain, for the examples.
use fangorn_rs.Prelude.{
  ℕ, zero, suc, ◌+◌, ◌≤◌, ◌≡◌, refl, ap, Option, none, some, [], ◌∷◌, length, take, nat_eq,
  if◌then◌else◌, arith, ℕ-Eq,
}
use fangorn_rs.Rust.Text.{Text}
use fangorn_rs.Utils.{Ss58}
use fangorn_rs.Gadget.Codec.{Bytes}
use fangorn_rs.Gadget.Sr25519.{Hex}

-- A text of 48 characters is the address of its first 32.
abbrev pub address : Text → Option Bytes
address t = if nat_eq (length t) 48 then some (take 32 t) else none

length-take : (n : ℕ) (t : Text) → n ≤ length t → length (take n t) ≡ n
length-take zero t h = refl
length-take (suc n) [] h = absurd (omega arith)
length-take (suc n) (c ∷ t) h = ap suc (length-take n t (omega arith))

pub address-length : (t : Text) (a : Bytes) → address t ≡ some a → length a ≡ 32
address-length t a h = ground (arith, length-take 32 t)

abbrev pub ss58 : Ss58
ss58 = record {
  account = address;
  public = address;
  account-length = address-length;
  public-length = address-length;
}

-- Each byte twice.
abbrev pub hex_encode : Bytes → Bytes
hex_encode [] = []
hex_encode (b ∷ bytes) = b ∷ b ∷ hex_encode bytes

abbrev pub hex_decode : Bytes → Option Bytes
hex_decode [] = some []
hex_decode (a ∷ []) = none
hex_decode (a ∷ b ∷ bytes) =
    let rest = hex_decode bytes in elim rest [ none ↦ none | some r ↦ some (a ∷ r) ]

pub hex_decode-encode : (b : Bytes) → hex_decode (hex_encode b) ≡ some b
hex_decode-encode [] = refl
hex_decode-encode (b ∷ bytes) = ground (arith, hex_decode-encode bytes)

pub length-hex_encode : (b : Bytes) → length (hex_encode b) ≡ length b + length b
length-hex_encode [] = omega arith
length-hex_encode (b ∷ bytes) = omega (arith, length-hex_encode bytes)

abbrev pub hex : Hex
hex = record {
  encode = hex_encode;
  decode = hex_decode;
  decode-encode = hex_decode-encode;
  length-encode = length-hex_encode;
}

-- A hash that is the identity.
abbrev pub plain_hash : Bytes → Bytes
plain_hash b = b
