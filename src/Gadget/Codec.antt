-- ===== src/Gadget/Codec.antt =====
-- SCALE encoding, of the crate parity-scale-codec and its derive macros. It is not part of the
-- repository: a type that the program encodes comes with a codec, which reads back what it wrote in
-- front of any rest.
use fangorn_rs.Prelude.{ℕ, ◌≡◌, Option, none, some, List, [], ◌++◌, append-nil}

abbrev pub Bytes : Type 0
Bytes = List ℕ

pub record Scale (A : Type 0) : Type 0 where
  pub encode : A → Bytes
  pub decode : Bytes → Option (A × Bytes)
  pub decode-encode : (a : A) (rest : Bytes) → decode (encode a ++ rest) ≡ some (a, rest)

-- `A::decode(&mut &bytes[..])`: what is left over is not looked at.
abbrev pub decode_all : {A : Type 0} → Scale A → Bytes → Option A
decode_all scale bytes = elim (scale.decode bytes) [ none ↦ none | some (a, rest) ↦ some a ]

pub decode-encode_end :
    {A : Type 0} (scale : Scale A) (a : A) → scale.decode (scale.encode a) ≡ some (a, [])
decode-encode_end scale a = rw append-nil at (scale.decode-encode a [])

pub decode_all-encode :
    {A : Type 0} (scale : Scale A) (a : A) → decode_all scale (scale.encode a) ≡ some a
decode_all-encode scale a = rw (decode-encode_end scale a, decode_all)
