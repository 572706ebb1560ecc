-- ===== src/Fixtures/Scales.antt =====
-- Byte codecs in place of the parity-scale-codec crate, for the examples.
use fangorn_rs.Prelude.{
  ℕ, zero, suc, ◌≡◌, refl, Option, none, some, List, [], ◌∷◌, ◌++◌, length, length-append, take,
  drop, take-length, drop-length, leb, if◌then◌else◌, arith, ℕ-Eq, ◌==◌, append_assoc,
}
use fangorn_rs.Gadget.Codec.{Bytes, Scale}
use fangorn_rs.Types.{Announcement, Tag, config, hint, doc, system_keys, decryption_request}

-- A byte string behind its length.
abbrev pub encode_bytes : Bytes → Bytes
encode_bytes b = length b ∷ b

abbrev pub decode_bytes : Bytes → Option (Bytes × Bytes)
decode_bytes [] = none
decode_bytes (n ∷ r) = if leb n (length r) then some (take n r, drop n r) else none

pub decode-encode_bytes : (b rest : Bytes) → decode_bytes (encode_bytes b ++ rest) ≡ some (b, rest)
decode-encode_bytes b rest =
    ground (arith, length-append b rest, take-length b rest, drop-length b rest)

abbrev pub bytes_scale : Scale Bytes
bytes_scale = record {
  encode = encode_bytes;
  decode = decode_bytes;
  decode-encode = decode-encode_bytes;
}

-- A number as itself.
abbrev pub decode_number : Bytes → Option (ℕ × Bytes)
decode_number [] = none
decode_number (n ∷ r) = some (n, r)

abbrev pub number_scale : Scale ℕ
number_scale = record {
  encode = λ n. n ∷ [];
  decode = decode_number;
  decode-encode = λ n rest. refl;
}

-- A list behind its length.
module _ {A : Type 0} (item : Scale A) where
  abbrev pub encode_items : List A → Bytes
  encode_items [] = []
  encode_items (a ∷ l) = item.encode a ++ encode_items l

  abbrev pub decode_items : ℕ → Bytes → Option (List A × Bytes)
  decode_items zero b = some ([], b)
  decode_items (suc n) b = elim (item.decode b) [
    | none ↦ none
    | some (a, r) ↦ elim (decode_items n r) [ none ↦ none | some (l, r') ↦ some (a ∷ l, r') ]
  ]

  pub decode-encode_items :
      (l : List A) (rest : Bytes)
      → decode_items (length l) (encode_items l ++ rest) ≡ some (l, rest)
  decode-encode_items [] rest = refl
  decode-encode_items (a ∷ l) rest = ground (
    arith,
    append_assoc (item.encode a) (encode_items l) rest,
    item.decode-encode a (encode_items l ++ rest),
    decode-encode_items l rest,
  )

  abbrev pub decode_list : Bytes → Option (List A × Bytes)
  decode_list [] = none
  decode_list (n ∷ r) = decode_items n r

  abbrev pub list_scale : Scale (List A)
  list_scale = record {
    encode = λ l. length l ∷ encode_items l;
    decode = decode_list;
    decode-encode = decode-encode_items;
  }

module _ {A B : Type 0} (first : Scale A) (second : Scale B) where
  abbrev pub decode_pair : Bytes → Option ((A × B) × Bytes)
  decode_pair b = elim (first.decode b) [
    | none ↦ none
    | some (a, r) ↦ elim (second.decode r) [ none ↦ none | some (c, r') ↦ some ((a, c), r') ]
  ]

  pub decode-encode_pair :
      (p : A × B) (rest : Bytes)
      → decode_pair ((first.encode p.0 ++ second.encode p.1) ++ rest) ≡ some (p, rest)
  decode-encode_pair (a, c) rest = ground (
    arith,
    append_assoc (first.encode a) (second.encode c) rest,
    first.decode-encode a (second.encode c ++ rest),
    second.decode-encode c rest,
  )

  abbrev pub pair_scale : Scale (A × B)
  pair_scale = record {
    encode = λ p. first.encode p.0 ++ second.encode p.1;
    decode = decode_pair;
    decode-encode = decode-encode_pair;
  }

-- An option behind a zero or a one.
module _ {A : Type 0} (item : Scale A) where
  abbrev pub encode_option : Option A → Bytes
  encode_option none = 0 ∷ []
  encode_option (some a) = 1 ∷ item.encode a

  abbrev pub decode_option : Bytes → Option (Option A × Bytes)
  decode_option [] = none
  decode_option (zero ∷ b) = some (none, b)
  decode_option (suc n ∷ b) = elim (item.decode b) [ none ↦ none | some (a, r) ↦ some (some a, r) ]

  pub decode-encode_option :
      (o : Option A) (rest : Bytes) → decode_option (encode_option o ++ rest) ≡ some (o, rest)
  decode-encode_option none rest = refl
  decode-encode_option (some a) rest = rw (item.decode-encode a rest) refl

  abbrev pub option_scale : Scale (Option A)
  option_scale = record {
    encode = encode_option;
    decode = decode_option;
    decode-encode = decode-encode_option;
  }

abbrev pub tag_byte : Tag → ℕ
tag_byte config = 0
tag_byte hint = 1
tag_byte doc = 2
tag_byte system_keys = 3
tag_byte decryption_request = 4

abbrev pub byte_tag : ℕ → Tag
byte_tag n =
    if n == 0
    then config
    else if n == 1
    then hint
    else if n == 2
    then doc
    else if n == 3
    then system_keys
    else decryption_request

pub byte_tag-tag_byte : (t : Tag) → byte_tag (tag_byte t) ≡ t
byte_tag-tag_byte config = refl
byte_tag-tag_byte hint = refl
byte_tag-tag_byte doc = refl
byte_tag-tag_byte system_keys = refl
byte_tag-tag_byte decryption_request = refl

abbrev pub decode_announcement : Scale Bytes → Bytes → Option (Announcement × Bytes)
decode_announcement scale [] = none
decode_announcement scale (t ∷ b) = elim (scale.decode b) [
  | none ↦ none
  | some (payload, rest) ↦ some (record { tag = byte_tag t; payload = payload }, rest)
]

pub decode_announcement_lem :
    (scale : Scale Bytes) (a : Announcement) (rest : Bytes)
    → decode_announcement scale (tag_byte a.tag ∷ scale.encode a.payload ++ rest) ≡ some (a, rest)
decode_announcement_lem scale a rest =
    rw (scale.decode-encode a.payload rest, byte_tag-tag_byte a.tag) refl

-- The tag, and the payload behind its length.
abbrev pub announcement_scale : Scale Bytes → Scale Announcement
announcement_scale scale = record {
  encode = λ a. tag_byte a.tag ∷ scale.encode a.payload;
  decode = decode_announcement scale;
  decode-encode = decode_announcement_lem scale;
}
