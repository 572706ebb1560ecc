-- ===== src/Fixtures/Stores.antt =====
-- Files, a store of one document and one entry, and an encryption that is the identity, for the
-- examples about the clients of fangorn/src/crypto, and the codec of a node's message.
use fangorn_rs.Prelude.{
  ℕ, ◌≡◌, refl, ap, sym, ◌∙◌, false, Option, none, some, List, [], ◌∷◌, ◌++◌, ◌==◌, some_inj, map,
  ℕ-Eq, List-Eq, arith, list_eq_iff, append-cancel, append_assoc,
}
use fangorn_rs.Fixtures.Chain.{plain_hash}
use fangorn_rs.Fixtures.Vaults.{Entries, put, put-own, put-other}
use fangorn_rs.Rust.Outcome.{ok}
use fangorn_rs.Rust.Text.{Text, codes, as_bytes}
use fangorn_rs.Gadget.Codec.{Bytes, Scale}
use fangorn_rs.Pool.{PartialDecryptionMessage}
use fangorn_rs.Gadget.{Gadget, GadgetRegistry, Intent}
use fangorn_rs.Gadget.Password.{password_gadget}
use fangorn_rs.Storage.DocStore.{Files}
use fangorn_rs.Storage.IntentStore.Chain.{without_gadget}
use fangorn_rs.Crypto.AppStore.{AppStore}
use fangorn_rs.Crypto.Collect.{Decryption}
use fangorn_rs.Crypto.Encrypt.{Encryption}
use fangorn_rs.Crypto.Handlers.{Schemes}

pub apart_lem : (x y : Text) → ¬ (x ≡ y) → (x == y) ≡ false
apart_lem x y apart = ground (arith, list_eq_iff x y)

abbrev pub files : Files Entries
files = record {
  read_file = λ v name. v name;
  create_dir = λ v dir. some v;
  write_file = λ v name text. some (put v name text);
  join = λ dir name. dir ++ name;
  read-write = λ v v' name text h. ap (λ w. w name) (sym (some_inj h)) ∙ put-own v name text;
  read-write_other = λ v v' name other text h apart.
      ap (λ w. w other) (sym (some_inj h))
      ∙ put-other v name other text (apart_lem other name apart);
  read-create_dir = λ v v' dir name h. ap (λ w. w name) (sym (some_inj h));
  join-injective = λ dir x y e. append-cancel dir e;
}

-- The last document, and the last entry, whose filename is not looked at.
abbrev pub Cell : Type 0
Cell = Option Bytes × Option (Unit {0} × List (Intent ℕ))

abbrev pub cell : AppStore ℕ
cell = record {
  State = Cell;
  Cid = Unit {0};
  add = λ b s. (ok tt, (some b, s.1));
  fetch = λ c s. ok s.0;
  register_intent = λ f c is s. (ok tt, (s.0, some (c, map without_gadget is)));
  get_intent = λ f s. ok s.1;
  fetch-add_law = λ b c s s' h. ap (λ p. ok p.1.0) (sym h);
  fetch-register_law = λ f c d is s s' h. ap (λ p. ok p.1.0) (sym h);
  get-register_law = λ f c is s s' h. ap (λ p. ok p.1.1) (sym h);
}

abbrev pub encryption : Encryption
encryption = record {
  Point = Bytes;
  Key = List ℕ;
  Ciphertext = Bytes;
  sha256 = λ b. b;
  hash_to_g2 = λ m c. m;
  aggregate_key = λ subset. subset;
  encrypt = λ key t point pt. ok pt;
  serialize = λ ct. some ct;
}

abbrev pub password : Gadget ℕ
password = password_gadget ℕ plain_hash

abbrev pub registry : GadgetRegistry ℕ
registry = record { gadgets = (codes "Password", password) ∷ [] }

abbrev pub secret : Intent ℕ
secret = record {
  intent_type = codes "Password";
  statement = as_bytes (codes "abc");
  gadget = some password;
}

-- Decryption takes the ciphertext for the plaintext.
abbrev pub decryption : Decryption
decryption = record {
  Ciphertext = Bytes;
  PartialDecryption = ℕ;
  zero_decryption = 0;
  deserialize = λ b. some b;
  agg_dec = λ pds ct selector. ok ct;
}

-- The scheme of both clients, over an aggregate key of two positions.
abbrev pub schemes : Schemes
schemes = record {
  Config = Unit {0};
  deserialize_config = λ b. some tt;
  encryption = λ config. encryption;
  PartialDecryption = ℕ;
  Ciphertext = Bytes;
  zero_decryption = 0;
  deserialize = λ b. some b;
  agg_dec = λ config pds ct selector. ok ct;
  positions = λ config. 0 ∷ 1 ∷ [];
}

-- The stores after the encryption of a file.
abbrev pub encrypted_once : Cell
encrypted_once = (some (codes "hi"), some (tt, map without_gadget (secret ∷ [])))

abbrev pub decode_message : Scale Bytes → Bytes → Option (PartialDecryptionMessage × Bytes)
decode_message scale [] = none
decode_message scale (i ∷ b) = elim (scale.decode b) [
  | none ↦ none
  | some (f, r) ↦ elim (scale.decode r) [
    | none ↦ none
    | some (p, r') ↦ some (record { filename = f; index = i; partial_decryption_bytes = p }, r')
  ]
]

abbrev pub encode_message : Scale Bytes → PartialDecryptionMessage → Bytes
encode_message scale m =
    m.index ∷ (scale.encode m.filename ++ scale.encode m.partial_decryption_bytes)

pub decode-encode_message :
    (scale : Scale Bytes) (m : PartialDecryptionMessage) (rest : Bytes)
    → decode_message scale (encode_message scale m ++ rest) ≡ some (m, rest)
decode-encode_message scale m rest =
    rw
      (
        append_assoc (scale.encode m.filename) (scale.encode m.partial_decryption_bytes) rest,
        scale.decode-encode m.filename (scale.encode m.partial_decryption_bytes ++ rest),
        scale.decode-encode m.partial_decryption_bytes rest,
      )
      refl

abbrev pub message_scale : Scale Bytes → Scale PartialDecryptionMessage
message_scale scale = record {
  encode = encode_message scale;
  decode = decode_message scale;
  decode-encode = decode-encode_message scale;
}
