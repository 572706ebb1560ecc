-- ===== src/Fixtures/Vaults.antt =====
-- A vault that looks at no password, and keys that are numbers, for the examples about
-- fangorn/src/crypto/keyvault.rs and fangorn/src/node/node.rs.
use fangorn_rs.Prelude.{
  ℕ, suc, ◌≡◌, refl, ap, sym, ◌∙◌, false, Option, none, some, [], ◌∷◌, ◌==◌, ==-refl, some_inj,
  replicate, is_some, ◌+◌, nat_eq, if◌then◌else◌, ℕ-Eq, List-Eq,
}
use fangorn_rs.Rust.Text.{Text}
use fangorn_rs.Crypto.KeyVault.{Bytes, Vault}
use fangorn_rs.Crypto.KeyVault.Sr25519.{Scheme}
use fangorn_rs.Crypto.KeyVault.Iroh.{IrohKeys}
use fangorn_rs.Crypto.KeyVault.Ste.{SteKeys}

abbrev pub Entries : Type 0
Entries = Text → Option Bytes

abbrev pub put : Entries → Text → Bytes → Entries
put v name bytes other = if other == name then some bytes else v other

pub put-own : (v : Entries) (name : Text) (bytes : Bytes) → put v name bytes name ≡ some bytes
put-own v name bytes = rw (==-refl name) refl

pub put-other :
    (v : Entries) (name other : Text) (bytes : Bytes)
    → (other == name) ≡ false
    → put v name bytes other ≡ v other
put-other v name other bytes h = rw h refl

abbrev pub open_vault : Vault
open_vault = record {
  State = Entries;
  get = λ v name p q. (v name, v);
  store_bytes = λ v name bytes p q. some (put v name bytes);
  contains = λ v name. is_some (v name);
  list = λ v. [];
  get-store_bytes =
      λ v v' name bytes p q h. ap (λ w. w name) (sym (some_inj h)) ∙ put-own v name bytes;
  get-store_bytes_other = λ v v' name bytes p q other r s h apart.
      ap (λ w. w other) (sym (some_inj h)) ∙ put-other v name other bytes apart;
  get-get = λ v name p q other r s. refl;
}

abbrev pub no_entries : Entries
no_entries name = none

pub same_seed :
    (phrase pair seed : Bytes)
    → ◌≡◌ {A = Option (Bytes × Bytes)} (some (phrase, phrase)) (some (pair, seed))
    → some seed ≡ some pair
same_seed phrase pair seed h = cc

-- A pair is its seed, and a signature is the message.
abbrev pub scheme : Scheme
scheme = record {
  Pair = Bytes;
  Public = Bytes;
  Signature = Bytes;
  from_phrase = λ phrase. some (phrase, phrase);
  from_seed_slice = λ seed. some seed;
  public = λ pair. pair;
  sign = λ pair message. message;
  verify = λ signature message public. signature == message;
  to_ss58check = λ public. public;
  from_ss58check = λ address. some address;
  from_seed_slice-from_phrase = same_seed;
  verify-sign = λ pair message. ==-refl message;
}

abbrev pub head_or_zero : Bytes → ℕ
head_or_zero [] = 0
head_or_zero (b ∷ bytes) = b

abbrev pub iroh_keys : IrohKeys
iroh_keys = record {
  SecretKey = ℕ;
  PublicKey = ℕ;
  Signature = ℕ;
  to_bytes = λ k. k ∷ replicate 31 0;
  from_bytes = head_or_zero;
  public = λ k. suc k;
  sign = λ k message. k + head_or_zero message;
  verify = λ public message signature. nat_eq (suc signature) (public + head_or_zero message);
  length-to_bytes = λ k. refl;
  from_bytes-to_bytes = λ k. refl;
}

abbrev pub decode_key : Bytes → Option ℕ
decode_key [] = none
decode_key (b ∷ bytes) = some b

-- The key of a node is its index behind a random number.
abbrev pub ste_keys : SteKeys
ste_keys = record {
  Random = ℕ;
  SecretKey = ℕ;
  Crs = ℕ;
  PublicKey = ℕ × ℕ;
  Ciphertext = Bytes;
  PartialDecryption = ℕ × Bytes;
  new = λ rng index. index;
  serialize = λ k. k ∷ [];
  deserialize = decode_key;
  get_pk = λ k crs. (k, crs);
  partial_decryption = λ k ciphertext. (k, ciphertext);
  deserialize-serialize = λ k. refl;
}
