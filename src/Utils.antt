-- ===== src/Utils.antt =====
-- fangorn/src/utils.rs: decoding of SS58 addresses, and the mnemonic in a keystore's directory. The
-- SS58 codec of sp-core and the file system are parameters.
use fangorn_rs.Prelude.{
  ℕ, ◌≡◌, refl, Bool, Option, none, some, List, length, replicate, filter_map, get_elem?,
  if◌then◌else◌,
}
use fangorn_rs.Rust.Text.{Text, trim, trim_matches}

-- `from_ss58check` of the two address types; what it returns has 32 bytes.
pub record Ss58 : Type 0 where
  pub account : Text → Option (List ℕ)
  pub public : Text → Option (List ℕ)
  pub account-length : (t : Text) (a : List ℕ) → account t ≡ some a → length a ≡ 32
  pub public-length : (t : Text) (a : List ℕ) → public t ≡ some a → length a ≡ 32

-- `[0; 32]`
abbrev pub zero_account : List ℕ
zero_account = replicate 32 0

abbrev or_zero : Option (List ℕ) → List ℕ
or_zero none = zero_account
or_zero (some a) = a

length-or_zero :
    (o : Option (List ℕ)) → ((a : List ℕ) → o ≡ some a → length a ≡ 32) → length (or_zero o) ≡ 32
length-or_zero none h = refl
length-or_zero (some a) h = h a refl

module _ (ss58 : Ss58) where
  unfoldable pub decode_public_key : Text → List ℕ
  decode_public_key address = or_zero (ss58.account address)

  unfoldable pub decode_contract_addr : Text → List ℕ
  decode_contract_addr address = or_zero (ss58.public address)

  pub length-decode_public_key : (t : Text) → length (decode_public_key t) ≡ 32
  unfolding decode_public_key
  length-decode_public_key t = length-or_zero (ss58.account t) (ss58.account-length t)

  pub length-decode_contract_addr : (t : Text) → length (decode_contract_addr t) ≡ 32
  unfolding decode_contract_addr
  length-decode_contract_addr t = length-or_zero (ss58.public t) (ss58.public-length t)

pub record DirEntry : Type 0 where
  pub path : Text
  pub is_file : Bool

-- `read_dir` gives an entry that cannot be read as `none`, and `none` where the directory cannot be.
module _ {F : Type 0} (read_dir : Text → F → Option (List (Option DirEntry)))
    (read_to_string : Text → F → Option Text) where
  -- The entries of a directory that are files, in its order.
  abbrev pub files_of : List (Option DirEntry) → List DirEntry
  files_of entries =
      filter_map (λ entry. if entry.is_file then some entry else none)
        (filter_map (λ entry. entry) entries)

  -- What the first of the files holds, less the whitespace and the quotes around it.
  abbrev pub first_seed : F → List DirEntry → Option Text
  first_seed f files = elim (get_elem? files 0) [
    | none ↦ none
    | some file ↦ elim (read_to_string file.path f) [
      | none ↦ none
      | some seed ↦ some (trim_matches b'"' (trim seed))
    ]
  ]

  -- `none` where the code panics.
  unfoldable pub load_mnemonic : Text → F → Option Text
  load_mnemonic keystore_path f = elim (read_dir keystore_path f) [
    | none ↦ none
    | some entries ↦ first_seed f (files_of entries)
  ]
