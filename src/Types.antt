-- ===== src/Types.antt =====
-- fangorn/src/types.rs: announcements, and the state that a node builds from them. The curve is a
-- parameter.
pub mod State
pub mod Examples
use fangorn_rs.Prelude.{ℕ, Option, none, some, List}
use fangorn_rs.Rust.Text.{Text, codes}

abbrev pub Bytes : Type 0
Bytes = List ℕ

abbrev pub config_key : Text
config_key = codes "config-key-"

abbrev pub system_keys_key : Text
system_keys_key = codes "sys-keys-"

abbrev pub max_committee_size : ℕ
max_committee_size = 2

pub data Tag : Type 0 where
  config hint doc system_keys decryption_request : Tag

-- `payload` is the field `data`.
pub record Announcement : Type 0 where
  pub tag : Tag
  pub payload : Bytes

-- What depends on the curve, with the compressed serialization of ark_serialize.
pub record Pairing : Type 1 where
  pub Config : Type 0
  pub PublicKey : Type 0
  pub SystemPublicKeys : Type 0
  pub deserialize_config : Bytes → Option Config
  pub deserialize_key : Bytes → Option PublicKey

pub record VaultConfig : Type 0 where
  pub vault_dir : Text
  pub substrate_name : Text
  pub vault_pswd : Option Text
  pub iroh_key_pswd : Option Text
  pub ste_key_pswd : Option Text
  pub substrate_pswd : Option Text

abbrev pub default : VaultConfig
default = record {
  vault_dir = codes "tmp/keystore";
  substrate_name = codes "sr25519";
  vault_pswd = none;
  iroh_key_pswd = none;
  ste_key_pswd = none;
  substrate_pswd = none;
}
