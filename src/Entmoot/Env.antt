-- ===== src/Entmoot/Env.antt =====
-- What entmoot/src takes from elsewhere: key events, text areas, the file explorer, the keystore, the
-- signer, the chain, and the calls into fangorn. `none` is a failure or a panic of the call.
use fangorn_rs.Prelude.{ℕ, Bool, Option, List}
use fangorn_rs.Rust.Text.{Text}
use fangorn_rs.Utils.{DirEntry}
use fangorn_rs.Gadget.Codec.{Bytes}

-- The key codes that the handlers tell apart.
pub data KeyCode : Type 0 where
  esc enter tab up down right backspace other : KeyCode
  char : ℕ → KeyCode

-- `modified`: the control or the alt key is held.
pub record KeyEvent : Type 0 where
  pub code : KeyCode
  pub modified : Bool

-- What `poll` and `read` give: nothing in time, a key that is pressed, a key that is repeated or
-- released, and anything else.
pub data Event : Type 0 where
  nothing : Event
  press release : KeyEvent → Event
  resize : Event

-- The arguments of `handle_encrypt` and `handle_decrypt`, less the node.
pub record EncryptCall : Type 0 where
  pub message_path : Text
  pub filename : Text
  pub config_path : Text
  pub keystore_path : Text
  pub intent_str : Text
  pub contract_addr : Text
  pub ticket : Text

pub record DecryptCall : Type 0 where
  pub config_path : Text
  pub filename : Text
  pub witness_string : Text
  pub pt_filename : Text
  pub contract_addr : Text
  pub ticket : Text

-- `World` is all that the calls read and change: the node, the chain and the disk.
pub record Env : Type 1 where
  pub World : Type 0
  -- `tui_textarea::TextArea`
  pub Area : Type 0
  pub blank : Area
  pub input : KeyEvent → Area → Area
  pub lines : Area → List Text
  -- `ratatui_explorer::FileExplorer`: `current().path()`, `current().is_file()` and `handle`
  pub Explorer : Type 0
  pub current_path : Explorer → Text
  pub current_is_file : Explorer → Bool
  pub explore : KeyEvent → Explorer → Option Explorer
  -- `Sr25519Keystore` over "tmp/keystore", and a key's address as `{:?}` prints it
  pub Key : Type 0
  pub open_keystore : World → Option World
  pub generate_key : World → Option World
  pub list_keys : World → Option (List Key)
  pub debug_ss58 : Key → Text
  -- `fs::read_dir` and `fs::read_to_string`
  pub read_dir : Text → World → Option (List (Option DirEntry))
  pub read_to_string : Text → World → Option Text
  -- `Mnemonic::from_str` with `Keypair::from_phrase`
  pub Signer : Type 0
  pub from_phrase : Text → Option Signer
  -- `public_key().to_account_id().to_string()`, and the bytes of a signature
  pub address : Signer → Text
  pub sign : Signer → Bytes → Bytes
  -- `SubstrateBackend`
  pub Backend : Type 0
  pub connect : World → Option Backend
  pub update_signer : Signer → Backend → Backend
  pub nonce : Backend → Bytes → World → Option ℕ
  -- `handle_encrypt` and `handle_decrypt`
  pub handle_encrypt : EncryptCall → World → Option World
  pub handle_decrypt : DecryptCall → World → Option World
