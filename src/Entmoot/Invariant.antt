-- ===== src/Entmoot/Invariant.antt =====
-- What holds of the application of entmoot/src between two events, and which calls can make it panic.
mod Rules
mod Encryption
mod Decryption
mod Intents
pub mod Reached
use fangorn_rs.Prelude.{
  ℕ, ◌<◌, ◌≡◌, Bool, true, false, not, Option, none, some, List, [], ◌∷◌, length, nat_eq, is_some,
}
use fangorn_rs.Rust.Outcome.{Outcome, ok, err, panic}
use fangorn_rs.Rust.Text.{Text}
use fangorn_rs.Gadget.Codec.{Bytes}
use fangorn_rs.Utils.{load_mnemonic}
use fangorn_rs.Backend.{AnyError}
use fangorn_rs.Entmoot.Env.{Env, EncryptCall, DecryptCall}
use fangorn_rs.Entmoot.App.{
  App, CurrentScreen, main, key_results, encrypt_file_select_screen, encryption_input_screen,
  decrypt_screen, intent_selection,
}
use fangorn_rs.Entmoot.Submission.{keystore_path}
use fangorn_rs.Entmoot.Run.{Flow, continue, break}

-- A selected row is one of the rows.
abbrev pub InRange : ℕ → Option ℕ → Type 0
InRange count none = Unit {0}
InRange count (some i) = i < count

module _ (env : Env) where
  -- The shown input that is selected has the cursor, and the other shown ones have it hidden: which
  -- are shown is said by the choice of a contract address and of a password.
  abbrev pub EncryptFocus : Bool → Bool → App env → Type 0
  EncryptFocus true true app =
      (app.encrypt_input_selection < 3)
      × (app.password_input.hidden ≡ not (nat_eq app.encrypt_input_selection 0))
      × (app.contract_address_input.hidden ≡ not (nat_eq app.encrypt_input_selection 1))
      × (app.token_count_input.hidden ≡ not (nat_eq app.encrypt_input_selection 2))
  EncryptFocus true false app =
      (app.encrypt_input_selection < 2)
      × (app.contract_address_input.hidden ≡ not (nat_eq app.encrypt_input_selection 0))
      × (app.token_count_input.hidden ≡ not (nat_eq app.encrypt_input_selection 1))
  EncryptFocus false true app =
      (app.encrypt_input_selection ≡ 0) × (app.password_input.hidden ≡ false)
  EncryptFocus false false app = ⊥

  abbrev pub DecryptFocus : Bool → App env → Type 0
  DecryptFocus true app =
      (app.decrypt_input_selection < 2)
      × (app.filename_input.hidden ≡ not (nat_eq app.decrypt_input_selection 0))
      × (app.password_input.hidden ≡ not (nat_eq app.decrypt_input_selection 1))
  DecryptFocus false app = (app.decrypt_input_selection ≡ 0) × (app.filename_input.hidden ≡ false)

  -- No input is selected but the first.
  abbrev pub Rested : App env → Type 0
  Rested app = (app.encrypt_input_selection ≡ 0) × (app.decrypt_input_selection ≡ 0)

  -- What each screen relies on. The file that is to be encrypted has been chosen.
  abbrev pub OnScreen : CurrentScreen → App env → Type 0
  OnScreen main app = Rested app
  OnScreen key_results app = Rested app
  OnScreen encrypt_file_select_screen app = Rested app × (app.is_encrypt_path ≡ true)
  OnScreen intent_selection app =
      Rested app × (app.is_encrypt_path ≡ true → is_some app.file_path ≡ true)
  OnScreen encryption_input_screen app =
      (is_some app.file_path ≡ true)
      × (app.decrypt_input_selection ≡ 0)
      × EncryptFocus app.display_contract_address_input app.display_password_input app
  OnScreen decrypt_screen app =
      (app.encrypt_input_selection ≡ 0) × DecryptFocus app.display_password_input app

  pub record IsValid (app : App env) : Type 0 where
    pub entries : length app.menu_items ≡ 4
    pub entry : InRange 4 app.menu_state
    pub items : length app.intent_list_items ≡ 3
    pub item : InRange 3 app.intent_list_state
    pub connected : is_some app.substrate_backend ≡ true
    pub on_screen : OnScreen app.current_screen app

  -- A call outside that fails where the program unwraps its result.
  pub data Fault : Type 0 where
    encrypt : (call : EncryptCall) (w : env.World) → env.handle_encrypt call w ≡ none → Fault
    decrypt : (call : DecryptCall) (w : env.World) → env.handle_decrypt call w ≡ none → Fault
    keystore : (w : env.World) → env.open_keystore w ≡ none → Fault
    key : (w : env.World) → env.generate_key w ≡ none → Fault
    listing : (w : env.World) → env.list_keys w ≡ none → Fault
    no_key : (w : env.World) → env.list_keys w ≡ some [] → Fault
    mnemonic :
        (w : env.World)
        → load_mnemonic env.read_dir env.read_to_string keystore_path w ≡ none
        → Fault
    phrase : (t : Text) → env.from_phrase t ≡ none → Fault
    account : (b : env.Backend) (p : Bytes) (w : env.World) → env.nonce b p w ≡ none → Fault

  abbrev pub Kept : Outcome AnyError (App env) → Type 0
  Kept (ok app) = IsValid app
  Kept (err e) = Unit {0}
  Kept panic = Fault

  abbrev pub KeptFlow : Outcome AnyError (Flow (App env)) → Type 0
  KeptFlow (ok (continue app)) = IsValid app
  KeptFlow (ok (break app)) = IsValid app
  KeptFlow (err e) = Unit {0}
  KeptFlow panic = Fault
