-- ===== src/Entmoot/Submission.antt =====
-- entmoot/src/menus/encryption/encryption_screen.rs: the three functions that write an intent string
-- and pass it on to the encryption of the chosen file.
use fangorn_rs.Prelude.{Bool, true, false, ◌++◌, unwrap_or}
use fangorn_rs.Rust.Outcome.{Outcome, ok, unwrap, ◌>>=◌}
use fangorn_rs.Rust.Text.{Text, codes}
use fangorn_rs.Rust.Lines.{file_name}
use fangorn_rs.Backend.{AnyError}
use fangorn_rs.Entmoot.Env.{Env, EncryptCall}
use fangorn_rs.Entmoot.App.{App}

abbrev pub config_path : Text
config_path = codes "config.txt"

abbrev pub keystore_path : Text
keystore_path = codes "tmp/keystore"

abbrev pub intent_store_address : Text
intent_store_address = codes "5Ccuf8QBBoqZtUPFTxwixMd9mfHLUmXhRvNfBdEU7uL1ApR7"

-- The three formats of the screen.
abbrev pub password_intent : Text → Text
password_intent password = codes "Password(" ++ (password ++ codes ")")

abbrev pub psp22_intent : Text → Text → Text
psp22_intent contract_address token_count =
    codes "Psp22(" ++ (contract_address ++ (codes ", " ++ (token_count ++ codes ")")))

abbrev pub and_sr25519 : Bool → Text → Text
and_sr25519 true intents = intents ++ codes " && Sr25519()"
and_sr25519 false intents = intents

module _ (env : Env) where
  -- The last component of the chosen path is both the path that is read and the name in the store.
  abbrev pub encrypt_call : Text → Text → App env → EncryptCall
  encrypt_call intent_str file_path app =
      let filename = unwrap_or (file_name file_path) (codes "unknown") in
      record {
        message_path = filename;
        filename = filename;
        config_path = config_path;
        keystore_path = keystore_path;
        intent_str = intent_str;
        contract_addr = intent_store_address;
        ticket = app.ticket;
      }

  -- What the three handlers and the intents screen do with an intent string.
  unfoldable pub submit : Text → App env → Outcome AnyError (App env)
  submit intent_str app = do
    file_path ← unwrap app.file_path
    world ← unwrap (env.handle_encrypt (encrypt_call intent_str file_path app) app.world)
    ok (record app { world = world })

  unfoldable pub handle_encrypt_all : Text → Text → Text → App env → Outcome AnyError (App env)
  unfolding submit
  handle_encrypt_all password contract_address token_count app =
      submit
        (and_sr25519 app.sr25519_intent
          (password_intent password ++ (codes " && " ++ psp22_intent contract_address token_count)))
        app

  unfoldable pub handle_encrypt_psp22 : Text → Text → App env → Outcome AnyError (App env)
  unfolding submit
  handle_encrypt_psp22 contract_address token_count app =
      submit (and_sr25519 app.sr25519_intent (psp22_intent contract_address token_count)) app

  unfoldable pub handle_encrypt_password : Text → App env → Outcome AnyError (App env)
  unfolding submit
  handle_encrypt_password password app =
      submit (and_sr25519 app.sr25519_intent (password_intent password)) app
