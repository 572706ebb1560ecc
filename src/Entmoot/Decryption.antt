-- ===== src/Entmoot/Decryption.antt =====
-- entmoot/src/menus/decryption/decrypt_screen.rs: the witness string, and the input screen.
use fangorn_rs.Prelude.{
  ℕ, ◌+◌, ◌%◌, Bool, true, false, ◌||◌, none, some, [], ◌∷◌, ◌++◌, nat_eq, if◌then◌else◌,
}
use fangorn_rs.Rust.Outcome.{Outcome, ok, unwrap, ◌>>=◌}
use fangorn_rs.Rust.Text.{Text}
use fangorn_rs.Rust.Bytes.{to_le_bytes}
use fangorn_rs.Rust.Lines.{is_empty}
use fangorn_rs.Utils.{Ss58, decode_public_key, load_mnemonic}
use fangorn_rs.Backend.{AnyError}
use fangorn_rs.Gadget.Sr25519.{Hex}
use fangorn_rs.Entmoot.Env.{Env, esc, enter, tab, up, down, right, backspace, other, char, KeyEvent}
use fangorn_rs.Entmoot.App.{
  App, main, inactivate, activate, indicate_error, reset_input_fields, reset_intent_list,
}
use fangorn_rs.Entmoot.Submission.{config_path, keystore_path, intent_store_address}
use fangorn_rs.Entmoot.Encryption.{text_of, typed, flagged}

abbrev pub comma : ℕ
comma = b','

module _ (env : Env) (ss58 : Ss58) (hex : Hex) where
  unfoldable pub cleanup : App env → App env
  unfolding reset_input_fields reset_intent_list
  cleanup app =
      let fresh = reset_input_fields env (record app { generated_pubkey = none }) in
      reset_intent_list env
        (record fresh { file_path = none; decrypt_input_selection = 0; current_screen = main })

  -- The address of the signer and its signature on the nonce of its account.
  unfoldable pub signed_nonce : env.Signer → env.Backend → env.World → Outcome AnyError Text
  signed_nonce signer backend world = do
    let pubkey = env.address signer
    nonce ← unwrap (env.nonce backend (decode_public_key ss58 pubkey) world)
    ok (pubkey ++ hex.encode (env.sign signer (to_le_bytes 4 nonce)))

  -- The seven choices: password, contract address, signature.
  unfoldable pub witness_for :
      Bool → Bool → Bool → Text → env.Signer → env.Backend → env.World → Outcome AnyError Text
  unfolding signed_nonce
  witness_for true true true password signer backend world = do
    signed ← signed_nonce signer backend world
    ok (password ++ comma ∷ (env.address signer ++ comma ∷ signed))
  witness_for false true true password signer backend world = do
    signed ← signed_nonce signer backend world
    ok (env.address signer ++ comma ∷ signed)
  witness_for true false true password signer backend world = do
    signed ← signed_nonce signer backend world
    ok (password ++ comma ∷ signed)
  witness_for true true false password signer backend world =
      ok (password ++ comma ∷ env.address signer)
  witness_for false true false password signer backend world = ok (env.address signer)
  witness_for true false false password signer backend world = ok password
  witness_for false false true password signer backend world = signed_nonce signer backend world
  witness_for false false false password signer backend world = ok []

  -- The backend keeps the signer.
  unfoldable pub prepare_witness_string : Text → App env → Outcome AnyError (Text × App env)
  unfolding witness_for
  prepare_witness_string password app = do
    mnemonic_string ← unwrap (load_mnemonic env.read_dir env.read_to_string keystore_path app.world)
    signer ← unwrap (env.from_phrase mnemonic_string)
    substrate_backend ← unwrap app.substrate_backend
    let backend = env.update_signer signer substrate_backend
    witness_string ←
        witness_for app.display_password_input app.display_contract_address_input app.sr25519_intent
          password signer backend app.world
    ok (witness_string, record app { substrate_backend = some backend })

  unfoldable pub request : Text → Text → App env → Outcome AnyError (App env)
  unfolding prepare_witness_string cleanup
  request filename password app = do
    (witness_string, app') ← prepare_witness_string password app
    world ← unwrap (
        env.handle_decrypt
          (record {
            config_path = config_path;
            filename = filename;
            witness_string = witness_string;
            pt_filename = filename;
            contract_addr = intent_store_address;
            ticket = app'.ticket;
          })
          app'.world)
    ok (cleanup (record app' { world = world }))

  -- `KeyCode::Tab`
  unfoldable pub change_input : App env → App env
  change_input app =
      let selection = (app.decrypt_input_selection + 1) % 2 in
      if app.display_password_input
      then if nat_eq selection 0
        then record app {
          decrypt_input_selection = selection;
          filename_input = activate env app.filename_input;
          password_input = inactivate env app.password_input;
        }
        else record app {
          decrypt_input_selection = selection;
          filename_input = inactivate env app.filename_input;
          password_input = activate env app.password_input;
        }
      else app

  -- `KeyCode::Enter`
  unfoldable pub confirm : App env → Outcome AnyError (App env)
  unfolding request
  confirm app =
      let filename = text_of env app.filename_input in
      let password = text_of env app.password_input in
      if app.display_password_input
      then if is_empty password || is_empty filename
        then ok (record app {
          filename_input = flagged env app.filename_input;
          password_input = flagged env app.password_input;
        })
        else request filename password app
      else if is_empty filename
      then ok (record app { filename_input = indicate_error env app.filename_input })
      else request filename [] app

  -- Any other key goes to the input that is selected.
  unfoldable pub type_key : KeyEvent → App env → App env
  type_key key app =
      let to_filename = record app {
        filename_input = activate env (typed env key app.filename_input);
      } in
      if app.display_password_input
      then if nat_eq app.decrypt_input_selection 0
        then to_filename
        else record app { password_input = activate env (typed env key app.password_input) }
      else to_filename

  unfoldable pub handle_input : KeyEvent → App env → Outcome AnyError (App env)
  unfolding cleanup change_input confirm type_key
  handle_input key app = elim key.code [
    | esc ↦ ok (cleanup app)
    | tab ↦ ok (change_input app)
    | enter ↦ confirm app
    | up ↦ ok (type_key key app)
    | down ↦ ok (type_key key app)
    | right ↦ ok (type_key key app)
    | backspace ↦ ok (type_key key app)
    | other ↦ ok (type_key key app)
    | char c ↦ ok (type_key key app)
  ]
