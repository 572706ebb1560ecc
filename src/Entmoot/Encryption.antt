-- ===== src/Entmoot/Encryption.antt =====
-- entmoot/src/menus/encryption/encryption_screen.rs: the input screen.
use fangorn_rs.Prelude.{◌+◌, ◌%◌, false, ◌&&◌, ◌||◌, none, leb, nat_eq, if◌then◌else◌}
use fangorn_rs.Rust.Outcome.{Outcome, ok, ◌>>=◌}
use fangorn_rs.Rust.Text.{Text}
use fangorn_rs.Rust.Lines.{join_lines, is_empty}
use fangorn_rs.Backend.{AnyError}
use fangorn_rs.Entmoot.Env.{Env, esc, enter, tab, up, down, right, backspace, other, char, KeyEvent}
use fangorn_rs.Entmoot.Submission.{
  handle_encrypt_all, handle_encrypt_psp22, handle_encrypt_password,
}
use fangorn_rs.Entmoot.App.{
  Input, App, main, inactivate, activate, indicate_error, reset_input_fields, reset_intent_list,
}

module _ (env : Env) where
  -- `lines().join("\n")`
  abbrev pub text_of : Input env → Text
  text_of i = join_lines (env.lines i.area)

  abbrev pub typed : KeyEvent → Input env → Input env
  typed key i = record i { area = env.input key i.area }

  unfoldable pub cleanup : App env → App env
  unfolding reset_input_fields reset_intent_list
  cleanup app = record (reset_intent_list env (reset_input_fields env app)) {
    generated_pubkey = none;
    file_path = none;
    current_screen = main;
    display_contract_address_input = false;
    display_password_input = false;
    encrypt_input_selection = 0;
  }

  -- A digit or a backspace goes to the token count, a zero only behind another digit.
  unfoldable pub match_num_chars : KeyEvent → App env → App env
  match_num_chars key app =
      let on = record app { token_count_input = activate env app.token_count_input } in
      let entered = record app {
        token_count_input = typed key (activate env app.token_count_input);
      } in
      elim key.code [
        | char c ↦
            if nat_eq c b'0'
            then if is_empty (text_of app.token_count_input) then on else entered
            else if leb b'1' c && leb c b'9'
            then entered
            else app
        | backspace ↦ entered
        | esc ↦ app
        | enter ↦ app
        | tab ↦ app
        | up ↦ app
        | down ↦ app
        | right ↦ app
        | other ↦ app
      ]

  -- `KeyCode::Tab`
  unfoldable pub change_input : App env → App env
  change_input app =
      let selection = (app.encrypt_input_selection + 1) % 3 in
      let selection2 = (app.encrypt_input_selection + 1) % 2 in
      if app.display_contract_address_input && app.display_password_input
      then if nat_eq selection 0
        then record app {
          encrypt_input_selection = selection;
          password_input = activate env app.password_input;
          contract_address_input = inactivate env app.contract_address_input;
          token_count_input = inactivate env app.token_count_input;
        }
        else if nat_eq selection 1
        then record app {
          encrypt_input_selection = selection;
          password_input = inactivate env app.password_input;
          contract_address_input = activate env app.contract_address_input;
          token_count_input = inactivate env app.token_count_input;
        }
        else record app {
          encrypt_input_selection = selection;
          password_input = inactivate env app.password_input;
          contract_address_input = inactivate env app.contract_address_input;
          token_count_input = activate env app.token_count_input;
        }
      else if app.display_contract_address_input
      then if nat_eq selection2 0
        then record app {
          encrypt_input_selection = selection2;
          contract_address_input = activate env app.contract_address_input;
          token_count_input = inactivate env app.token_count_input;
        }
        else record app {
          encrypt_input_selection = selection2;
          contract_address_input = inactivate env app.contract_address_input;
          token_count_input = activate env app.token_count_input;
        }
      else app

  -- A field that has to have a text.
  abbrev pub flagged : Input env → Input env
  flagged i = if is_empty (text_of i) then indicate_error env i else i

  -- `KeyCode::Enter` where all three inputs are shown, where the two of the contract are, and where
  -- the password is.
  unfoldable pub confirm_all : App env → Outcome AnyError (App env)
  unfolding cleanup handle_encrypt_all
  confirm_all app =
      let password = text_of app.password_input in
      let contract_address = text_of app.contract_address_input in
      let token_count = text_of app.token_count_input in
      if is_empty password || (is_empty contract_address || is_empty token_count)
      then ok (record app {
        password_input = flagged app.password_input;
        contract_address_input = flagged app.contract_address_input;
        token_count_input = flagged app.token_count_input;
      })
      else (do
        app' ← handle_encrypt_all env password contract_address token_count app
        ok (cleanup app'))

  unfoldable pub confirm_psp22 : App env → Outcome AnyError (App env)
  unfolding cleanup handle_encrypt_psp22
  confirm_psp22 app =
      let contract_address = text_of app.contract_address_input in
      let token_count = text_of app.token_count_input in
      if is_empty contract_address || is_empty token_count
      then ok (record app {
        contract_address_input = flagged app.contract_address_input;
        token_count_input = flagged app.token_count_input;
      })
      else (do app' ← handle_encrypt_psp22 env contract_address token_count app; ok (cleanup app'))

  unfoldable pub confirm_password : App env → Outcome AnyError (App env)
  unfolding cleanup handle_encrypt_password
  confirm_password app =
      let password = text_of app.password_input in
      if is_empty password
      then ok (record app { password_input = indicate_error env app.password_input })
      else (do app' ← handle_encrypt_password env password app; ok (cleanup app'))

  unfoldable pub confirm : App env → Outcome AnyError (App env)
  unfolding confirm_all confirm_psp22 confirm_password
  confirm app =
      if app.display_contract_address_input && app.display_password_input
      then confirm_all app
      else if app.display_contract_address_input
      then confirm_psp22 app
      else confirm_password app

  -- Any other key goes to the input that is selected.
  unfoldable pub type_key : KeyEvent → App env → App env
  unfolding match_num_chars
  type_key key app =
      let to_password = record app {
        password_input = typed key (activate env app.password_input);
      } in
      let to_address = record app {
        contract_address_input = typed key (activate env app.contract_address_input);
      } in
      if app.display_contract_address_input && app.display_password_input
      then if nat_eq app.encrypt_input_selection 0
        then to_password
        else if nat_eq app.encrypt_input_selection 1
        then to_address
        else if nat_eq app.encrypt_input_selection 2
        then match_num_chars key app
        else app
      else if app.display_contract_address_input
      then if nat_eq app.encrypt_input_selection 0
        then to_address
        else if nat_eq app.encrypt_input_selection 1
        then match_num_chars key app
        else app
      else to_password

  unfoldable pub handle_input : KeyEvent → App env → Outcome AnyError (App env)
  unfolding cleanup change_input confirm type_key
  handle_input key app = elim key.code [
    | esc ↦ ok (cleanup app)
    | tab ↦ ok (change_input app)
    | enter ↦ confirm app
    | up ↦ ok (type_key key app)
    | down ↦ ok (type_key key app)
    | right ↦ ok (type_key key app)
    | backspace ↦ ok (type_key key app)
    | other ↦ ok (type_key key app)
    | char c ↦ ok (type_key key app)
  ]
