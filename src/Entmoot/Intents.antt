-- ===== src/Entmoot/Intents.antt =====
-- entmoot/src/menus/encryption/intents_screen.rs: the choice of intents.
use fangorn_rs.Prelude.{
  Bool, false, not, ◌&&◌, none, some, length, get_elem?, set, nat_eq, if◌then◌else◌,
}
use fangorn_rs.Rust.Outcome.{Outcome, ok, unwrap, ◌>>=◌}
use fangorn_rs.Rust.Text.{Text, codes}
use fangorn_rs.Backend.{AnyError}
use fangorn_rs.Entmoot.Env.{Env, KeyCode, esc, enter, tab, up, down, right, backspace, other, char}
use fangorn_rs.Entmoot.App.{
  App, main, encryption_input_screen, decrypt_screen, next_row, previous_row, inactivate, activate,
  reset_intent_list,
}
use fangorn_rs.Entmoot.Submission.{submit}

-- `item_selected`
abbrev pub chosen : Text × Bool → Bool
chosen item = item.1

-- `*item_selected = !*item_selected`
abbrev pub toggle : Text × Bool → Text × Bool
toggle item = (item.0, not item.1)

module _ (env : Env) where
  unfoldable pub next : App env → App env
  unfolding next_row
  next app = record app {
    intent_list_state = next_row (length app.intent_list_items) app.intent_list_state;
  }

  unfoldable pub previous : App env → App env
  unfolding previous_row
  previous app = record app {
    intent_list_state = previous_row (length app.intent_list_items) app.intent_list_state;
  }

  unfoldable pub select : App env → Outcome AnyError (App env)
  select app = elim app.intent_list_state [
    | none ↦ ok app
    | some selected ↦ (do
      item ← unwrap (get_elem? app.intent_list_items selected)
      ok (record app { intent_list_items = set app.intent_list_items selected (toggle item) }))
  ]

  -- Where only a signature was chosen there is nothing to enter, and the file is encrypted at once.
  unfoldable pub encrypt_signed : App env → Outcome AnyError (App env)
  unfolding submit reset_intent_list
  encrypt_signed app = do
    app' ← submit env (codes "Sr25519()") app
    let back = record app' { current_screen = main; generated_pubkey = none }
    ok (record (reset_intent_list env back) { sr25519_intent = false })

  abbrev open_encryption : App env → App env
  open_encryption app =
      let app' : App env =
        (if app.display_password_input
          then record app {
            password_input = activate env app.password_input;
            contract_address_input = inactivate env app.contract_address_input;
            token_count_input = inactivate env app.token_count_input;
          }
          else record app {
            contract_address_input = activate env app.contract_address_input;
            token_count_input = inactivate env app.token_count_input;
          }) in
      record app' {
        current_screen = encryption_input_screen;
        menu_title = codes " Enter Encryption Info ";
      }

  abbrev open_decryption : App env → App env
  open_decryption app = record app {
    menu_title = codes " Decrypt Files ";
    current_screen = decrypt_screen;
    filename_input = activate env app.filename_input;
    password_input =
        if app.display_password_input
        then inactivate env app.password_input
        else app.password_input;
  }

  -- The part of `KeyCode::Enter` behind the reading of the three choices.
  unfoldable pub proceed : App env → Outcome AnyError (App env)
  unfolding encrypt_signed
  proceed app =
      if (not app.sr25519_intent && not app.display_contract_address_input)
        && not app.display_password_input
      then ok app
      else if app.is_encrypt_path
      then if (app.sr25519_intent && not app.display_contract_address_input)
          && not app.display_password_input
        then encrypt_signed app
        else ok (open_encryption app)
      else ok (open_decryption app)

  -- `KeyCode::Enter`
  unfoldable pub confirm : App env → Outcome AnyError (App env)
  unfolding proceed
  confirm app = do
    password ← unwrap (get_elem? app.intent_list_items 0)
    contract_address ← unwrap (get_elem? app.intent_list_items 1)
    signature ← unwrap (get_elem? app.intent_list_items 2)
    proceed (record app {
      display_password_input = chosen password;
      display_contract_address_input = chosen contract_address;
      sr25519_intent = chosen signature;
    })

  unfoldable pub handle_input : KeyCode → App env → Outcome AnyError (App env)
  unfolding next previous select confirm reset_intent_list
  handle_input key_code app =
      let back =
        ok
          (reset_intent_list env (record app { current_screen = main; generated_pubkey = none })) in
      elim key_code [
        | esc ↦ back
        | enter ↦ confirm app
        | down ↦ ok (next app)
        | up ↦ ok (previous app)
        | char c ↦ if nat_eq c b'q' then back else if nat_eq c b' ' then select app else ok app
        | tab ↦ ok app
        | right ↦ ok app
        | backspace ↦ ok app
        | other ↦ ok app
      ]
