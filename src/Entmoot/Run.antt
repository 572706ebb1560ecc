-- ===== src/Entmoot/Run.antt =====
-- entmoot/src/main.rs: the selection of a menu entry, the dispatch of a key to the screen, and the
-- main loop over the events that it reads. Drawing is taken to
-- succeed.
use fangorn_rs.Prelude.{ℕ, true, false, zero, suc, none, some, List, [], ◌∷◌, nat_eq, if◌then◌else◌}
use fangorn_rs.Rust.Outcome.{Outcome, ok, ok_or, ◌>>=◌}
use fangorn_rs.Rust.Text.{codes}
use fangorn_rs.Utils.{Ss58}
use fangorn_rs.Backend.{AnyError}
use fangorn_rs.Gadget.Sr25519.{Hex}
use fangorn_rs.Entmoot.Env.{
  Env, KeyCode, esc, enter, tab, up, down, right, backspace, other, char, KeyEvent, Event, nothing,
  press, release, resize,
}
use fangorn_rs.Entmoot.App.{
  App, CurrentScreen, main, key_results, encrypt_file_select_screen, encryption_input_screen,
  decrypt_screen, intent_selection, next, previous,
}
use fangorn_rs.Entmoot.Keys
use fangorn_rs.Entmoot.Encryption
use fangorn_rs.Entmoot.FileSelect
use fangorn_rs.Entmoot.Decryption
use fangorn_rs.Entmoot.Intents

-- A state in which the loop goes on, or the one in which it was left.
pub data Flow {ℓ} (A : Type ℓ) : Type ℓ where
  continue : A → Flow A
  break : A → Flow A

module _ (env : Env) (ss58 : Ss58) (hex : Hex) where
  abbrev pub select_entry : ℕ → App env → Outcome AnyError (App env)
  select_entry zero app =
      Keys.generate_keys env (record app { menu_title = codes " Generate Keys " })
  select_entry (suc zero) app =
      Keys.inspect_keys env (record app { menu_title = codes " Inspect Keys " })
  select_entry (suc (suc zero)) app = ok (record app {
    menu_title = codes " Select File ";
    is_encrypt_path = true;
    current_screen = encrypt_file_select_screen;
  })
  select_entry (suc (suc (suc zero))) app = ok (record app {
    menu_title = codes " Select Intents ";
    is_encrypt_path = false;
    current_screen = intent_selection;
  })
  select_entry (suc (suc (suc (suc n)))) app = ok app

  unfoldable pub select : App env → Outcome AnyError (App env)
  unfolding Keys.generate_keys Keys.inspect_keys
  select app = elim app.menu_state [ none ↦ ok app | some selected ↦ select_entry selected app ]

  abbrev pub go_on : Outcome AnyError (App env) → Outcome AnyError (Flow (App env))
  go_on m = do app ← m; ok (continue app)

  unfoldable pub handle_main : KeyCode → App env → Outcome AnyError (Flow (App env))
  unfolding select next previous
  handle_main key_code app = elim key_code [
    | esc ↦ ok (break app)
    | up ↦ ok (continue (previous env app))
    | down ↦ ok (continue (next env app))
    | enter ↦ go_on (select app)
    | right ↦ go_on (select app)
    | char c ↦
        if nat_eq c b'q'
        then ok (break app)
        else if nat_eq c b'k'
        then ok (continue (previous env app))
        else if nat_eq c b'j'
        then ok (continue (next env app))
        else if nat_eq c b' '
        then go_on (select app)
        else ok (continue app)
    | tab ↦ ok (continue app)
    | backspace ↦ ok (continue app)
    | other ↦ ok (continue app)
  ]

  -- `match self.current_screen`
  unfoldable pub handle_key : CurrentScreen → KeyEvent → App env → Outcome AnyError (Flow (App env))
  unfolding handle_main Keys.handle_input FileSelect.handle_input Encryption.handle_input
      Decryption.handle_input Intents.handle_input
  handle_key main key app = handle_main key.code app
  handle_key key_results key app = ok (continue (Keys.handle_input env key.code app))
  handle_key encrypt_file_select_screen key app = go_on (FileSelect.handle_input env key app)
  handle_key encryption_input_screen key app = go_on (Encryption.handle_input env key app)
  handle_key decrypt_screen key app = go_on (Decryption.handle_input env ss58 hex key app)
  handle_key intent_selection key app = go_on (Intents.handle_input env key.code app)

  -- What drawing changes: the main screen sets the title.
  abbrev pub titled : CurrentScreen → App env → App env
  titled main app = record app { menu_title = codes " Main Menu " }
  titled key_results app = app
  titled encrypt_file_select_screen app = app
  titled encryption_input_screen app = app
  titled decrypt_screen app = app
  titled intent_selection app = app

  unfoldable pub render : App env → App env
  render app = titled app.current_screen app

  -- What one event does.
  unfoldable pub handle_event : Event → App env → Outcome AnyError (Flow (App env))
  unfolding handle_key
  handle_event nothing app = ok (continue app)
  handle_event (press key) app = handle_key app.current_screen key app
  handle_event (release key) app = ok (continue app)
  handle_event resize app = ok (continue app)

  -- The loop, until it is left or the events end.
  unfoldable pub run_loop : List Event → App env → Outcome AnyError (Flow (App env))
  unfolding handle_event render
  run_loop [] app = ok (continue app)
  run_loop (event ∷ events) app = do
    flow ← handle_event event (render app)
    elim flow [ continue app' ↦ run_loop events app' | break app' ↦ ok (break app') ]

  unfoldable pub run : List Event → App env → Outcome AnyError (Flow (App env))
  unfolding run_loop
  run events app = do
    backend ← ok_or (env.connect app.world) (codes "connect")
    run_loop events (record app { substrate_backend = some backend })
