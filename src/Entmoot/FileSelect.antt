-- ===== src/Entmoot/FileSelect.antt =====
-- entmoot/src/menus/encryption/encrypt_fileselect_screen.rs: the choice of the file to encrypt.
use fangorn_rs.Prelude.{none, some, nat_eq, if◌then◌else◌}
use fangorn_rs.Rust.Outcome.{Outcome, ok, ok_or, ◌>>=◌}
use fangorn_rs.Rust.Text.{codes}
use fangorn_rs.Backend.{AnyError}
use fangorn_rs.Entmoot.Env.{Env, esc, enter, tab, up, down, right, backspace, other, char, KeyEvent}
use fangorn_rs.Entmoot.App.{App, main, intent_selection}

abbrev pub explore_error : AnyError
explore_error = codes "file explorer"

module _ (env : Env) where
  unfoldable pub handle_input : KeyEvent → App env → Outcome AnyError (App env)
  handle_input key app =
      let back = ok (record app { current_screen = main; generated_pubkey = none }) in
      let explored : Outcome AnyError (App env) = (do
        file_explorer ← ok_or (env.explore key app.file_explorer) explore_error
        ok (record app { file_explorer = file_explorer })) in
      elim key.code [
        | esc ↦ back
        | enter ↦
            if env.current_is_file app.file_explorer
            then ok (record app {
              file_path = some (env.current_path app.file_explorer);
              current_screen = intent_selection;
              menu_title = codes " Select Intents ";
            })
            else ok app
        | char c ↦ if nat_eq c b'c' then back else explored
        | tab ↦ explored
        | up ↦ explored
        | down ↦ explored
        | right ↦ explored
        | backspace ↦ explored
        | other ↦ explored
      ]
