-- ===== src/Entmoot/Keys.antt =====
-- entmoot/src/menus/key_results_screen.rs: generating and inspecting keys.
use fangorn_rs.Prelude.{Option, none, some, List, [], ◌∷◌, ◌++◌, get_elem?, nat_eq, if◌then◌else◌}
use fangorn_rs.Rust.Outcome.{Outcome, ok, unwrap, ◌>>=◌}
use fangorn_rs.Rust.Text.{Text, codes}
use fangorn_rs.Backend.{AnyError}
use fangorn_rs.Entmoot.Env.{Env, KeyCode, esc, enter, tab, up, down, right, backspace, other, char}
use fangorn_rs.Entmoot.App.{App, main, key_results}

module _ (env : Env) where
  unfoldable pub handle_input : KeyCode → App env → App env
  handle_input key_code app =
      let back = record app { current_screen = main; generated_pubkey = none } in
      elim key_code [
        | esc ↦ back
        | char c ↦ if nat_eq c b'c' then back else app
        | enter ↦ app
        | tab ↦ app
        | up ↦ app
        | down ↦ app
        | right ↦ app
        | backspace ↦ app
        | other ↦ app
      ]

  -- `format!("Public: {:?}", ..)`
  abbrev pub shown : env.Key → Text
  shown key = codes "Public: " ++ env.debug_ss58 key

  unfoldable pub generate_keys : App env → Outcome AnyError (App env)
  generate_keys app = do
    opened ← unwrap (env.open_keystore app.world)
    generated ← unwrap (env.generate_key opened)
    keys ← unwrap (env.list_keys generated)
    key ← unwrap (get_elem? keys 0)
    ok (record app {
      generated_pubkey = some (shown key);
      current_screen = key_results;
      world = generated;
    })

  -- A keystore that cannot be listed changes nothing.
  abbrev pub inspected : Option (List env.Key) → App env → App env
  inspected none app = app
  inspected (some []) app = record app {
    generated_pubkey = some (codes "No keys found in keystore");
    current_screen = key_results;
  }
  inspected (some (key ∷ keys)) app = record app {
    generated_pubkey = some (shown key);
    current_screen = key_results;
  }

  unfoldable pub inspect_keys : App env → Outcome AnyError (App env)
  inspect_keys app = do
    opened ← unwrap (env.open_keystore app.world)
    ok (inspected (env.list_keys opened) (record app { world = opened }))
