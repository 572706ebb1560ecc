-- ===== src/Entmoot/Invariant/Encryption.antt =====
-- The screens of entmoot/src/menus/encryption keep the invariant, but for the choice of intents.
use fangorn_rs.Prelude.{◌≡◌, refl, Bool, true, false, ◌++◌, arith}
use fangorn_rs.Rust.Outcome.{ok, ◌>>=◌}
use fangorn_rs.Rust.Text.{Text, codes}
use fangorn_rs.Entmoot.Env.{Env, KeyEvent}
use fangorn_rs.Entmoot.App.{
  App, encrypt_file_select_screen, encryption_input_screen, reset_input_fields, reset_intent_list,
}
use fangorn_rs.Entmoot.Submission.{
  password_intent, psp22_intent, and_sr25519, submit, handle_encrypt_all, handle_encrypt_psp22,
  handle_encrypt_password,
}
use fangorn_rs.Entmoot.FileSelect.{handle_input as handle_file_input, explore_error}
use fangorn_rs.Entmoot.Encryption.{
  text_of, cleanup, change_input, type_key, match_num_chars, confirm, handle_input,
}
use fangorn_rs.Entmoot.Invariant.{IsValid, Kept}
use fangorn_rs.Entmoot.Invariant.Rules.{length-deselect, submit-Kept, ok_or-Kept, keys-Kept}

module _ (env : Env) where
  pub cleanup-IsValid :
      (app : App env)
      → IsValid env app
      → app.decrypt_input_selection ≡ 0
      → IsValid env (cleanup env app)
  unfolding cleanup reset_input_fields reset_intent_list
  cleanup-IsValid app v d = ground (arith, length-deselect app.intent_list_items)

  -- What the screen relies on, with the two choices written out.
  abbrev Shown : Bool → Bool → App env → Type 0
  Shown c p app =
      (app.current_screen ≡ encryption_input_screen)
      × (app.display_contract_address_input ≡ c)
      × (app.display_password_input ≡ p)
      × IsValid env app

  change_input-IsValid :
      (c p : Bool) (app : App env) → Shown c p app → IsValid env (change_input env app)
  unfolding change_input
  change_input-IsValid true true app h = ground arith
  change_input-IsValid true false app h = ground arith
  change_input-IsValid false true app h = ground arith
  change_input-IsValid false false app h = ground arith

  -- A key at the token count changes nothing but this input, which it does not hide.
  match_num_chars-IsValid :
      (key : KeyEvent) (app : App env)
      → app.current_screen ≡ encryption_input_screen
      → app.token_count_input.hidden ≡ false
      → IsValid env app
      → IsValid env (match_num_chars env key app)
  unfolding match_num_chars
  match_num_chars-IsValid key app screen shown v = ground arith

  type_key-IsValid :
      (c p : Bool) (key : KeyEvent) (app : App env)
      → Shown c p app
      → IsValid env (type_key env key app)
  unfolding type_key
  type_key-IsValid true true key app h = ground (arith, match_num_chars-IsValid key app)
  type_key-IsValid true false key app h = ground (arith, match_num_chars-IsValid key app)
  type_key-IsValid false true key app h = ground arith
  type_key-IsValid false false key app h = ground arith

  -- An encryption that was started ends on the main screen.
  submitted :
      (intents : Text) (app : App env)
      → app.current_screen ≡ encryption_input_screen
      → IsValid env app
      → Kept env (submit env intents app >>= λ a. ok (cleanup env a))
  submitted intents app screen v =
      submit-Kept env intents app (λ a. ok (cleanup env a)) (ground arith)
        (λ w. cleanup-IsValid (record app { world = w }) (ground arith) (ground arith))

  confirm-Kept : (c p : Bool) (app : App env) → Shown c p app → Kept env (confirm env app)
  unfolding confirm handle_encrypt_all handle_encrypt_psp22 handle_encrypt_password
  confirm-Kept true true app (screen, c, p, v) =
      let psp22 =
        psp22_intent (text_of env app.contract_address_input) (text_of env app.token_count_input) in
      let both = password_intent (text_of env app.password_input) ++ (codes " && " ++ psp22) in
      ground (arith, submitted (and_sr25519 app.sr25519_intent both) app screen v)
  confirm-Kept true false app (screen, c, p, v) =
      let psp22 =
        psp22_intent (text_of env app.contract_address_input) (text_of env app.token_count_input) in
      ground (arith, submitted (and_sr25519 app.sr25519_intent psp22) app screen v)
  confirm-Kept false true app (screen, c, p, v) =
      let password = password_intent (text_of env app.password_input) in
      ground (arith, submitted (and_sr25519 app.sr25519_intent password) app screen v)
  confirm-Kept false false app (screen, c, p, v) = absurd (ground arith)

  -- A key on the encryption screen keeps the invariant, or a call outside has failed.
  pub handle_input-Kept :
      (key : KeyEvent) (app : App env)
      → app.current_screen ≡ encryption_input_screen
      → IsValid env app
      → Kept env (handle_input env key app)
  unfolding handle_input
  handle_input-Kept key app screen v =
      let shown : Shown app.display_contract_address_input app.display_password_input app =
        (screen, refl, refl, v) in
      keys-Kept env key.code (ok (cleanup env app)) (ok (change_input env app)) (confirm env app)
        (ok (type_key env key app)) (cleanup-IsValid app v (ground arith))
        (change_input-IsValid _ _ app shown) (confirm-Kept _ _ app shown)
        (type_key-IsValid _ _ key app shown)

  pub handle_file_input-Kept :
      (key : KeyEvent) (app : App env)
      → app.current_screen ≡ encrypt_file_select_screen
      → IsValid env app
      → Kept env (handle_file_input env key app)
  unfolding handle_file_input
  handle_file_input-Kept key app screen v =
      let explored =
        ok_or-Kept env (env.explore key app.file_explorer) explore_error
          (λ e. ok (record app { file_explorer = e })) (λ e. ground arith) in
      ground arith
