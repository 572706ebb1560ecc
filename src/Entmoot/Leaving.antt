-- ===== src/Entmoot/Leaving.antt =====
-- How the application of entmoot/src is left: by Esc, from every screen.
use fangorn_rs.Prelude.{◌≡◌, ◌≢◌, refl, sym, ◌∙◌, ◌⊎◌, inl, inr, Bool, none, List, ◌∷◌, arith}
use fangorn_rs.Rust.Outcome.{ok}
use fangorn_rs.Rust.Text.{codes}
use fangorn_rs.Utils.{Ss58}
use fangorn_rs.Gadget.Sr25519.{Hex}
use fangorn_rs.Entmoot.Env.{Env, KeyEvent, esc, Event, press}
use fangorn_rs.Entmoot.App.{
  App, CurrentScreen, main, key_results, encrypt_file_select_screen, encryption_input_screen,
  decrypt_screen, intent_selection, reset_intent_list,
}
use fangorn_rs.Entmoot.Keys
use fangorn_rs.Entmoot.Encryption
use fangorn_rs.Entmoot.FileSelect
use fangorn_rs.Entmoot.Decryption
use fangorn_rs.Entmoot.Intents
use fangorn_rs.Entmoot.Run.{
  continue, break, handle_main, handle_key, handle_event, render, run_loop,
}

module _ (env : Env) (ss58 : Ss58) (hex : Hex) where
  abbrev pub escape : Bool → KeyEvent
  escape modified = record { code = esc; modified = modified }

  -- Off the main screen, Esc leads to it.
  to_main :
      (s : CurrentScreen) (m : Bool) (app : App env)
      → s ≢ main
      → (app' : App env) × (handle_key env ss58 hex s (escape m) app ≡ ok (continue app'))
        × (app'.current_screen ≡ main)
  unfolding handle_key
  to_main main m app off = absurd (off refl)
  to_main key_results m app off = (
    record app { current_screen = main; generated_pubkey = none },
    unfold Keys.handle_input in refl,
    refl,
  )
  to_main encrypt_file_select_screen m app off = (
    record app { current_screen = main; generated_pubkey = none },
    unfold FileSelect.handle_input in refl,
    refl,
  )
  to_main encryption_input_screen m app off = (
    Encryption.cleanup env app,
    unfold Encryption.handle_input in refl,
    unfold Encryption.cleanup in refl,
  )
  to_main decrypt_screen m app off = (
    Decryption.cleanup env ss58 hex app,
    unfold Decryption.handle_input in refl,
    unfold Decryption.cleanup in refl,
  )
  to_main intent_selection m app off = (
    reset_intent_list env (record app { current_screen = main; generated_pubkey = none }),
    unfold Intents.handle_input in refl,
    unfold reset_intent_list in refl,
  )

  from_main :
      (m : Bool) (app : App env) (events : List Event)
      → app.current_screen ≡ main
      → run_loop env ss58 hex (press (escape m) ∷ events) app
        ≡ ok (break (record app { menu_title = codes " Main Menu " }))
  unfolding run_loop handle_event handle_key handle_main render
  from_main m app events e = ground arith

  same_screen : (app : App env) → (render env ss58 hex app).current_screen ≡ app.current_screen
  unfolding render
  same_screen app = ground arith

  first_escape :
      (m : Bool) (app : App env) (events : List Event)
      → app.current_screen ≢ main
      → (app' : App env) × (run_loop env ss58 hex (press (escape m) ∷ events) app
          ≡ run_loop env ss58 hex events app')
        × (app'.current_screen ≡ main)
  unfolding run_loop handle_event
  first_escape m app events off =
      let shown = render env ss58 hex app in
      let (app', stepped, there) =
        to_main shown.current_screen m shown (λ e. off (sym (same_screen app) ∙ e)) in
      (app', rw stepped, there)

  -- Two presses of Esc leave the application from whatever state it is in, whatever events follow.
  pub run_loop-escape :
      (m n : Bool) (app : App env) (events : List Event)
      → (last : App env) × (run_loop env ss58 hex (press (escape m) ∷ press (escape n) ∷ events) app
          ≡ ok (break last))
        × (last.current_screen ≡ main)
  run_loop-escape m n app events = elim (main_or_not app.current_screen) [
    | inl here ↦ (
      record app { menu_title = codes " Main Menu " },
      from_main m app (press (escape n) ∷ events) here,
      here,
    )
    | inr off ↦
        let (app', stepped, there) = first_escape m app (press (escape n) ∷ events) off in
        (
          record app' { menu_title = codes " Main Menu " },
          stepped ∙ from_main n app' events there,
          there,
        )
  ]
    where
      main_or_not : (s : CurrentScreen) → (s ≡ main) ⊎ (s ≢ main)
      main_or_not main = inl refl
      main_or_not key_results = inr (λ e. cc)
      main_or_not encrypt_file_select_screen = inr (λ e. cc)
      main_or_not encryption_input_screen = inr (λ e. cc)
      main_or_not decrypt_screen = inr (λ e. cc)
      main_or_not intent_selection = inr (λ e. cc)
