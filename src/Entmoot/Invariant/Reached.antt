-- ===== src/Entmoot/Invariant/Reached.antt =====
-- Whatever keys are pressed: what holds of the application of entmoot/src, and how it is left.
use fangorn_rs.Prelude.{ℕ, zero, suc, ◌≡◌, refl, Option, none, some, List, [], ◌∷◌, length, arith}
use fangorn_rs.Rust.Outcome.{Outcome, ok, err, panic, ok_or, ◌>>=◌}
use fangorn_rs.Rust.Text.{Text, codes}
use fangorn_rs.Utils.{Ss58}
use fangorn_rs.Gadget.Sr25519.{Hex}
use fangorn_rs.Backend.{AnyError}
use fangorn_rs.Entmoot.Env.{
  Env, KeyEvent, KeyCode, esc, enter, tab, up, down, right, backspace, other, char, Event, nothing,
  press, release, resize,
}
use fangorn_rs.Entmoot.App.{
  App, CurrentScreen, main, key_results, encrypt_file_select_screen, encryption_input_screen,
  decrypt_screen, intent_selection, next, previous, new,
}
use fangorn_rs.Entmoot.Keys
use fangorn_rs.Entmoot.Run.{
  Flow, continue, break, select_entry, select, go_on, handle_main, handle_key, handle_event, render,
  run_loop, run,
}
use fangorn_rs.Entmoot.Invariant.{IsValid, Kept, KeptFlow}
use fangorn_rs.Entmoot.Invariant.Encryption
use fangorn_rs.Entmoot.Invariant.Decryption
use fangorn_rs.Entmoot.Invariant.Intents
use fangorn_rs.Entmoot.Invariant.Intents.{
  next_row-InRange, previous_row-InRange, generate_keys-Kept, inspect_keys-Kept,
}

module _ (env : Env) (ss58 : Ss58) (hex : Hex) where
  go_on-Kept : (m : Outcome AnyError (App env)) → Kept env m → KeptFlow env (go_on env ss58 hex m)
  go_on-Kept (ok app) h = h
  go_on-Kept (err e) h = h
  go_on-Kept panic h = h

  module _ (app : App env) (screen : app.current_screen ≡ main) (v : IsValid env app) where
    next-IsValid : IsValid env (next env app)
    unfolding next
    next-IsValid = ground (arith, next_row-InRange (length app.menu_items) app.menu_state)

    previous-IsValid : IsValid env (previous env app)
    unfolding previous
    previous-IsValid = ground (arith, previous_row-InRange (length app.menu_items) app.menu_state)

    select_entry-Kept : (i : ℕ) → Kept env (select_entry env ss58 hex i app)
    select_entry-Kept zero =
        generate_keys-Kept env (record app { menu_title = codes " Generate Keys " }) screen
          (ground arith)
    select_entry-Kept (suc zero) =
        inspect_keys-Kept env (record app { menu_title = codes " Inspect Keys " }) screen
          (ground arith)
    select_entry-Kept (suc (suc zero)) = ground arith
    select_entry-Kept (suc (suc (suc zero))) = ground arith
    select_entry-Kept (suc (suc (suc (suc n)))) = v

    select-Kept : Kept env (select env ss58 hex app)
    unfolding select
    select-Kept = by_row app.menu_state
      where
        by_row :
            (o : Option ℕ)
            → Kept env
                (elim o [ none ↦ ok app | some selected ↦ select_entry env ss58 hex selected app ])
        by_row none = v
        by_row (some i) = select_entry-Kept i

    handle_main-Kept : (code : KeyCode) → KeptFlow env (handle_main env ss58 hex code app)
    unfolding handle_main
    handle_main-Kept esc = v
    handle_main-Kept up = previous-IsValid
    handle_main-Kept down = next-IsValid
    handle_main-Kept enter = go_on-Kept (select env ss58 hex app) select-Kept
    handle_main-Kept right = go_on-Kept (select env ss58 hex app) select-Kept
    handle_main-Kept (char c) =
        ground
          (arith, previous-IsValid, next-IsValid, go_on-Kept (select env ss58 hex app) select-Kept)
    handle_main-Kept tab = v
    handle_main-Kept backspace = v
    handle_main-Kept other = v

  keys-IsValid :
      (code : KeyCode) (app : App env)
      → app.current_screen ≡ key_results
      → IsValid env app
      → IsValid env (Keys.handle_input env code app)
  unfolding Keys.handle_input
  keys-IsValid code app screen v = ground arith

  handle_key-Kept :
      (s : CurrentScreen) (key : KeyEvent) (app : App env)
      → app.current_screen ≡ s
      → IsValid env app
      → KeptFlow env (handle_key env ss58 hex s key app)
  unfolding handle_key
  handle_key-Kept main key app e v = handle_main-Kept app e v key.code
  handle_key-Kept key_results key app e v = keys-IsValid key.code app e v
  handle_key-Kept encrypt_file_select_screen key app e v =
      go_on-Kept _ (Encryption.handle_file_input-Kept env key app e v)
  handle_key-Kept encryption_input_screen key app e v =
      go_on-Kept _ (Encryption.handle_input-Kept env key app e v)
  handle_key-Kept decrypt_screen key app e v =
      go_on-Kept _ (Decryption.handle_input-Kept env ss58 hex key app e v)
  handle_key-Kept intent_selection key app e v =
      go_on-Kept _ (Intents.handle_input-Kept env key.code app e v)

  render-IsValid : (app : App env) → IsValid env app → IsValid env (render env ss58 hex app)
  unfolding render
  render-IsValid app v = ground arith

  handle_event-Kept :
      (event : Event) (app : App env)
      → IsValid env app
      → KeptFlow env (handle_event env ss58 hex event app)
  unfolding handle_event
  handle_event-Kept nothing app v = v
  handle_event-Kept (press key) app v = handle_key-Kept app.current_screen key app refl v
  handle_event-Kept (release key) app v = v
  handle_event-Kept resize app v = v

  run_loop-Kept :
      (events : List Event) (app : App env)
      → IsValid env app
      → KeptFlow env (run_loop env ss58 hex events app)
  unfolding run_loop
  run_loop-Kept [] app v = v
  run_loop-Kept (event ∷ events) app v =
      let shown = render env ss58 hex app in
      onwards (handle_event env ss58 hex event shown)
        (handle_event-Kept event shown (render-IsValid app v)) (run_loop-Kept events)
    where
      onwards :
          (m : Outcome AnyError (Flow (App env)))
          → KeptFlow env m
          → ((app' : App env) → IsValid env app' → KeptFlow env (run_loop env ss58 hex events app'))
          → KeptFlow env (
              m >>= λ flow. elim flow [
                | continue app' ↦ run_loop env ss58 hex events app'
                | break app' ↦ ok (break app')
              ])
      onwards (ok (continue app')) h rest = rest app' h
      onwards (ok (break app')) h rest = h
      onwards (err e) h rest = h
      onwards panic h rest = h

  -- Whatever happens from the start of the application on, its selected rows and inputs are in
  -- range, the input that is selected is the one with the cursor, a file has been chosen on every
  -- screen that leads to an encryption, and it panics only where a call outside has failed.
  pub run-new-KeptFlow :
      (world : env.World) (explorer : env.Explorer) (ticket : Text) (events : List Event)
      → KeptFlow env (run env ss58 hex events (new env world explorer ticket))
  unfolding run new
  run-new-KeptFlow world explorer ticket events = started (env.connect world)
    where
      started :
          (o : Option env.Backend)
          → KeptFlow env (
              ok_or o (codes "connect") >>= λ b.
              run_loop env ss58 hex events
                (record (new env world explorer ticket) { substrate_backend = some b }))
      started none = tt
      started (some b) = run_loop-Kept events _ (ground arith)
