-- ===== src/Entmoot/Strings/Confirmed.antt =====
-- What Enter does on the encryption screen of entmoot/src/menus/encryption/encryption_screen.rs.
use fangorn_rs.Prelude.{◌≡◌, refl, Bool, true, false, ◌||◌, some, arith}
use fangorn_rs.Rust.Outcome.{ok}
use fangorn_rs.Rust.Text.{Text}
use fangorn_rs.Rust.Lines.{is_empty}
use fangorn_rs.Gadget.Syntax.{Nom, parse_intent_string}
use fangorn_rs.Entmoot.Env.{Env}
use fangorn_rs.Entmoot.App.{App}
use fangorn_rs.Entmoot.Submission.{
  encrypt_call, submit, handle_encrypt_all, handle_encrypt_psp22, handle_encrypt_password,
}
use fangorn_rs.Entmoot.Encryption.{text_of, cleanup, confirm}
use fangorn_rs.Entmoot.Strings.{Entries, AreContents, intents_of, pairs_of}
use fangorn_rs.Entmoot.Strings.Intents.{parse_intent_string-intents_of}

module _ (env : Env) where
  -- What the inputs hold.
  abbrev pub entries_of : App env → Entries
  entries_of app = record {
    password = text_of env app.password_input;
    contract_address = text_of env app.contract_address_input;
    token_count = text_of env app.token_count_input;
  }

  -- Every input that the choice shows has a text.
  abbrev pub AllEntered : Bool → Bool → Entries → Type 0
  AllEntered true true e =
      (is_empty e.password ≡ false)
      × (is_empty e.contract_address ≡ false)
      × (is_empty e.token_count ≡ false)
  AllEntered false true e = (is_empty e.contract_address ≡ false) × (is_empty e.token_count ≡ false)
  AllEntered true false e = is_empty e.password ≡ false
  AllEntered false false e = ⊥

  submit_lem :
      (intents path : Text) (app : App env) (w : env.World)
      → app.file_path ≡ some path
      → env.handle_encrypt (encrypt_call env intents path app) app.world ≡ some w
      → submit env intents app ≡ ok (record app { world = w })
  unfolding submit
  submit_lem intents path app w chosen done = ground (arith, chosen, done)

  confirm_lem :
      (p c : Bool) (path : Text) (app : App env) (w : env.World)
      → app.display_password_input ≡ p
      → app.display_contract_address_input ≡ c
      → AllEntered p c (entries_of app)
      → app.file_path ≡ some path
      → env.handle_encrypt
          (encrypt_call env (intents_of p c app.sr25519_intent (entries_of app)) path app)
          app.world
        ≡ some w
      → confirm env app ≡ ok (cleanup env (record app { world = w }))
  unfolding confirm handle_encrypt_all handle_encrypt_psp22 handle_encrypt_password
  confirm_lem true true path app w hp hc entered chosen done = ground (
    arith,
    submit_lem (intents_of true true app.sr25519_intent (entries_of app)) path app w chosen done,
  )
  confirm_lem false true path app w hp hc entered chosen done = ground (
    arith,
    submit_lem (intents_of false true app.sr25519_intent (entries_of app)) path app w chosen done,
  )
  confirm_lem true false path app w hp hc entered chosen done = ground (
    arith,
    submit_lem (intents_of true false app.sr25519_intent (entries_of app)) path app w chosen done,
  )
  confirm_lem false false path app w hp hc entered chosen done = absurd entered

  -- Enter on the encryption screen, where a file has been chosen, every shown input has a text and
  -- the call succeeds, makes the encryption call for the last component of the file's path and ends
  -- in the cleaned-up state over the world of that call. The intent string that it passes on is read
  -- as the chosen intents with the entered data, in the order of the screen, if the parentheses of
  -- the password and of the address are balanced, neither has an ampersand, and the token count has
  -- digits only.
  pub confirm-pairs_of :
      (nom : Nom) (p c : Bool) (path : Text) (app : App env) (w : env.World)
      → app.display_password_input ≡ p
      → app.display_contract_address_input ≡ c
      → AllEntered p c (entries_of app)
      → AreContents (entries_of app)
      → app.file_path ≡ some path
      → env.handle_encrypt
          (encrypt_call env (intents_of p c app.sr25519_intent (entries_of app)) path app)
          app.world
        ≡ some w
      → (confirm env app ≡ ok (cleanup env (record app { world = w })))
        × (parse_intent_string nom (intents_of p c app.sr25519_intent (entries_of app))
            ≡ ok (pairs_of p c app.sr25519_intent (entries_of app)))
  confirm-pairs_of nom p c path app w hp hc entered contents chosen done = (
    confirm_lem p c path app w hp hc entered chosen done,
    parse_intent_string-intents_of nom (entries_of app) contents p c app.sr25519_intent
        (some_chosen p c app.sr25519_intent (entries_of app) entered),
  )
    where
      some_chosen : (p c s : Bool) (e : Entries) → AllEntered p c e → (p || (c || s)) ≡ true
      some_chosen true c s e h = refl
      some_chosen false true s e h = refl
      some_chosen false false s e h = absurd h
