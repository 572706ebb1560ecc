-- ===== src/Entmoot/Invariant/Decryption.antt =====
-- The screen of entmoot/src/menus/decryption/decrypt_screen.rs keeps the invariant.
use fangorn_rs.Prelude.{
  ℕ, ◌≡◌, refl, sym, subst, Bool, true, false, Option, none, some, List, [], ◌++◌, is_some, arith,
}
use fangorn_rs.Rust.Outcome.{Outcome, ok, unwrap, ◌>>=◌, >>=-assoc}
use fangorn_rs.Rust.Text.{Text}
use fangorn_rs.Rust.Bytes.{to_le_bytes}
use fangorn_rs.Utils.{Ss58, decode_public_key, load_mnemonic}
use fangorn_rs.Backend.{AnyError}
use fangorn_rs.Gadget.Sr25519.{Hex}
use fangorn_rs.Entmoot.Env.{Env, KeyEvent}
use fangorn_rs.Entmoot.App.{App, decrypt_screen, reset_input_fields, reset_intent_list}
use fangorn_rs.Entmoot.Submission.{keystore_path}
use fangorn_rs.Entmoot.Encryption.{text_of}
use fangorn_rs.Entmoot.Decryption.{
  cleanup, signed_nonce, witness_for, prepare_witness_string, request, change_input, confirm,
  type_key, handle_input,
}
use fangorn_rs.Entmoot.Invariant.{IsValid, Kept, Fault, decrypt, mnemonic, phrase, account}
use fangorn_rs.Entmoot.Invariant.Rules.{length-deselect, unwrap-Kept, keys-Kept}

module _ (env : Env) (ss58 : Ss58) (hex : Hex) where
  pub cleanup-IsValid :
      (app : App env)
      → IsValid env app
      → app.encrypt_input_selection ≡ 0
      → IsValid env (cleanup env ss58 hex app)
  unfolding cleanup reset_input_fields reset_intent_list
  cleanup-IsValid app v e = ground (arith, length-deselect app.intent_list_items)

  module _ (signer : env.Signer) (b : env.Backend) (w : env.World)
      (k : Text → Outcome AnyError (App env)) (rest : (t : Text) → Kept env (k t)) where
    abbrev pubkey : List ℕ
    pubkey = decode_public_key ss58 (env.address signer)

    -- What stands behind a signed nonce is reached, unless the nonce cannot be read.
    signed-Kept : Kept env (signed_nonce env ss58 hex signer b w >>= k)
    unfolding signed_nonce
    signed-Kept = with_nonce (env.nonce b pubkey w) (account b pubkey w)
      where
        with_nonce :
            (o : Option ℕ)
            → (o ≡ none → Fault env)
            → Kept env (
                (unwrap o >>= λ n.
                ok (env.address signer ++ hex.encode (env.sign signer (to_le_bytes 4 n))))
                >>= k)
        with_nonce none fault = fault refl
        with_nonce (some n) fault = rest _

    framed-Kept :
        (frame : Text → Text)
        → Kept env ((signed_nonce env ss58 hex signer b w >>= λ t. ok (frame t)) >>= k)
    unfolding signed_nonce
    framed-Kept frame = with_nonce (env.nonce b pubkey w) (account b pubkey w)
      where
        with_nonce :
            (o : Option ℕ)
            → (o ≡ none → Fault env)
            → Kept env (
                ((unwrap o >>= λ n.
                ok (env.address signer ++ hex.encode (env.sign signer (to_le_bytes 4 n))))
                  >>= λ t. ok (frame t))
                >>= k)
        with_nonce none fault = fault refl
        with_nonce (some n) fault = rest _

    -- Every choice of intents gives a witness, under the same condition.
    witness_for-Kept :
        (p c s : Bool) (password : Text)
        → Kept env (witness_for env ss58 hex p c s password signer b w >>= k)
    unfolding witness_for
    witness_for-Kept true true true password = framed-Kept _
    witness_for-Kept false true true password = framed-Kept _
    witness_for-Kept true false true password = framed-Kept _
    witness_for-Kept true true false password = rest _
    witness_for-Kept false true false password = rest _
    witness_for-Kept true false false password = rest _
    witness_for-Kept false false true password = signed-Kept
    witness_for-Kept false false false password = rest _

  module _ (app : App env) (connected : is_some app.substrate_backend ≡ true) (password : Text)
      (k : Text × App env → Outcome AnyError (App env))
      (rest : (t : Text) (b : env.Backend)
        → Kept env (k (t, record app { substrate_backend = some b }))) where
    -- The witness string that a signer's choice of intents asks for.
    abbrev witness : env.Signer → env.Backend → Outcome AnyError (Text × App env)
    witness signer b = do
      t ←
          witness_for env ss58 hex app.display_password_input app.display_contract_address_input
            app.sr25519_intent password signer (env.update_signer signer b) app.world
      ok (t, record app { substrate_backend = some (env.update_signer signer b) })

    witness-Kept :
        (signer : env.Signer) (o : Option env.Backend)
        → is_some o ≡ true
        → Kept env ((unwrap o >>= witness signer) >>= k)
    witness-Kept signer none h = cc
    witness-Kept signer (some b) h =
        let b' = env.update_signer signer b in
        let next = λ (t : Text). k (t, record app { substrate_backend = some b' }) in
        subst (Kept env)
          (sym (
            >>=-assoc
              (witness_for env ss58 hex app.display_password_input
                app.display_contract_address_input app.sr25519_intent password signer b' app.world)
              (λ t. ok (t, record app { substrate_backend = some b' })) k))
          (witness_for-Kept signer b' app.world next (λ t. rest t b') app.display_password_input
            app.display_contract_address_input app.sr25519_intent password)

    prepare-Kept : Kept env (prepare_witness_string env ss58 hex password app >>= k)
    unfolding prepare_witness_string
    prepare-Kept =
        with_mnemonic (load_mnemonic env.read_dir env.read_to_string keystore_path app.world)
          (mnemonic app.world)
      where
        with_signer :
            (o : Option env.Signer)
            → (o ≡ none → Fault env)
            → Kept env
                ((unwrap o >>= λ signer. unwrap app.substrate_backend >>= witness signer) >>= k)
        with_signer none fault = fault refl
        with_signer (some signer) fault = witness-Kept signer app.substrate_backend connected

        with_mnemonic :
            (o : Option Text)
            → (o ≡ none → Fault env)
            → Kept env (
                (unwrap o >>= λ t. unwrap (env.from_phrase t) >>= λ signer.
                unwrap app.substrate_backend >>= witness signer)
                >>= k)
        with_mnemonic none fault = fault refl
        with_mnemonic (some t) fault = with_signer (env.from_phrase t) (phrase t)

  -- What the screen relies on, with the choice of a password written out.
  abbrev Shown : Bool → App env → Type 0
  Shown p app =
      (app.current_screen ≡ decrypt_screen) × (app.display_password_input ≡ p) × IsValid env app

  change_input-IsValid :
      (p : Bool) (app : App env) → Shown p app → IsValid env (change_input env ss58 hex app)
  unfolding change_input
  change_input-IsValid true app h = ground arith
  change_input-IsValid false app h = ground arith

  type_key-IsValid :
      (p : Bool) (key : KeyEvent) (app : App env)
      → Shown p app
      → IsValid env (type_key env ss58 hex key app)
  unfolding type_key
  type_key-IsValid true key app h = ground arith
  type_key-IsValid false key app h = ground arith

  -- A request that was made ends on the main screen.
  request-Kept :
      (filename password : Text) (app : App env)
      → app.current_screen ≡ decrypt_screen
      → IsValid env app
      → Kept env (request env ss58 hex filename password app)
  unfolding request
  request-Kept filename password app screen v = prepare-Kept app (ground arith) password _ (λ t b.
      unwrap-Kept env (env.handle_decrypt _ app.world) _ (decrypt _ app.world) (λ w e.
        cleanup-IsValid (record app { substrate_backend = some b; world = w }) (ground arith)
          (ground arith)))

  confirm-Kept : (p : Bool) (app : App env) → Shown p app → Kept env (confirm env ss58 hex app)
  unfolding confirm
  confirm-Kept true app (screen, p, v) = ground (
    arith,
    request-Kept (text_of env app.filename_input) (text_of env app.password_input) app screen v,
  )
  confirm-Kept false app (screen, p, v) =
      ground (arith, request-Kept (text_of env app.filename_input) [] app screen v)

  -- A key on the decryption screen keeps the invariant, or a call outside has failed.
  pub handle_input-Kept :
      (key : KeyEvent) (app : App env)
      → app.current_screen ≡ decrypt_screen
      → IsValid env app
      → Kept env (handle_input env ss58 hex key app)
  unfolding handle_input
  handle_input-Kept key app screen v =
      let shown : Shown app.display_password_input app = (screen, refl, v) in
      keys-Kept env key.code (ok (cleanup env ss58 hex app)) (ok (change_input env ss58 hex app))
        (confirm env ss58 hex app) (ok (type_key env ss58 hex key app))
        (cleanup-IsValid app v (ground arith)) (change_input-IsValid _ app shown)
        (confirm-Kept _ app shown) (type_key-IsValid _ key app shown)
