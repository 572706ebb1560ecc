-- ===== src/Entmoot/Invariant/Rules.antt =====
-- Rules for the calls outside that entmoot/src makes, under the invariant.
use fangorn_rs.Prelude.{
  ◌≡◌, refl, Option, none, some, List, [], ◌∷◌, map, length, Bool, true, is_some, arith,
}
use fangorn_rs.Rust.Outcome.{Outcome, ok, ok_or, unwrap, ◌>>=◌}
use fangorn_rs.Rust.Text.{Text}
use fangorn_rs.Backend.{AnyError}
use fangorn_rs.Entmoot.Env.{Env, KeyCode, esc, enter, tab, up, down, right, backspace, other, char}
use fangorn_rs.Entmoot.App.{App, deselect}
use fangorn_rs.Entmoot.Submission.{encrypt_call, submit}
use fangorn_rs.Entmoot.Invariant.{Fault, encrypt, Kept}

pub length-deselect : (l : List (Text × Bool)) → length (map deselect l) ≡ length l
length-deselect [] = refl
length-deselect (x ∷ l) = omega (arith, length-deselect l)

module _ (env : Env) where
  -- Where a result is unwrapped, either the call has failed or the program goes on.
  pub unwrap-Kept :
      {A : Type 0} (o : Option A) (k : A → Outcome AnyError (App env))
      → (o ≡ none → Fault env)
      → ((a : A) → o ≡ some a → Kept env (k a))
      → Kept env (unwrap o >>= k)
  unwrap-Kept none k fault rest = fault refl
  unwrap-Kept (some a) k fault rest = rest a refl

  pub ok_or-Kept :
      {A : Type 0} (o : Option A) (e : AnyError) (k : A → Outcome AnyError (App env))
      → ((a : A) → Kept env (k a))
      → Kept env (ok_or o e >>= k)
  ok_or-Kept none e k rest = tt
  ok_or-Kept (some a) e k rest = rest a

  pub submit-Kept :
      (intents : Text) (app : App env) (k : App env → Outcome AnyError (App env))
      → is_some app.file_path ≡ true
      → ((w : env.World) → Kept env (k (record app { world = w })))
      → Kept env (submit env intents app >>= k)
  unfolding submit
  submit-Kept intents app k file rest = with_path app.file_path file
    where
      called :
          (o : Option env.World)
          → (o ≡ none → Fault env)
          → Kept env ((unwrap o >>= λ w. ok (record app { world = w })) >>= k)
      called none fault = fault refl
      called (some w) fault = rest w

      with_path :
          (path : Option Text)
          → is_some path ≡ true
          → Kept env (
              (unwrap path >>= λ p.
              unwrap (env.handle_encrypt (encrypt_call env intents p app) app.world) >>= λ w.
              ok (record app { world = w }))
              >>= k)
      with_path none h = cc
      with_path (some p) h =
          let call = encrypt_call env intents p app in
          called (env.handle_encrypt call app.world) (encrypt call app.world)

  -- A screen with inputs tells four kinds of keys apart.
  pub keys-Kept :
      (code : KeyCode) (cancel change confirm type : Outcome AnyError (App env))
      → Kept env cancel
      → Kept env change
      → Kept env confirm
      → Kept env type
      → Kept env (elim code [ esc ↦ cancel | tab ↦ change | enter ↦ confirm | _ ↦ type ])
  keys-Kept esc _ _ _ _ c t e k = c
  keys-Kept tab _ _ _ _ c t e k = t
  keys-Kept enter _ _ _ _ c t e k = e
  keys-Kept up _ _ _ _ c t e k = k
  keys-Kept down _ _ _ _ c t e k = k
  keys-Kept right _ _ _ _ c t e k = k
  keys-Kept backspace _ _ _ _ c t e k = k
  keys-Kept other _ _ _ _ c t e k = k
  keys-Kept (char x) _ _ _ _ c t e k = k
