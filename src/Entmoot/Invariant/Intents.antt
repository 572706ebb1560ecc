-- ===== src/Entmoot/Invariant/Intents.antt =====
-- The choice of intents and the keys in entmoot/src keep the invariant.
use fangorn_rs.Prelude.{
  ℕ, zero, suc, ◌<◌, ◌≡◌, refl, Bool, true, false, Option, none, some, List, [], ◌∷◌, length,
  get_elem?, set, arith,
}
use fangorn_rs.Rust.Outcome.{ok, unwrap, ◌>>=◌}
use fangorn_rs.Rust.Text.{Text, codes}
use fangorn_rs.Entmoot.Env.{Env, KeyCode, esc, enter, tab, up, down, right, backspace, other, char}
use fangorn_rs.Entmoot.App.{
  App, main, key_results, intent_selection, next_row, previous_row, reset_intent_list,
}
use fangorn_rs.Entmoot.Intents.{
  toggle, chosen, next, previous, select, encrypt_signed, proceed, confirm, handle_input,
}
use fangorn_rs.Entmoot.Keys
use fangorn_rs.Entmoot.Keys.{generate_keys, inspect_keys}
use fangorn_rs.Entmoot.Invariant.{InRange, IsValid, Kept, keystore, key, listing, no_key}
use fangorn_rs.Entmoot.Invariant.Rules.{length-deselect, unwrap-Kept, submit-Kept}

-- Moving through the rows stays in them.
pub next_row-InRange : (n : ℕ) (o : Option ℕ) → 0 < n → InRange n o → InRange n (next_row n o)
unfolding next_row
next_row-InRange n none pos h = pos
next_row-InRange n (some i) pos h = ground arith

pub previous_row-InRange :
    (n : ℕ) (o : Option ℕ) → 0 < n → InRange n o → InRange n (previous_row n o)
unfolding previous_row
previous_row-InRange n none pos h = pos
previous_row-InRange n (some i) pos h = ground arith

length-set {ℓ} : {A : Type ℓ} (l : List A) (i : ℕ) (x : A) → length (set l i x) ≡ length l
length-set [] i x = refl
length-set (y ∷ l) zero x = refl
length-set (y ∷ l) (suc i) x = omega (arith, length-set l i x)

get_elem?-lt {ℓ} :
    {A : Type ℓ} (l : List A) (i : ℕ) → i < length l → (x : A) × (get_elem? l i ≡ some x)
get_elem?-lt [] i h = absurd (omega arith)
get_elem?-lt (y ∷ l) zero h = (y, refl)
get_elem?-lt (y ∷ l) (suc i) h = get_elem?-lt l i (omega arith)

module _ (env : Env) where
  next-IsValid :
      (app : App env)
      → app.current_screen ≡ intent_selection
      → IsValid env app
      → IsValid env (next env app)
  unfolding next
  next-IsValid app screen v =
      ground (arith, next_row-InRange (length app.intent_list_items) app.intent_list_state)

  previous-IsValid :
      (app : App env)
      → app.current_screen ≡ intent_selection
      → IsValid env app
      → IsValid env (previous env app)
  unfolding previous
  previous-IsValid app screen v =
      ground (arith, previous_row-InRange (length app.intent_list_items) app.intent_list_state)

  select-Kept :
      (app : App env)
      → app.current_screen ≡ intent_selection
      → IsValid env app
      → Kept env (select env app)
  unfolding select
  select-Kept app screen v = by_row app.intent_list_state v.item
    where
      by_item :
          (i : ℕ) (o : Option (Text × Bool))
          → (x : Text × Bool) × (o ≡ some x)
          → Kept env (
              unwrap o >>= λ item.
              ok (record app { intent_list_items = set app.intent_list_items i (toggle item) }))
      by_item i none (x, e) = cc
      by_item i (some item) found =
          ground (arith, length-set {0} app.intent_list_items i (toggle item))

      by_row :
          (o : Option ℕ)
          → InRange 3 o
          → Kept env (elim o [
            | none ↦ ok app
            | some selected ↦
                (unwrap (get_elem? app.intent_list_items selected) >>= λ item. ok (record app {
                  intent_list_items = set app.intent_list_items selected (toggle item);
                }))
          ])
      by_row none h = v
      by_row (some i) h =
          by_item i (get_elem? app.intent_list_items i)
            (get_elem?-lt app.intent_list_items i (omega (arith, v.items)))

  encrypt_signed-Kept :
      (app : App env)
      → app.current_screen ≡ intent_selection
      → app.is_encrypt_path ≡ true
      → IsValid env app
      → Kept env (encrypt_signed env app)
  unfolding encrypt_signed reset_intent_list
  encrypt_signed-Kept app screen path v =
      submit-Kept env (codes "Sr25519()") app _ (ground (arith, v.on_screen))
        (λ w. ground (arith, length-deselect app.intent_list_items))

  proceed-Kept :
      (c p : Bool) (app : App env)
      → app.display_contract_address_input ≡ c
      → app.display_password_input ≡ p
      → app.current_screen ≡ intent_selection
      → IsValid env app
      → Kept env (proceed env app)
  unfolding proceed
  proceed-Kept true true app hc hp screen v = ground arith
  proceed-Kept true false app hc hp screen v = ground arith
  proceed-Kept false true app hc hp screen v = ground arith
  proceed-Kept false false app hc hp screen v = ground (arith, encrypt_signed-Kept app screen)

  confirm-Kept :
      (app : App env)
      → app.current_screen ≡ intent_selection
      → IsValid env app
      → Kept env (confirm env app)
  unfolding confirm
  confirm-Kept app screen v = by_items app.intent_list_items v.items
    where
      by_items :
          (l : List (Text × Bool))
          → length l ≡ 3
          → Kept env (do
            password ← unwrap (get_elem? l 0)
            contract_address ← unwrap (get_elem? l 1)
            signature ← unwrap (get_elem? l 2)
            proceed env (record app {
              display_password_input = chosen password;
              display_contract_address_input = chosen contract_address;
              sr25519_intent = chosen signature;
            }))
      by_items [] h = absurd (omega (arith, h))
      by_items (x ∷ []) h = absurd (omega (arith, h))
      by_items (x ∷ y ∷ []) h = absurd (omega (arith, h))
      by_items (x ∷ y ∷ z ∷ l) h =
          proceed-Kept (chosen y) (chosen x)
            (record app {
              display_password_input = chosen x;
              display_contract_address_input = chosen y;
              sr25519_intent = chosen z;
            })
            refl refl screen (ground arith)

  pub handle_input-Kept :
      (code : KeyCode) (app : App env)
      → app.current_screen ≡ intent_selection
      → IsValid env app
      → Kept env (handle_input env code app)
  unfolding handle_input reset_intent_list
  handle_input-Kept esc app screen v = ground (arith, length-deselect app.intent_list_items)
  handle_input-Kept enter app screen v = confirm-Kept app screen v
  handle_input-Kept tab app screen v = v
  handle_input-Kept up app screen v = previous-IsValid app screen v
  handle_input-Kept down app screen v = next-IsValid app screen v
  handle_input-Kept right app screen v = v
  handle_input-Kept backspace app screen v = v
  handle_input-Kept other app screen v = v
  handle_input-Kept (char c) app screen v =
      ground (arith, length-deselect app.intent_list_items, select-Kept app screen v)

  -- What the menu relies on when it opens the keys.
  pub generate_keys-Kept :
      (app : App env)
      → app.current_screen ≡ main
      → IsValid env app
      → Kept env (generate_keys env app)
  unfolding generate_keys
  generate_keys-Kept app screen v =
      unwrap-Kept env (env.open_keystore app.world) _ (keystore app.world) (λ w0 e0.
        unwrap-Kept env (env.generate_key w0) _ (key w0) (λ w1 e1.
          unwrap-Kept env (env.list_keys w1) _ (listing w1) (λ keys e2. first w1 keys e2)))
    where
      first :
          (w : env.World) (keys : List env.Key)
          → env.list_keys w ≡ some keys
          → Kept env (
              unwrap (get_elem? keys 0) >>= λ k. ok (record app {
                generated_pubkey = some (Keys.shown env k);
                current_screen = key_results;
                world = w;
              }))
      first w [] e = no_key w e
      first w (k ∷ keys) e = ground (arith, v, screen)

  pub inspect_keys-Kept :
      (app : App env)
      → app.current_screen ≡ main
      → IsValid env app
      → Kept env (inspect_keys env app)
  unfolding inspect_keys
  inspect_keys-Kept app screen v =
      unwrap-Kept env (env.open_keystore app.world) _ (keystore app.world)
        (λ w e. listed w (env.list_keys w))
    where
      listed :
          (w : env.World) (keys : Option (List env.Key))
          → Kept env (ok (Keys.inspected env keys (record app { world = w })))
      listed w none = ground (arith, v, screen)
      listed w (some []) = ground (arith, v, screen)
      listed w (some (k ∷ keys)) = ground (arith, v, screen)
