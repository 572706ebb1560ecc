-- ===== src/Entmoot/Strings/Intents.antt =====
-- What fangorn/src/gadget/mod.rs reads from the intent strings of entmoot/src/menus/encryption.
use fangorn_rs.Prelude.{◌≡◌, refl, ap, ◌∙◌, Bool, true, false, ◌||◌, [], ◌∷◌, append_assoc}
use fangorn_rs.Rust.Outcome.{ok}
use fangorn_rs.Rust.Text.{is_whitespace}
use fangorn_rs.Gadget.Syntax.{Nom, parse_intent_string}
use fangorn_rs.Gadget.Format.{parse_intent_string-show}
use fangorn_rs.Entmoot.Strings.{
  Entries, AreContents, intents_of, pairs_of, space, conjunct, psp22_data, psp22_data-IsContent,
  password_conjunct, psp22_conjunct, sr25519_conjunct, password-IsWritten, psp22-IsWritten,
  sr25519-IsWritten,
}

module _ (nom : Nom) (e : Entries) (k : AreContents e) where
  password_only :
      parse_intent_string nom (intents_of true false false e) ≡ ok (pairs_of true false false e)
  unfolding password_conjunct conjunct is_whitespace
  password_only =
      parse_intent_string-show nom (password_conjunct e.password []) []
        (password-IsWritten e.password [] refl k.password) tt

  password_signed :
      parse_intent_string nom (intents_of true false true e) ≡ ok (pairs_of true false true e)
  unfolding password_conjunct sr25519_conjunct conjunct is_whitespace
  password_signed =
      ap (parse_intent_string nom) (simp append_assoc)
      ∙ parse_intent_string-show nom (password_conjunct e.password space)
          (sr25519_conjunct space ∷ []) (password-IsWritten e.password space refl k.password)
          (sr25519-IsWritten space refl refl, tt)

  psp22_only :
      parse_intent_string nom (intents_of false true false e) ≡ ok (pairs_of false true false e)
  unfolding psp22_conjunct conjunct is_whitespace
  psp22_only =
      ap (parse_intent_string nom) (simp append_assoc)
      ∙ parse_intent_string-show nom (psp22_conjunct [] (psp22_data e) []) []
          (psp22-IsWritten [] (psp22_data e) [] refl refl refl (psp22_data-IsContent e k)) tt

  psp22_signed :
      parse_intent_string nom (intents_of false true true e) ≡ ok (pairs_of false true true e)
  unfolding psp22_conjunct sr25519_conjunct conjunct is_whitespace
  psp22_signed =
      ap (parse_intent_string nom) (simp append_assoc)
      ∙ parse_intent_string-show nom (psp22_conjunct [] (psp22_data e) space)
          (sr25519_conjunct space ∷ [])
          (psp22-IsWritten [] (psp22_data e) space refl refl refl (psp22_data-IsContent e k))
          (sr25519-IsWritten space refl refl, tt)

  both_only :
      parse_intent_string nom (intents_of true true false e) ≡ ok (pairs_of true true false e)
  unfolding password_conjunct psp22_conjunct conjunct is_whitespace
  both_only =
      ap (parse_intent_string nom) (simp append_assoc)
      ∙ parse_intent_string-show nom (password_conjunct e.password space)
          (psp22_conjunct space (psp22_data e) [] ∷ [])
          (password-IsWritten e.password space refl k.password)
          (psp22-IsWritten space (psp22_data e) [] refl refl refl (psp22_data-IsContent e k), tt)

  both_signed :
      parse_intent_string nom (intents_of true true true e) ≡ ok (pairs_of true true true e)
  unfolding password_conjunct psp22_conjunct sr25519_conjunct conjunct is_whitespace
  both_signed =
      ap (parse_intent_string nom) (simp append_assoc)
      ∙ parse_intent_string-show nom (password_conjunct e.password space)
          (psp22_conjunct space (psp22_data e) space ∷ sr25519_conjunct space ∷ [])
          (password-IsWritten e.password space refl k.password)
          (
            psp22-IsWritten space (psp22_data e) space refl refl refl (psp22_data-IsContent e k),
            (sr25519-IsWritten space refl refl, tt),
          )

  signed_only :
      parse_intent_string nom (intents_of false false true e) ≡ ok (pairs_of false false true e)
  unfolding sr25519_conjunct conjunct is_whitespace
  signed_only =
      parse_intent_string-show nom (sr25519_conjunct []) [] (sr25519-IsWritten [] refl refl) tt

  -- Whatever was chosen, the intent string of the screens is read as the chosen intents with the
  -- entered data, in the order of the screen, if the parentheses of the password and of the contract
  -- address are balanced, neither has an ampersand, and the token count has digits only.
  pub parse_intent_string-intents_of :
      (p c s : Bool)
      → (p || (c || s)) ≡ true
      → parse_intent_string nom (intents_of p c s e) ≡ ok (pairs_of p c s e)
  parse_intent_string-intents_of true true true h = both_signed
  parse_intent_string-intents_of true true false h = both_only
  parse_intent_string-intents_of true false true h = password_signed
  parse_intent_string-intents_of true false false h = password_only
  parse_intent_string-intents_of false true true h = psp22_signed
  parse_intent_string-intents_of false true false h = psp22_only
  parse_intent_string-intents_of false false true h = signed_only
  parse_intent_string-intents_of false false false h = cc
