-- ===== src/Gadget/Accepts.antt =====
-- Intents of fangorn/src/gadget/mod.rs that are built, stored and then verified with the witnesses
-- that belong to them.
use fangorn_rs.Prelude.{◌≡◌, refl, ◌∙◌, true, List, [], ◌∷◌, map, length, arith, some}
use fangorn_rs.Rust.Outcome.{ok}
use fangorn_rs.Rust.Text.{Text, as_bytes}
use fangorn_rs.Gadget.Codec.{Bytes, Scale, decode_all-encode}
use fangorn_rs.Gadget.{
  Gadget, GadgetRegistry, Intent, get_gadget, resolve, make_intent, make_intents, verify_intent,
  verify_intents,
}
use fangorn_rs.Gadget.Registry.{stored, verify_intent-stored}
use fangorn_rs.Gadget.Verification.{AllVerified, verify_intents_iff}

module _ {W : Type 0} (r : GadgetRegistry W) (world : W) where
  -- The registry makes an intent of a type and data, and accepts the witness for it.
  abbrev pub AcceptsOne : Text × Text → Text → Type 0
  AcceptsOne (ty, content) w =
      (i : Intent W) × (make_intent r ty content ≡ ok i)
      × (verify_intent r world i (as_bytes w) ≡ ok true)

  -- The same of several, the intents as they come back from storage.
  abbrev pub Accepts : List (Text × Text) → List Text → Type 0
  Accepts ps ws =
      (is : List (Intent W)) × (make_intents r ps ≡ ok is)
      × (length (map as_bytes ws) ≡ length (map (stored r) is))
      × AllVerified r world (map (stored r) is) (map as_bytes ws)

  -- The gadget that is registered for the type decides.
  pub gadget-AcceptsOne :
      (ty content w : Text) (g : Gadget W) (statement : Bytes)
      → get_gadget r ty ≡ some g
      → g.parse_intent_data content ≡ ok statement
      → g.verify_witness world (as_bytes w) statement ≡ ok true
      → AcceptsOne (ty, content) w
  unfolding make_intent verify_intent resolve
  gadget-AcceptsOne ty content w g statement found made accepted = (
    record { intent_type = ty; statement = statement; gadget = some g },
    rw (found, made),
    accepted,
  )

  pub Accepts-nil : Accepts [] []
  unfolding make_intents
  Accepts-nil = ([], refl, refl, tt)

  pub Accepts-cons :
      (p : Text × Text) (w : Text) (ps : List (Text × Text)) (ws : List Text)
      → AcceptsOne p w
      → Accepts ps ws
      → Accepts (p ∷ ps) (w ∷ ws)
  unfolding make_intents
  Accepts-cons (ty, content) w ps ws (i, made, verified) (is, all_made, same, all) = (
    i ∷ is,
    rw (made, all_made),
    omega (arith, same),
    (verify_intent-stored r world ty content i (as_bytes w) made ∙ verified, all),
  )

  pub Accepts-verify_intents :
      (scale : Scale (List Bytes)) (ps : List (Text × Text)) (ws : List Text)
      → Accepts ps ws
      → (is : List (Intent W)) × (make_intents r ps ≡ ok is)
        × (verify_intents scale r world (map (stored r) is) (scale.encode (map as_bytes ws))
            ≡ ok true)
  Accepts-verify_intents scale ps ws (is, made, same, all) = (
    is,
    made,
    (verify_intents_iff r world scale (map (stored r) is) (scale.encode (map as_bytes ws)) true).1
        (refl, (map as_bytes ws, decode_all-encode scale (map as_bytes ws), same, all)),
  )
