-- ===== src/Gadget/Verification.antt =====
-- verify_intents and parse_intents of fangorn/src/gadget/mod.rs: what a success and a failure mean.
use fangorn_rs.Prelude.{◌≡◌, ◌↔◌, refl, Bool, true, false, some, List, [], ◌∷◌, ◌++◌, length, arith}
use fangorn_rs.Rust.Outcome.{ok, err, unwrap, >>=-eq-ok, unwrap-eq-ok}
use fangorn_rs.Gadget.Codec.{Bytes, Scale, decode_all}
use fangorn_rs.Gadget.{
  verification_error, GadgetRegistry, Intent, verify_intent, verify_pairs, verify_intents,
}

module _ {W : Type 0} (r : GadgetRegistry W) (world : W) where
  -- Every intent accepts the witness at its place.
  abbrev pub AllVerified : List (Intent W) → List Bytes → Type 0
  AllVerified [] ws = Unit {0}
  AllVerified (i ∷ is) [] = Unit {0}
  AllVerified (i ∷ is) (w ∷ ws) = (verify_intent r world i w ≡ ok true) × AllVerified is ws

  verify_pairs_sound :
      (is : List (Intent W)) (ws : List Bytes) (b : Bool)
      → verify_pairs r world is ws ≡ ok b
      → (b ≡ true) × AllVerified is ws
  unfolding verify_pairs
  verify_pairs_sound [] ws b h = ground arith
  verify_pairs_sound (i ∷ is) [] b h = ground arith
  verify_pairs_sound (i ∷ is) (w ∷ ws) b h = ground (arith, verify_pairs_sound is ws b)

  verify_pairs_complete :
      (is : List (Intent W)) (ws : List Bytes)
      → AllVerified is ws
      → verify_pairs r world is ws ≡ ok true
  unfolding verify_pairs
  verify_pairs_complete [] ws h = refl
  verify_pairs_complete (i ∷ is) [] h = refl
  verify_pairs_complete (i ∷ is) (w ∷ ws) h = ground (arith, verify_pairs_complete is ws)

  module _ (scale : Scale (List Bytes)) where
    -- `verify_intents` returns a value exactly when the witness bytes decode to one witness for each
    -- intent and every intent accepts the witness at its place; the value is then `true`, never
    -- `false`.
    pub verify_intents_iff :
        (is : List (Intent W)) (witness : Bytes) (b : Bool)
        → (verify_intents scale r world is witness ≡ ok b) ↔ (
            (b ≡ true)
            × ((ws : List Bytes) × (decode_all scale witness ≡ some ws)
                × (length ws ≡ length is)
                × AllVerified is ws))
    unfolding verify_intents
    verify_intents_iff is witness b = (
      λ h.
          let (ws, decoded, checked) = >>=-eq-ok (unwrap (decode_all scale witness)) _ h in
          let facts : (b ≡ true) × ((length ws ≡ length is) × AllVerified is ws) =
            ground (arith, verify_pairs_sound is ws b, checked) in
          (facts.0, (ws, unwrap-eq-ok _ decoded, facts.1.0, facts.1.1)),
      λ (t, (ws, decoded, same, all)).
          rw decoded (ground (arith, verify_pairs_complete is ws all, t, same)),
    )

  -- An intent that rejects its witness, after intents that accept theirs, makes the verification
  -- fail with the type of that intent.
  pub verify_pairs-rejected :
      (is js : List (Intent W)) (i : Intent W) (ws vs : List Bytes) (w : Bytes)
      → length ws ≡ length is
      → AllVerified is ws
      → verify_intent r world i w ≡ ok false
      → verify_pairs r world (is ++ i ∷ js) (ws ++ w ∷ vs) ≡ err (verification_error i.intent_type)
  unfolding verify_pairs
  verify_pairs-rejected [] js i [] vs w same all h = ground arith
  verify_pairs-rejected [] js i (v ∷ ws) vs w same all h = absurd (omega arith)
  verify_pairs-rejected (i' ∷ is) js i [] vs w same all h = absurd (omega arith)
  verify_pairs-rejected (i' ∷ is) js i (v ∷ ws) vs w same all h =
      ground (arith, verify_pairs-rejected is js i ws vs w (omega (arith, same)) all.1 h)
