-- ===== src/Gadget/Registry.antt =====
-- The registry of fangorn/src/gadget/mod.rs: registering gadgets, building intents, and intents that
-- come back from storage without their gadget.
use fangorn_rs.Prelude.{
  ◌≡◌, ap, ◌∙◌, none, some, List, [], ◌∷◌, if◌then◌else◌, ◌==◌, list_eq_iff, arith, ℕ-Eq, List-Eq,
}
use fangorn_rs.Rust.Outcome.{ok, ok_or, map_err, >>=-eq-ok, ok_or-eq-ok, map_err-eq-ok}
use fangorn_rs.Rust.Text.{Text}
use fangorn_rs.Gadget.Codec.{Bytes}
use fangorn_rs.Gadget.Syntax.{Nom, parse_intent_string}
use fangorn_rs.Gadget.{
  unknown_intent_type, Gadget, GadgetRegistry, Intent, find, without, register, get_gadget,
  make_intent, make_intents, parse_intents, resolve, verify_intent,
}

module _ {W : Type 0} where
  find-without :
      (k j : Text) (l : List (Text × Gadget W))
      → find j (without k l) ≡ (if k == j then none else find j l)
  find-without k j [] = ground arith
  find-without k j ((i, g) ∷ l) =
      ground (arith, find-without k j l, list_eq_iff i k, list_eq_iff i j, list_eq_iff k j)

  -- A gadget that is registered is found under its own type from then on, in place of an older one;
  -- the other types are found as before.
  pub get_gadget-register :
      (g : Gadget W) (r : GadgetRegistry W) (key : Text)
      → get_gadget (register g r) key
        ≡ (if g.intent_type_id == key then some g else get_gadget r key)
  unfolding get_gadget register
  get_gadget-register g r key = ground (arith, find-without g.intent_type_id key r.gadgets)

module _ {W : Type 0} (r : GadgetRegistry W) where
  -- An intent is what a written type and data mean to the gadget registered for the type.
  abbrev pub BuiltFrom : Text → Text → Intent W → Type 0
  BuiltFrom ty content i =
      (g : Gadget W) × (get_gadget r ty ≡ some g)
      × (g.parse_intent_data content ≡ ok i.statement)
      × (i.intent_type ≡ ty)
      × (i.gadget ≡ some g)

  abbrev pub Built : List (Text × Text) → List (Intent W) → Type 0
  Built [] [] = Unit {0}
  Built [] (i ∷ is) = ⊥
  Built (p ∷ ps) [] = ⊥
  Built ((ty, content) ∷ ps) (i ∷ is) = BuiltFrom ty content i × Built ps is

  make_intent-BuiltFrom :
      (ty content : Text) (i : Intent W) → make_intent r ty content ≡ ok i → BuiltFrom ty content i
  unfolding make_intent
  make_intent-BuiltFrom ty content i h =
      let (g, found, h') = >>=-eq-ok (ok_or (get_gadget r ty) (unknown_intent_type ty)) _ h in
      let (s, parsed, h'') = >>=-eq-ok (g.parse_intent_data content) _ h' in
      (
        g,
        ok_or-eq-ok (get_gadget r ty) _ found,
        ground (arith, parsed, h''),
        ground (arith, h''),
        ground (arith, h''),
      )

  make_intents-Built :
      (ps : List (Text × Text)) (is : List (Intent W)) → make_intents r ps ≡ ok is → Built ps is
  unfolding make_intents
  make_intents-Built [] [] h = tt
  make_intents-Built [] (i ∷ is) h = cc
  make_intents-Built ((ty, content) ∷ ps) [] h =
      let (i', e, h') = >>=-eq-ok (make_intent r ty content) _ h in
      let (is', e', h'') = >>=-eq-ok (make_intents r ps) _ h' in cc
  make_intents-Built ((ty, content) ∷ ps) (i ∷ is) h =
      let (i', e, h') = >>=-eq-ok (make_intent r ty content) _ h in
      let (is', e', h'') = >>=-eq-ok (make_intents r ps) _ h' in
      (
        make_intent-BuiltFrom ty content i (e ∙ ap ok (ground (arith, h''))),
        make_intents-Built ps is (e' ∙ ap ok (ground (arith, h''))),
      )

  -- A parsed intent string gives one intent for each conjunct, in order: the statement is what the
  -- gadget registered for the conjunct's type makes of its data, and the intent carries that gadget.
  pub parse_intents-Built :
      (nom : Nom) (input : Text) (is : List (Intent W))
      → parse_intents nom r input ≡ ok is
      → (ps : List (Text × Text)) × (parse_intent_string nom input ≡ ok ps) × Built ps is
  unfolding parse_intents
  parse_intents-Built nom input is h =
      let (ps, parsed, made) = >>=-eq-ok (map_err _ (parse_intent_string nom input)) _ h in
      (ps, map_err-eq-ok _ (parse_intent_string nom input) parsed, make_intents-Built ps is made)

  -- What a store keeps of an intent.
  abbrev pub stored : Intent W → Intent W
  stored i = record i { gadget = none }

  -- An intent that a registry built is verified as before when it comes back from storage without
  -- its gadget, on a node with the same registry.
  pub verify_intent-stored :
      (world : W) (ty content : Text) (i : Intent W) (witness : Bytes)
      → make_intent r ty content ≡ ok i
      → verify_intent r world (stored i) witness ≡ verify_intent r world i witness
  unfolding verify_intent resolve
  verify_intent-stored world ty content i witness h =
      let (g, found, _, named, carried) = make_intent-BuiltFrom ty content i h in
      rw (named, carried, found)
