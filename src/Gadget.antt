-- ===== src/Gadget.antt =====
-- fangorn/src/gadget/mod.rs: intents, the gadgets that decide them, and the registry of gadgets.
pub mod Syntax
pub mod Format
pub mod Codec
pub mod Registry
pub mod Verification
pub mod Accepts
pub mod Password
pub mod Psp22
pub mod Sr25519
pub mod ChainExamples
pub mod Examples
use fangorn_rs.Prelude.{
  ℕ, Bool, true, false, Option, none, some, List, [], ◌∷◌, ◌++◌, length, nat_eq, if◌then◌else◌,
  ◌==◌, ℕ-Eq, List-Eq,
}
use fangorn_rs.Rust.Outcome.{Outcome, ok, err, panic, ok_or, unwrap, map_err, ◌>>=◌, ◌>>◌}
use fangorn_rs.Rust.Text.{Text}
use Syntax.{Nom, parse_intent_string}
use Codec.{Bytes, Scale, decode_all}

pub data IntentError : Type 0 where
  parse_error verification_error unknown_intent_type serialization_error : Text → IntentError

-- The trait. `verify_witness` may read the world `W`, which is the chain.
pub record Gadget (W : Type 0) : Type 0 where
  pub intent_type_id : Text
  pub verify_witness : W → Bytes → Bytes → Outcome IntentError Bool
  pub parse_intent_data : Text → Outcome IntentError Bytes

-- `HashMap<String, Arc<dyn Gadget>>`, newest entry first; `insert` drops an older entry of its key.
pub record GadgetRegistry (W : Type 0) : Type 0 where
  pub gadgets : List (Text × Gadget W)

-- `gadget` is skipped by the encodings.
pub record Intent (W : Type 0) : Type 0 where
  pub intent_type : Text
  pub statement : Bytes
  pub gadget : Option (Gadget W)

module _ {W : Type 0} where
  abbrev pub find : Text → List (Text × Gadget W) → Option (Gadget W)
  find key [] = none
  find key ((id, gadget) ∷ rest) = if id == key then some gadget else find key rest

  abbrev pub without : Text → List (Text × Gadget W) → List (Text × Gadget W)
  without key [] = []
  without key ((id, gadget) ∷ rest) =
      let others = without key rest in if id == key then others else (id, gadget) ∷ others

  abbrev pub new : GadgetRegistry W
  new = record { gadgets = [] }

  unfoldable pub register : Gadget W → GadgetRegistry W → GadgetRegistry W
  register gadget r =
      let id = gadget.intent_type_id in record { gadgets = (id, gadget) ∷ without id r.gadgets }

  unfoldable pub get_gadget : GadgetRegistry W → Text → Option (Gadget W)
  get_gadget r intent_type = find intent_type r.gadgets

  -- One round of the loop of `parse_intents`.
  unfoldable pub make_intent : GadgetRegistry W → Text → Text → Outcome IntentError (Intent W)
  make_intent r intent_type content = do
    gadget ← ok_or (get_gadget r intent_type) (unknown_intent_type intent_type)
    statement ← gadget.parse_intent_data content
    ok (record { intent_type = intent_type; statement = statement; gadget = some gadget })

  unfoldable pub make_intents :
      GadgetRegistry W → List (Text × Text) → Outcome IntentError (List (Intent W))
  unfolding make_intent
  make_intents r [] = ok []
  make_intents r ((intent_type, content) ∷ parsed) = do
    intent ← make_intent r intent_type content
    intents ← make_intents r parsed
    ok (intent ∷ intents)

  unfoldable pub parse_intents :
      Nom → GadgetRegistry W → Text → Outcome IntentError (List (Intent W))
  unfolding make_intents
  parse_intents nom r input = do
    parsed_intents ← map_err (λ e. parse_error (nom.debug e)) (parse_intent_string nom input)
    make_intents r parsed_intents

  -- The gadget that the intent carries, or else the registered one.
  unfoldable pub resolve : GadgetRegistry W → Intent W → Outcome IntentError (Gadget W)
  resolve r intent = elim intent.gadget [
    | some m ↦ ok m
    | none ↦ ok_or (get_gadget r intent.intent_type) (unknown_intent_type intent.intent_type)
  ]

  unfoldable pub verify_intent : GadgetRegistry W → W → Intent W → Bytes → Outcome IntentError Bool
  verify_intent r world intent witness = do
    gadget ← resolve r intent
    gadget.verify_witness world witness intent.statement

  -- The loop over the pairs, which ends at the first that fails. `zip` ends with the shorter list.
  unfoldable pub verify_pairs :
      GadgetRegistry W → W → List (Intent W) → List Bytes → Outcome IntentError Bool
  verify_pairs r world [] witnesses = ok true
  verify_pairs r world (intent ∷ intents) [] = ok true
  verify_pairs r world (intent ∷ intents) (witness ∷ witnesses) = do
    let rest = verify_pairs r world intents witnesses
    valid ← verify_intent r world intent witness
    if valid then rest else err (verification_error intent.intent_type)

  unfoldable pub verify_intents :
      Scale (List Bytes) → GadgetRegistry W → W → List (Intent W) → Bytes → Outcome IntentError Bool
  verify_intents scale r world intents witness = do
    decoded_witnesses ← unwrap (decode_all scale witness)
    if nat_eq (length decoded_witnesses) (length intents)
        then verify_pairs r world intents decoded_witnesses
        else panic
