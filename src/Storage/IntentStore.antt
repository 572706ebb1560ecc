-- ===== src/Storage/IntentStore.antt =====
-- fangorn/src/storage/contract_store.rs: the intent store over a predicate registry contract on a
-- chain, which is behind the backend interface. Its gadgets are not stored with the intents.
pub mod Chain
pub mod Examples
use fangorn_rs.Prelude.{ℕ, Option, none, some, List, [], ◌∷◌, ◌++◌, map}
use fangorn_rs.Rust.Outcome.{Outcome, ok, err, ok_or, unwrap, ◌>>=◌}
use fangorn_rs.Rust.Text.{Text, codes}
use fangorn_rs.Utils.{Ss58, decode_contract_addr}
use fangorn_rs.Backend.{Backend, AnyError}
use fangorn_rs.Gadget.Codec.{Bytes, Scale, decode_all}
use fangorn_rs.Gadget.{Intent}
use fangorn_rs.Gadget.Psp22.{remove_status}
use fangorn_rs.Storage.Cid.{Cids}

-- The SCALE codecs of what the store sends and receives. An intent is its type and its statement.
pub record IntentCodecs : Type 0 where
  pub bytes : Scale Bytes
  pub intents : Scale (List (Text × Bytes))
  -- `Option<Entry>`, an entry being the bytes of its cid and of its intents
  pub entry : Scale (Option (Bytes × Bytes))
  -- what a failure to decode is called
  pub failure : Bytes → AnyError

module _ {W : Type 0} where
  abbrev pub encoded : Intent W → Text × Bytes
  encoded i = (i.intent_type, i.statement)

  abbrev pub decoded : Text × Bytes → Intent W
  decoded (intent_type, statement) = record {
    intent_type = intent_type;
    statement = statement;
    gadget = none;
  }

-- `ContractIntentStore`, with its address and the types of the chain's state and of the gadgets' world.
module _ (S W : Type 0) (ss58 : Ss58) (cids : Cids) (codecs : IntentCodecs)
    (backend : Backend S Bytes Text Bytes) (contract_address : Text) where
  abbrev pub written : Outcome AnyError Bytes × S → Outcome AnyError (Unit {0}) × S
  written (result, s) = (result >>= λ hash. ok tt, s)

  unfoldable pub register_intent :
      Bytes → cids.Cid → List (Intent W) → S → Outcome AnyError (Unit {0}) × S
  register_intent filename cid intent s =
      let cid_bytes = cids.to_bytes cid in
      let intent_bytes = codecs.intents.encode (map encoded intent) in
      let input =
        codecs.bytes.encode filename
        ++ codecs.bytes.encode cid_bytes
        ++ codecs.bytes.encode intent_bytes in
      written (
        backend.write (decode_contract_addr ss58 contract_address) (codes "register_predicate")
          input s)

  -- What an entry says: a cid or intents that do not decode are a panic.
  abbrev pub read_entry :
      Option (Bytes × Bytes) → Outcome AnyError (Option (cids.Cid × List (Intent W)))
  read_entry none = ok none
  read_entry (some (cid, intent)) = do
    intents ← unwrap (decode_all codecs.intents intent)
    cid ← unwrap (cids.try_from cid)
    ok (some (cid, map decoded intents))

  unfoldable pub get_intent : Bytes → S → Outcome AnyError (Option (cids.Cid × List (Intent W)))
  get_intent filename s = do
    result ←
        backend.read (decode_contract_addr ss58 contract_address) (codes "read")
          (some (codecs.bytes.encode filename)) s
    data' ← unwrap result
    let input = remove_status data'
    entry ← ok_or (decode_all codecs.entry input) (codecs.failure input)
    read_entry entry

  unfoldable pub remove_intent : Bytes → S → Outcome AnyError (Unit {0}) × S
  remove_intent filename s = written (
      backend.write (decode_contract_addr ss58 contract_address) (codes "remove_predicate")
        (codecs.bytes.encode filename) s)
