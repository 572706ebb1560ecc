-- ===== src/Storage/IntentStore/Examples.antt =====
-- The intent store of fangorn/src/storage/contract_store.rs on concrete inputs. The chain is the state
-- of one registry contract, and a cid is its bytes.
use fangorn_rs.Prelude.{
  ℕ, ◌≡◌, refl, Option, none, some, [], ◌∷◌, ◌++◌, append_assoc, map, ◌==◌, if◌then◌else◌, inl, inr,
  ℕ-Eq, List-Eq,
}
use fangorn_rs.Fixtures.{bytes_scale, list_scale, pair_scale, option_scale, ss58}
use fangorn_rs.Rust.Outcome.{Outcome, ok, err}
use fangorn_rs.Rust.Text.{Text, codes}
use fangorn_rs.Utils.{decode_contract_addr}
use fangorn_rs.Backend.{Backend, AnyError}
use fangorn_rs.Contract.Ink
use fangorn_rs.Contract.Ink.{function_mapping}
use fangorn_rs.Contract.Transaction.{Settles}
use fangorn_rs.Contract.PredicateRegistry
use fangorn_rs.Contract.PredicateRegistry.{Entry, PredicateRegistry}
use fangorn_rs.Gadget.Codec.{Bytes, Scale, decode_all, decode-encode_end, decode_all-encode}
use fangorn_rs.Gadget.{Intent}
use fangorn_rs.Storage.Cid.{Cids}
use fangorn_rs.Storage.IntentStore.{IntentCodecs, register_intent, get_intent}
use fangorn_rs.Storage.IntentStore.Chain.{
  entry_parts, RunsRegistry, without_gadget, get_intent-register_intent,
}

abbrev cids : Cids
cids = record {
  Cid = Bytes;
  sha2_256 = λ b. b;
  new_v1 = λ codec hash. codec ∷ hash;
  to_bytes = λ c. c;
  try_from = λ b. some b;
  to_string = λ c. c;
  try_from-to_bytes = λ c. refl;
  to_string-injective = λ c d e. e;
}

abbrev codecs : IntentCodecs
codecs = record {
  bytes = bytes_scale;
  intents = list_scale (pair_scale bytes_scale bytes_scale);
  entry = option_scale (pair_scale bytes_scale bytes_scale);
  failure = λ b. b;
}

abbrev Registry : Type 0
Registry = PredicateRegistry (function_mapping {K = Bytes} {V = Entry})

abbrev settle :
    {E A : Type 0} → Registry → Ink.Result E A × Registry → Outcome AnyError Bytes × Registry
settle before (Ink.ok a, after) = (ok [], after)
settle before (Ink.err e, after) = (err [], before)

settle-Settles :
    {E A : Type 0} (before : Registry) (out : Ink.Result E A × Registry)
    → Settles before out (settle before out)
settle-Settles before (Ink.ok a, after) = inl ([], refl, a, refl)
settle-Settles before (Ink.err e, after) = inr ([], refl, refl)

-- Three byte strings, one after the other.
abbrev three : Scale Bytes → Bytes → Option (Bytes × Bytes × Bytes)
three scale b = elim (scale.decode b) [
  | none ↦ none
  | some (f, r) ↦ elim (scale.decode r) [
    | none ↦ none
    | some (c, r') ↦ elim (scale.decode r') [ none ↦ none | some (i, r'') ↦ some (f, c, i) ]
  ]
]

three-encode :
    (scale : Scale Bytes) (f c i : Bytes)
    → three scale (scale.encode f ++ scale.encode c ++ scale.encode i) ≡ some (f, c, i)
three-encode scale f c i =
    rw
      (
        append_assoc (scale.encode f) (scale.encode c) (scale.encode i),
        three,
        scale.decode-encode f (scale.encode c ++ scale.encode i),
        scale.decode-encode c (scale.encode i),
        decode-encode_end scale i,
      )
      refl

module _ (scale : Scale Bytes) (entry : Scale (Option (Bytes × Bytes))) where
  abbrev register : Option (Bytes × Bytes × Bytes) → Registry → Outcome AnyError Bytes × Registry
  register none r = (err [], r)
  register (some (f, c, i)) r =
      settle r (PredicateRegistry.register_predicate function_mapping f c i r)

  abbrev remove : Option Bytes → Registry → Outcome AnyError Bytes × Registry
  remove none r = (err [], r)
  remove (some f) r = settle r (PredicateRegistry.remove_predicate function_mapping f r)

  abbrev write : Text → Bytes → Registry → Outcome AnyError Bytes × Registry
  write method input r =
      if method == codes "register_predicate"
      then register (three scale input) r
      else if method == codes "remove_predicate"
      then remove (decode_all scale input) r
      else (err [], r)

  abbrev answer : Option Bytes → Registry → Outcome AnyError (Option Bytes)
  answer none r = err []
  answer (some f) r =
      ok (some (0 ∷ entry.encode (entry_parts (PredicateRegistry.read function_mapping f r))))

  abbrev read : Option Bytes → Registry → Outcome AnyError (Option Bytes)
  read none r = err []
  read (some input) r = answer (decode_all scale input) r

  abbrev chain : Backend Registry Bytes Text Bytes
  chain = record {
    read = λ account method input r. read input r;
    write = λ account method input r. write method input r;
  }

  write-register_lem :
      (f c i : Bytes) (r : Registry)
      → Settles r (PredicateRegistry.register_predicate function_mapping f c i r) (
          write (codes "register_predicate") (scale.encode f ++ scale.encode c ++ scale.encode i) r)
  write-register_lem f c i r =
      rw (three-encode scale f c i)
        (settle-Settles r (PredicateRegistry.register_predicate function_mapping f c i r))

  write-remove_lem :
      (f : Bytes) (r : Registry)
      → Settles r
          (PredicateRegistry.remove_predicate function_mapping f r)
          (write (codes "remove_predicate") (scale.encode f) r)
  write-remove_lem f r =
      rw (decode_all-encode scale f)
        (settle-Settles r (PredicateRegistry.remove_predicate function_mapping f r))

  read-read_lem :
      (f : Bytes) (r : Registry)
      → read (some (scale.encode f)) r
        ≡ ok (some (0 ∷ entry.encode (entry_parts (PredicateRegistry.read function_mapping f r))))
  read-read_lem f r = rw (decode_all-encode scale f) refl

abbrev backend : Backend Registry Bytes Text Bytes
backend = chain codecs.bytes codecs.entry

runs : RunsRegistry Registry codecs function_mapping backend (decode_contract_addr ss58 [])
runs = record {
  registry = λ r. r;
  write-register = write-register_lem codecs.bytes codecs.entry;
  write-remove = write-remove_lem codecs.bytes codecs.entry;
  read-read = read-read_lem codecs.bytes codecs.entry;
}

abbrev secret : Intent ℕ
secret = record { intent_type = codes "Password"; statement = codes "abc"; gadget = none }

abbrev empty : Registry
empty = PredicateRegistry.new function_mapping

-- The chain after the intent of a file has been registered.
abbrev registered : Registry
registered =
    (register_intent Registry ℕ ss58 cids codecs backend [] (codes "f") (codes "c") (secret ∷ [])
      empty).1

get_intent-register_intent_example :
    get_intent Registry ℕ ss58 cids codecs backend [] (codes "f") registered
    ≡ ok (some (codes "c", map without_gadget (secret ∷ [])))
unfolding register_intent PredicateRegistry.register_predicate PredicateRegistry.new
get_intent-register_intent_example =
    get_intent-register_intent Registry ℕ ss58 cids codecs backend [] function_mapping runs
      (codes "f") (codes "c") (secret ∷ []) empty refl
