-- ===== src/Storage/IntentStore/Chain.antt =====
-- The intent store of fangorn/src/storage/contract_store.rs over a chain that runs the contract of
-- contract/predicate-registry/lib.rs: what one side writes is what the other reads.
use fangorn_rs.Prelude.{
  ◌≡◌, refl, ap, sym, ◌∙◌, Option, none, some, List, [], ◌∷◌, ◌++◌, map, ==-refl, true, Bool-cases,
  Option-cases, inl, inr, is_some, ℕ-Eq, List-Eq, arith,
}
use fangorn_rs.Rust.Outcome.{ok, err}
use fangorn_rs.Rust.Text.{Text, codes}
use fangorn_rs.Utils.{Ss58, decode_contract_addr}
use fangorn_rs.Backend.{Backend, AnyError}
use fangorn_rs.Contract.Ink
use fangorn_rs.Contract.Ink.{Mapping}
use fangorn_rs.Contract.Transaction.{Settles, Settles-done, Settles-refused}
use fangorn_rs.Contract.PredicateRegistry
use fangorn_rs.Contract.PredicateRegistry.{Entry, Filename, PredicateRegistry}
use fangorn_rs.Gadget.Codec.{Bytes, decode_all-encode}
use fangorn_rs.Gadget.{Intent}
use fangorn_rs.Storage.Cid.{Cids}
use fangorn_rs.Storage.IntentStore.{
  IntentCodecs, encoded, decoded, read_entry, register_intent, get_intent, remove_intent,
}

abbrev pub entry_parts : Option Entry → Option (Bytes × Bytes)
entry_parts none = none
entry_parts (some e) = some (e.cid, e.predicate)

-- What the store relies on of the chain and of ink!: calls at the address run the messages of the
-- registry, on the state `registry s`, and a reply comes behind a status byte.
pub record RunsRegistry (S : Type 0) (codecs : IntentCodecs) (entries : Mapping Filename Entry)
    (backend : Backend S Bytes Text Bytes) (address : Bytes) : Type 0 where
  pub registry : S → PredicateRegistry entries
  pub write-register :
      (f c i : Bytes) (s : S)
      → let sent =
          backend.write address
            (codes "register_predicate")
            (codecs.bytes.encode f ++ codecs.bytes.encode c ++ codecs.bytes.encode i)
            s in
        Settles
          (registry s)
          (PredicateRegistry.register_predicate entries f c i (registry s))
          (sent.0, registry sent.1)
  pub write-remove :
      (f : Bytes) (s : S)
      → let sent = backend.write address (codes "remove_predicate") (codecs.bytes.encode f) s in
        Settles
          (registry s)
          (PredicateRegistry.remove_predicate entries f (registry s))
          (sent.0, registry sent.1)
  pub read-read :
      (f : Bytes) (s : S)
      → backend.read address (codes "read") (some (codecs.bytes.encode f)) s
        ≡ ok (
            some (
              0
              ∷ codecs.entry.encode (entry_parts (PredicateRegistry.read entries f (registry s)))))

-- An intent as it comes back from the chain.
abbrev pub without_gadget : {W : Type 0} → Intent W → Intent W
without_gadget i = record i { gadget = none }

map-decoded :
    {W : Type 0} (is : List (Intent W))
    → map (decoded {W = W}) (map encoded is) ≡ map without_gadget is
map-decoded [] = refl
map-decoded (i ∷ is) = ground (arith, map-decoded is)

module _ (S W : Type 0) (ss58 : Ss58) (cids : Cids) (codecs : IntentCodecs)
    (backend : Backend S Bytes Text Bytes) (contract_address : Text)
    (entries : Mapping Filename Entry)
    (chain : RunsRegistry S codecs entries backend
      (decode_contract_addr ss58 contract_address)) where
  open chain use {registry, write-register, write-remove, read-read}

  get_intent_lem :
      (f : Bytes) (s : S) (e : Option Entry)
      → PredicateRegistry.read entries f (registry s) ≡ e
      → get_intent S W ss58 cids codecs backend contract_address f s
        ≡ read_entry S W ss58 cids codecs backend contract_address (entry_parts e)
  unfolding get_intent
  get_intent_lem f s e h =
      rw (read-read f s, h, decode_all-encode codecs.entry (entry_parts e)) refl

  read-register :
      (f c i : Bytes) (r r' : PredicateRegistry entries)
      → PredicateRegistry.register_predicate entries f c i r ≡ (Ink.ok tt, r')
      → PredicateRegistry.read entries f r' ≡ some (record { cid = c; predicate = i })
  unfolding PredicateRegistry.register_predicate PredicateRegistry.read
  read-register f c i r r' h = elim (Bool-cases (entries.contains r.predicate_registry f)) [
    | inl old ↦ absurd (cc (rw (PredicateRegistry.register_predicate, old) at h))
    | inr fresh ↦
        let made = rw (PredicateRegistry.register_predicate, fresh) at h in
        ap (λ p. entries.get p.1.predicate_registry f) (sym made)
        ∙ entries.get-insert r.predicate_registry f _ f
        ∙ rw (==-refl f) refl
  ]

  read-remove :
      (f : Bytes) (e : Entry) (r r' : PredicateRegistry entries)
      → PredicateRegistry.remove_predicate entries f r ≡ (Ink.ok e, r')
      → PredicateRegistry.read entries f r' ≡ none
  unfolding PredicateRegistry.remove_predicate PredicateRegistry.read
  read-remove f e r r' h = elim (Option-cases (entries.take r.predicate_registry f).0) [
    | inl gone ↦ absurd (cc (rw (PredicateRegistry.remove_predicate, gone) at h))
    | inr (e', was) ↦
        let made = rw (PredicateRegistry.remove_predicate, was) at h in
        ap (λ p. entries.get p.1.predicate_registry f) (sym made)
        ∙ entries.get-take r.predicate_registry f f
        ∙ rw (==-refl f) refl
  ]

  -- What was registered under a filename is what is then found there: the same cid, and the same
  -- intents without their gadgets.
  pub get_intent-register_intent :
      (f : Bytes) (cid : cids.Cid) (is : List (Intent W)) (s : S)
      → let sent = register_intent S W ss58 cids codecs backend contract_address f cid is s in
        sent.0 ≡ ok tt
        → get_intent S W ss58 cids codecs backend contract_address f sent.1
          ≡ ok (some (cid, map without_gadget is))
  unfolding register_intent
  get_intent-register_intent f cid is s done =
      let i = codecs.intents.encode (map encoded is) in
      let c = cids.to_bytes cid in
      let sent =
        backend.write (decode_contract_addr ss58 contract_address) (codes "register_predicate")
          (codecs.bytes.encode f ++ codecs.bytes.encode c ++ codecs.bytes.encode i) s in
      let (_, ran) =
        Settles-done (registry s) (registry sent.1) _ sent.0 (write-register f c i s) done in
      get_intent_lem f sent.1 _ (read-register f c i (registry s) (registry sent.1) ran)
      ∙ rw
          (
            decode_all-encode codecs.intents (map encoded is),
            cids.try_from-to_bytes cid,
            map-decoded is,
          )
          refl

  -- What was removed is not found any more.
  pub get_intent-remove_intent :
      (f : Bytes) (s : S)
      → let sent = remove_intent S W ss58 cids codecs backend contract_address f s in
        sent.0 ≡ ok tt → get_intent S W ss58 cids codecs backend contract_address f sent.1 ≡ ok none
  unfolding remove_intent
  get_intent-remove_intent f s done =
      let sent =
        backend.write (decode_contract_addr ss58 contract_address) (codes "remove_predicate")
          (codecs.bytes.encode f) s in
      let (e, ran) = Settles-done (registry s) (registry sent.1) _ sent.0 (write-remove f s) done in
      get_intent_lem f sent.1 _ (read-remove f e (registry s) (registry sent.1) ran)

  -- A filename that is taken keeps its entry: registering under it fails, and what is found there is
  -- what was found before.
  pub register_intent-taken :
      (f : Bytes) (cid : cids.Cid) (is : List (Intent W)) (s : S) (e : Entry)
      → PredicateRegistry.read entries f (registry s) ≡ some e
      → let sent = register_intent S W ss58 cids codecs backend contract_address f cid is s in
        ((text : AnyError) × (sent.0 ≡ err text))
        × (get_intent S W ss58 cids codecs backend contract_address f sent.1
            ≡ get_intent S W ss58 cids codecs backend contract_address f s)
  unfolding register_intent PredicateRegistry.register_predicate PredicateRegistry.read
  register_intent-taken f cid is s e taken =
      let i = codecs.intents.encode (map encoded is) in
      let c = cids.to_bytes cid in
      let sent =
        backend.write (decode_contract_addr ss58 contract_address) (codes "register_predicate")
          (codecs.bytes.encode f ++ codecs.bytes.encode c ++ codecs.bytes.encode i) s in
      let held : entries.contains (registry s).predicate_registry f ≡ true =
        entries.contains-get (registry s).predicate_registry f ∙ ap is_some taken in
      let (fails, kept) =
        Settles-refused (registry s) (registry sent.1) (registry s) _ sent.0
          (rw (PredicateRegistry.register_predicate, held) at (write-register f c i s)) in
      (
        fails,
        get_intent_lem f sent.1 (PredicateRegistry.read entries f (registry s))
              (ap (PredicateRegistry.read entries f) kept)
            ∙ sym (get_intent_lem f s _ refl),
      )
