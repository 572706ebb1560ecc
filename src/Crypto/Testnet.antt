-- ===== src/Crypto/Testnet.antt =====
-- fangorn/src/crypto/cipher.rs: the store of `iroh_testnet_setup`, documents on an iroh document and
-- intents in the registry contract. It keeps what the store interface promises.
use fangorn_rs.Prelude.{◌≡◌, ap, sym, ◌∙◌, some, List, map, ℕ-Eq, List-Eq}
use fangorn_rs.Rust.Outcome.{Outcome, ok}
use fangorn_rs.Rust.Text.{Text}
use fangorn_rs.Utils.{Ss58, decode_contract_addr}
use fangorn_rs.Backend.{Backend, AnyError}
use fangorn_rs.Contract.Ink.{Mapping}
use fangorn_rs.Contract.PredicateRegistry.{Entry, Filename}
use fangorn_rs.Gadget.Codec.{Bytes, Scale}
use fangorn_rs.Gadget.{Intent}
use fangorn_rs.Types.{Announcement}
use fangorn_rs.Storage.Cid.{Cids}
use fangorn_rs.Storage.DocStore.{add, fetch}
use fangorn_rs.Storage.DocStore.Contents.{ReadsBack, fetch-add}
use fangorn_rs.Storage.IntentStore.{IntentCodecs, register_intent, get_intent}
use fangorn_rs.Storage.IntentStore.Chain.{RunsRegistry, without_gadget, get_intent-register_intent}
use fangorn_rs.Crypto.AppStore.{AppStore}

-- The state is the iroh replica `R` and the chain `S`.
module _ (R D S W : Type 0) (ss58 : Ss58) (cids : Cids) (announcements : Scale Announcement)
    (failure : Bytes → AnyError) (iroh : Backend R D Text Bytes) (document : D)
    (codecs : IntentCodecs) (chain : Backend S Bytes Text Bytes) (contract_address : Text) where
  abbrev pub add_document : Bytes → R × S → Outcome AnyError cids.Cid × (R × S)
  add_document b (r, s) =
      let out = add R D cids announcements failure iroh document b r in (out.0, (out.1, s))

  abbrev pub register :
      Bytes → cids.Cid → List (Intent W) → R × S → Outcome AnyError (Unit {0}) × (R × S)
  register f c is (r, s) =
      let out = register_intent S W ss58 cids codecs chain contract_address f c is s in
      (out.0, (r, out.1))

  module _ (reads : ReadsBack iroh document) (entries : Mapping Filename Entry)
      (runs : RunsRegistry S codecs entries chain
        (decode_contract_addr ss58 contract_address)) where
    pub get-register :
        (f : Bytes) (c : cids.Cid) (is : List (Intent W)) (s s' : R × S)
        → register f c is s ≡ (ok tt, s')
        → get_intent S W ss58 cids codecs chain contract_address f s'.1
          ≡ ok (some (c, map without_gadget is))
    get-register f c is s s' h =
        ap (λ p. get_intent S W ss58 cids codecs chain contract_address f p.1.1) (sym h)
        ∙ get_intent-register_intent S W ss58 cids codecs chain contract_address entries runs f c is
            s.1 (ap (λ p. p.0) h)

    pub fetch-added :
        (b : Bytes) (c : cids.Cid) (s s' : R × S)
        → add_document b s ≡ (ok c, s')
        → fetch R D cids announcements failure iroh document c s'.0 ≡ ok (some b)
    fetch-added b c s s' h =
        (fetch-add R D cids announcements failure iroh document b c s.0 s'.0 reads
          (λ i. ((h i).0, (h i).1.0))).1

    -- `AppStore::new(IrohDocStore, ContractIntentStore, ..)`
    abbrev pub testnet_app_store : AppStore W
    testnet_app_store = record {
      State = R × S;
      Cid = cids.Cid;
      add = add_document;
      fetch = λ c s. fetch R D cids announcements failure iroh document c s.0;
      register_intent = register;
      get_intent = λ f s. get_intent S W ss58 cids codecs chain contract_address f s.1;
      fetch-add_law = fetch-added;
      fetch-register_law = λ f c d is s s' h.
          ap (λ p. fetch R D cids announcements failure iroh document d p.1.0) (sym h);
      get-register_law = get-register;
    }
