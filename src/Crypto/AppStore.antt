-- ===== src/Crypto/AppStore.antt =====
-- fangorn/src/storage/mod.rs: the stores that an application works with, and what they promise. The
-- document store and the intent store are two parts of one state.
use fangorn_rs.Prelude.{◌≡◌, Option, some, List, map}
use fangorn_rs.Rust.Outcome.{Outcome, ok}
use fangorn_rs.Backend.{AnyError}
use fangorn_rs.Gadget.Codec.{Bytes}
use fangorn_rs.Gadget.{Intent}
use fangorn_rs.Storage.IntentStore.Chain.{without_gadget}

pub record AppStore (W : Type 0) : Type 1 where
  pub State : Type 0
  pub Cid : Type 0
  -- `DocStore`
  pub add : Bytes → State → Outcome AnyError Cid × State
  pub fetch : Cid → State → Outcome AnyError (Option Bytes)
  -- `IntentStore`
  pub register_intent : Bytes → Cid → List (Intent W) → State → Outcome AnyError (Unit {0}) × State
  pub get_intent : Bytes → State → Outcome AnyError (Option (Cid × List (Intent W)))
  pub fetch-add_law :
      (b : Bytes) (c : Cid) (s s' : State) → add b s ≡ (ok c, s') → fetch c s' ≡ ok (some b)
  pub fetch-register_law :
      (f : Bytes) (c d : Cid) (is : List (Intent W)) (s s' : State)
      → register_intent f c is s ≡ (ok tt, s')
      → fetch d s' ≡ fetch d s
  pub get-register_law :
      (f : Bytes) (c : Cid) (is : List (Intent W)) (s s' : State)
      → register_intent f c is s ≡ (ok tt, s')
      → get_intent f s' ≡ ok (some (c, map without_gadget is))
