-- ===== src/Service/SystemKeys/Counted.antt =====
-- What the updater of fangorn/src/node/service.rs remembers is what it has published.
use fangorn_rs.Prelude.{ℕ, ◌≤◌, ◌≡◌, Option, none, some, List, length}
use fangorn_rs.Rust.Outcome.{Outcome, ok, err, panic}
use fangorn_rs.Backend.{AnyError}
use fangorn_rs.Gadget.Codec.{Bytes, Scale}
use fangorn_rs.Types.{Announcement, Pairing, system_keys_key}
use fangorn_rs.Types.State.{State}
use fangorn_rs.Storage.DocStore.{Files}
use fangorn_rs.Service.Documents.{Docs, Shared}
use fangorn_rs.Service.SystemKeys.{keys_announcement, keys_of}

module _ (D : Type 0) (docs : Docs D) (codec : Scale Announcement) (c : Pairing)
    (new_keys : List c.PublicKey → c.Config → ℕ → Outcome AnyError c.SystemPublicKeys)
    (serialize : c.SystemPublicKeys → Outcome AnyError Bytes) where
  -- The document has the system keys of `count` hints.
  pub record Published (count : ℕ) (d : D) : Type 0 where
    pub hints : List c.PublicKey
    pub config : c.Config
    pub bytes : Bytes
    pub counted : length hints ≡ count
    pub made : keys_of D docs codec c new_keys serialize hints config ≡ ok bytes
    pub held :
        docs.get d system_keys_key
        ≡ some (codec.encode (keys_announcement D docs codec c new_keys serialize bytes))

  -- A count from two on has been published.
  abbrev pub Counted : ℕ → D → Type 0
  Counted count d = 2 ≤ count → Published count d

  -- What there is to publish for some hints.
  abbrev MadeOf : List c.PublicKey → Option Bytes → Type 0
  MadeOf hints none = length hints ≤ 1
  MadeOf hints (some bytes) =
      (config : c.Config) × (keys_of D docs codec c new_keys serialize hints config ≡ ok bytes)

  module _ {F : Type 0} (files : Files F) where
    abbrev CountedEnd : Outcome AnyError ℕ × (F × Shared D) → Type 0
    CountedEnd (ok count, (f, s)) = Counted count s.doc
    CountedEnd (err e, x) = Unit {0}
    CountedEnd (panic, x) = Unit {0}
