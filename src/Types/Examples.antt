-- ===== src/Types/Examples.antt =====
-- The state of fangorn/src/types.rs on concrete announcements, over configs and keys that are bytes.
use fangorn_rs.Prelude.{◌≡◌, refl, Option, none, some, List, [], ◌∷◌}
use fangorn_rs.Rust.Outcome.{panic}
use fangorn_rs.Types.{Bytes, config, hint, system_keys, Announcement, Pairing}
use fangorn_rs.Types.State.{empty, update, apply_updates}

abbrev non_empty : Bytes → Option Bytes
non_empty [] = none
non_empty (b ∷ bytes) = some (b ∷ bytes)

abbrev curve : Pairing
curve = record {
  Config = Bytes;
  PublicKey = Bytes;
  SystemPublicKeys = Bytes;
  deserialize_config = non_empty;
  deserialize_key = non_empty;
}

abbrev messages : List Announcement
messages =
    record { tag = config; payload = 9 ∷ [] }
    ∷ record { tag = hint; payload = 1 ∷ [] }
    ∷ record { tag = system_keys; payload = [] }
    ∷ record { tag = hint; payload = 1 ∷ [] }
    ∷ []

-- A hint that does not deserialize.
bad_hint :
    apply_updates curve (record { tag = hint; payload = [] } ∷ messages) (empty curve) ≡ panic
unfolding apply_updates update
bad_hint = refl
