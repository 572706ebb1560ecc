-- ===== src/Service/SystemKeys.antt =====
-- fangorn/src/node/service.rs: how the bootstrap node publishes system keys, and the task that does so
-- again when a hint arrives. The threshold encryption and the file system are parameters.
pub mod Counted
use fangorn_rs.Prelude.{
  ℕ, Bool, true, false, Option, none, some, List, [], ◌∷◌, ◌++◌, length, leb, ltb, if◌then◌else◌,
  unwrap_or,
}
use fangorn_rs.Rust.Outcome.{Outcome, ok, err, panic, ok_or, ◌>>=◌}
use fangorn_rs.Rust.Text.{Text, codes}
use fangorn_rs.Backend.{AnyError}
use fangorn_rs.Gadget.Codec.{Bytes, Scale}
use fangorn_rs.Types.{Announcement, Pairing, system_keys, system_keys_key}
use fangorn_rs.Types.State.{State}
use fangorn_rs.Storage.DocStore.{Files}
use fangorn_rs.Service.Documents.{Docs, Shared, send}

abbrev pub keys_dir : Text
keys_dir = codes "tmp/sys"

abbrev pub keys_path : Text
keys_path = codes "tmp/sys/key"

-- `receives`: the node's own task still takes announcements. `wrote` is what `author_default` and
-- `set_bytes` give.
pub record Reach : Type 0 where
  pub receives : Bool
  pub wrote : Outcome AnyError (Unit {0})

module _ (D : Type 0) (docs : Docs D) (codec : Scale Announcement) (c : Pairing)
    -- `SystemPublicKeys::new(hints, crs, lag_polys, k)`, and its serialization
    (new_keys : List c.PublicKey → c.Config → ℕ → Outcome AnyError c.SystemPublicKeys)
    (serialize : c.SystemPublicKeys → Outcome AnyError Bytes) where
  abbrev pub keys_announcement : Bytes → Announcement
  keys_announcement bytes = record { tag = system_keys; payload = bytes }

  -- The bytes of the system keys of hints.
  abbrev pub keys_of : List c.PublicKey → c.Config → Outcome AnyError Bytes
  keys_of hints config = do keys ← new_keys hints config 1; serialize keys

  -- With fewer than two hints there is nothing to publish.
  unfoldable pub keys_to_publish : State c → Outcome AnyError (Option Bytes)
  keys_to_publish state = do
    config ← ok_or state.config (codes "Config not available")
    hints ← ok_or state.hints (codes "Hints not available")
    if leb (length hints) 1 then ok none else (do bytes ← keys_of hints config; ok (some bytes))

  -- The document with the announcement over an earlier one.
  abbrev pub put_keys : Bytes → Shared D → Shared D
  put_keys bytes s = record (send D docs codec (keys_announcement bytes) s) {
    doc = docs.set_bytes s.doc system_keys_key (codec.encode (keys_announcement bytes));
  }

  module _ {F : Type 0} (files : Files F) where
    -- The announcement goes to the node itself, and then into the document.
    abbrev pub announce :
        Reach → Bytes → F → Shared D → Outcome AnyError (Unit {0}) × (F × Shared D)
    announce reach bytes f s = elim reach.receives [
      | false ↦ (err (codes "sending on a closed channel"), (f, s))
      | true ↦ elim reach.wrote [
        | ok done ↦ (ok tt, (f, put_keys bytes s))
        | err e ↦ (err e, (f, send D docs codec (keys_announcement bytes) s))
        | panic ↦ (panic, (f, send D docs codec (keys_announcement bytes) s))
      ]
    ]

    -- The local file comes first: its directory, and its content.
    abbrev pub written_file :
        Reach → Bytes → F → Shared D → Option F → Outcome AnyError (Unit {0}) × (F × Shared D)
    written_file reach bytes g s none = (panic, (g, s))
    written_file reach bytes g s (some g') = announce reach bytes g' s

    abbrev pub made_dir :
        Reach → Bytes → F → Shared D → Option F → Outcome AnyError (Unit {0}) × (F × Shared D)
    made_dir reach bytes f s none = (panic, (f, s))
    made_dir reach bytes f s (some g) =
        written_file reach bytes g s (files.write_file g keys_path bytes)

    abbrev pub publish :
        Reach
        → F
        → Shared D
        → Outcome AnyError (Option Bytes)
        → Outcome AnyError (Unit {0}) × (F × Shared D)
    publish reach f s (ok none) = (ok tt, (f, s))
    publish reach f s (ok (some bytes)) = made_dir reach bytes f s (files.create_dir f keys_dir)
    publish reach f s (err e) = (err e, (f, s))
    publish reach f s panic = (panic, (f, s))

    unfoldable pub publish_system_keys :
        Reach → State c → F → Shared D → Outcome AnyError (Unit {0}) × (F × Shared D)
    unfolding keys_to_publish
    publish_system_keys reach state f s = publish reach f s (keys_to_publish state)

    abbrev pub hint_count : State c → ℕ
    hint_count state = length (unwrap_or state.hints [])

    -- What a round of the updater leaves: the count that it remembers, the files and the document. An
    -- error is printed, and a panic ends the task.
    abbrev pub settle_round :
        ℕ → ℕ → Outcome AnyError (Unit {0}) × (F × Shared D) → Outcome AnyError ℕ × (F × Shared D)
    settle_round last current (ok done, x) = (ok current, x)
    settle_round last current (err e, x) = (ok last, x)
    settle_round last current (panic, x) = (panic, x)

    -- A round of the loop of `spawn_system_keys_updater`.
    unfoldable pub update_round :
        Reach → State c → ℕ → F → Shared D → Outcome AnyError ℕ × (F × Shared D)
    unfolding publish_system_keys
    update_round reach state last_hint_count f s =
        let current_hint_count = hint_count state in
        if ltb last_hint_count current_hint_count
        then settle_round last_hint_count current_hint_count (publish_system_keys reach state f s)
        else (ok last_hint_count, (f, s))

    abbrev pub next_round :
        Outcome AnyError ℕ × (F × Shared D)
        → (ℕ → F → Shared D → Outcome AnyError ℕ × (F × Shared D))
        → Outcome AnyError ℕ × (F × Shared D)
    next_round (ok last, (f, s)) next = next last f s
    next_round (err e, x) next = (err e, x)
    next_round (panic, x) next = (panic, x)

    -- The loop over the states that its rounds find.
    unfoldable pub update_rounds :
        List (Reach × State c) → ℕ → F → Shared D → Outcome AnyError ℕ × (F × Shared D)
    unfolding update_round
    update_rounds [] last f s = (ok last, (f, s))
    update_rounds ((reach, state) ∷ rounds) last f s =
        next_round (update_round reach state last f s) (update_rounds rounds)
