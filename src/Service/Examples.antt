-- ===== src/Service/Examples.antt =====
-- The exchange of hints and of system keys, and the events of other nodes, in
-- fangorn/src/node/service.rs on concrete documents, which are functions from keys to contents.
use fangorn_rs.Prelude.{
  ℕ, zero, suc, ◌<◌, ◌≤◌, ◌≡◌, refl, true, none, some, unwrap_or, List, [], ◌∷◌, ℕ-Eq, List-Eq,
  arith,
}
use fangorn_rs.Fixtures.{bytes_scale, announcement_scale}
use fangorn_rs.Fixtures.Vaults.{Entries, put, put-own, put-other, no_entries}
use fangorn_rs.Fixtures.Stores.{apart_lem, files}
use fangorn_rs.Rust.Outcome.{Outcome, ok, err, panic, ◌>>=◌}
use fangorn_rs.Rust.Text.{codes}
use fangorn_rs.Rust.Decimal.{show_ℕ}
use fangorn_rs.Backend.{AnyError}
use fangorn_rs.Gadget.Codec.{Bytes, Scale}
use fangorn_rs.Types.{Announcement, Pairing, config_key, config, doc}
use fangorn_rs.Types.State.{State, empty, update, apply_updates}
use fangorn_rs.Service.Join.{Arrivals, AreUnderstood, Ready, join, join-Ready}
use fangorn_rs.Service.Understood.{config_of}
use fangorn_rs.Service.Bootstrap.{bootstrap, join_all, bootstrap-join_all}
use fangorn_rs.Service.Sync.{
  LiveEvent, insert_remote, other_event, run_state_sync, run_state_sync_lem,
}
use fangorn_rs.Service.Documents.{Docs, Shared, load_previous_hints}
use fangorn_rs.Service.Hints.{hint_of, load_previous_hints-gap}
use fangorn_rs.Service.SystemKeys.{Reach, update_rounds}
use fangorn_rs.Service.SystemKeys.Counted

abbrev docs : Docs Entries
docs = record {
  get = λ d key. d key;
  set_bytes = put;
  get-set_bytes = put-own;
  get-set_bytes_other = λ d key other b apart. put-other d key other b (apart_lem other key apart);
}

abbrev codec : Scale Announcement
codec = announcement_scale bytes_scale

-- The hint of a node is its index.
abbrev pks : ℕ → Bytes
pks i = i ∷ []

-- The document in which node 1 has published, and then node 2 too.
abbrev with_one : Entries
with_one = put no_entries (codes "1") (codec.encode (hint_of (pks 1)))

abbrev with_two : Entries
with_two = put with_one (codes "2") (codec.encode (hint_of (pks 2)))

-- Nodes 0 and 2 without a node 1.
load_previous_hints-gap_example :
    load_previous_hints Entries docs codec 2 (record { doc = no_entries; tx = [] }) ≡ panic
load_previous_hints-gap_example =
    load_previous_hints-gap Entries docs codec pks 2 1 (record { doc = no_entries; tx = [] })
      (omega arith) (omega arith) (omega arith) (λ j low high. absurd (omega (arith, low, high)))
      refl

abbrev curve : Pairing
curve = record {
  Config = ℕ;
  PublicKey = ℕ;
  SystemPublicKeys = List ℕ;
  deserialize_config = λ b. none;
  deserialize_key = λ b. none;
}

abbrev state : State curve
state = record { config = some 7; hints = some (1 ∷ 2 ∷ []); system_keys = none }

abbrev before : Shared Entries
before = record { doc = no_entries; tx = [] }

abbrev make : List ℕ → ℕ → ℕ → Outcome AnyError (List ℕ)
make hints cfg k = ok hints

abbrev write : List ℕ → Outcome AnyError Bytes
write keys = ok keys

abbrev works : Reach
works = record { receives = true; wrote = ok tt }

-- The first round fails to write the document, and the second one writes it.
abbrev rounds : List (Reach × State curve)
rounds = (record { receives = true; wrote = err [] }, state) ∷ (works, state) ∷ []

abbrev after : Outcome AnyError ℕ × (Entries × Shared Entries)
after = update_rounds Entries docs codec curve make write files rounds 0 no_entries before

-- Configs and keys that are their bytes.
abbrev byte_curve : Pairing
byte_curve = record {
  Config = Bytes;
  PublicKey = Bytes;
  SystemPublicKeys = Bytes;
  deserialize_config = some;
  deserialize_key = some;
}

-- The document that node 3 joins.
abbrev ready : Entries
ready = put with_two config_key (codec.encode (config_of (9 ∷ [])))

published :
    (j : ℕ) → 1 ≤ j → j < 3 → docs.get ready (show_ℕ j) ≡ some (codec.encode (hint_of (pks j)))
unfolding show_ℕ
published zero low high = absurd (omega (arith, low))
published (suc zero) low high = refl
published (suc (suc zero)) low high = refl
published (suc (suc (suc n))) low high = absurd (omega (arith, high))

-- The hint of node 2 arrives a second time, and a document.
abbrev some_arrive : Arrivals
some_arrive = record {
  before_config = hint_of (2 ∷ []) ∷ [];
  before_hints = [];
  before_own = record { tag = doc; payload = [] } ∷ [];
}

some_arrive-AreUnderstood :
    AreUnderstood Entries docs codec byte_curve (9 ∷ []) (9 ∷ []) refl pks pks some_arrive
some_arrive-AreUnderstood = record { first = ((2 ∷ [], refl), tt); second = tt; third = (tt, tt) }

join-Ready_example :
    (s' : Shared Entries) × (join Entries docs codec byte_curve
        (λ cfg. 3 ∷ [])
        some_arrive
        no_entries
        (some ready)
        3
      ≡ ok s')
    × Ready Entries docs codec byte_curve s'.doc (9 ∷ []) pks 4
    × ((st : State byte_curve) × (apply_updates byte_curve s'.tx (empty byte_curve) ≡ ok st)
        × (st.config ≡ some (9 ∷ []))
        × (unwrap_or st.hints [] ≡ (2 ∷ []) ∷ (1 ∷ []) ∷ (2 ∷ []) ∷ (3 ∷ []) ∷ []))
join-Ready_example =
    join-Ready Entries docs codec byte_curve (9 ∷ []) (9 ∷ []) refl pks pks (λ cfg. 3 ∷ [])
      some_arrive no_entries ready 3 (omega arith) (refl, published) some_arrive-AreUnderstood
      (λ j small. refl) refl

-- A document and a hint that arrive late, one content that never does, and a config.
abbrev events : List LiveEvent
events =
    insert_remote none (none ∷ some (codec.encode (record { tag = doc; payload = [] })) ∷ [])
    ∷ insert_remote none (none ∷ none ∷ some (codec.encode (hint_of (pks 1))) ∷ [])
    ∷ other_event
    ∷ insert_remote none (none ∷ none ∷ none ∷ some (codec.encode (hint_of (pks 2))) ∷ [])
    ∷ insert_remote (some (codec.encode (record { tag = config; payload = 9 ∷ [] }))) []
    ∷ []

run_state_sync_lem_example :
    (run_state_sync codec events >>= λ as'. apply_updates byte_curve as' (empty byte_curve))
    ≡ ok (record { config = some (9 ∷ []); hints = some ((1 ∷ []) ∷ []); system_keys = none })
unfolding apply_updates update
run_state_sync_lem_example = run_state_sync_lem codec byte_curve events (empty byte_curve)

-- Node 1 starts, and nodes 2, 3 and 4 join.
bootstrap-join_all_example :
    (d : Entries) × ((bootstrap Entries docs codec byte_curve
          (λ hints config k. ok [])
          (λ keys. ok keys)
          files
          (λ cfg. pks 1)
          works
          no_entries
          (9 ∷ [])
          no_entries
          1
        >>= λ s.
            join_all Entries docs codec byte_curve
              (λ hints config k. ok [])
              (λ keys. ok keys)
              files
              (λ j cfg. pks j)
              (λ j. some_arrive)
              no_entries
              3
              2
              s.doc)
      ≡ ok d)
    × Ready Entries docs codec byte_curve d (9 ∷ []) pks 5
bootstrap-join_all_example =
    bootstrap-join_all Entries docs codec byte_curve (λ hints config k. ok []) (λ keys. ok keys)
      files (λ j cfg. pks j) works no_entries (λ j. some_arrive) no_entries (9 ∷ []) (9 ∷ []) refl
      pks 3 (omega arith) (λ j. refl) (λ j. some_arrive-AreUnderstood)
