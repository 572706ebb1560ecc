-- ===== src/Service/Bootstrap.antt =====
-- fangorn/src/node/service.rs: the steps of `build_full_service` by which the bootstrap node makes the
-- shared document, and the nodes that then join one after another.
use fangorn_rs.Prelude.{
  ℕ, zero, suc, ◌+◌, ◌^◌, ◌≤◌, ◌≡◌, refl, ◌∙◌, true, none, some, List, [], ◌∷◌, arith, subst,
}
use fangorn_rs.Rust.Outcome.{Outcome, ok, ◌>>=◌, ◌>>◌}
use fangorn_rs.Rust.Decimal.{show_ℕ}
use fangorn_rs.Backend.{AnyError}
use fangorn_rs.Gadget.Codec.{Bytes, Scale, decode_all-encode}
use fangorn_rs.Types.{Announcement, Pairing, config_key}
use fangorn_rs.Types.State.{empty, update, apply_updates}
use fangorn_rs.Service.Documents.{
  Docs, Shared, setup_document_stream, load_and_distribute_config, publish_node_hint,
}
use fangorn_rs.Service.Hints.{hint_of, Published}
use fangorn_rs.Service.SystemKeys.{Reach, keys_to_publish, publish_system_keys}
use fangorn_rs.Service.Understood.{config_of}
use fangorn_rs.Storage.DocStore.{Files}
use fangorn_rs.Service.Join.{
  Arrivals, AreUnderstood, own_hint, join, Ready, join-Ready, config_key-show_ℕ,
}

module _ (D : Type 0) (docs : Docs D) (codec : Scale Announcement) (c : Pairing)
    (new_keys : List c.PublicKey → c.Config → ℕ → Outcome AnyError c.SystemPublicKeys)
    (serialize : c.SystemPublicKeys → Outcome AnyError Bytes) {F : Type 0} (files : Files F) where
  -- From the fresh document, with a generated config, to the first publication of system keys.
  -- No other node has the ticket of the fresh document yet.
  unfoldable pub bootstrap :
      (c.Config → Bytes) → Reach → F → Bytes → D → ℕ → Outcome AnyError (Shared D)
  unfolding setup_document_stream load_and_distribute_config publish_node_hint publish_system_keys
      apply_updates
  bootstrap pk reach f config_bytes fresh index = do
    opened ← setup_document_stream D docs codec true config_bytes fresh none
    configured ← load_and_distribute_config D docs codec opened
    state ← apply_updates c configured.tx (empty c)
    published ←
        publish_node_hint D docs codec (own_hint D docs codec c pk state.config) index configured
    state' ← apply_updates c published.tx (empty c)
    let (done, (f', s)) =
        publish_system_keys D docs codec c new_keys serialize files reach state' f published
    done >> ok s

  -- The nodes with the indices from `i` on join the document, each after the one before it.
  unfoldable pub join_all :
      (ℕ → c.Config → Bytes) → (ℕ → Arrivals) → D → ℕ → ℕ → D → Outcome AnyError D
  unfolding join
  join_all pk arrivals fresh zero i d = ok d
  join_all pk arrivals fresh (suc count) i d = do
    joined ← join D docs codec c (pk i) (arrivals i) fresh (some d) i
    join_all pk arrivals fresh count (suc i) joined.doc

  after_config :
      (bytes : Bytes) (cfg : c.Config)
      → c.deserialize_config bytes ≡ some cfg
      → apply_updates c (config_of bytes ∷ config_of bytes ∷ []) (empty c)
        ≡ ok (record { config = some cfg; hints = none; system_keys = none })
  unfolding apply_updates update
  after_config bytes cfg hc = rw hc refl

  after_hint :
      (bytes own : Bytes) (cfg : c.Config) (key : c.PublicKey)
      → c.deserialize_config bytes ≡ some cfg
      → c.deserialize_key own ≡ some key
      → apply_updates c (config_of bytes ∷ config_of bytes ∷ hint_of own ∷ []) (empty c)
        ≡ ok (record { config = some cfg; hints = some (key ∷ []); system_keys = none })
  unfolding apply_updates update
  after_hint bytes own cfg key hc hk = rw (hc, hk) refl

  -- The bootstrap node with index 1 makes a document that is ready for a node with index 2.
  bootstrap-Ready :
      (pk : ℕ → c.Config → Bytes) (reach : Reach) (f : F) (fresh : D) (bytes : Bytes)
      (cfg : c.Config) (key : c.PublicKey)
      → c.deserialize_config bytes ≡ some cfg
      → c.deserialize_key (pk 1 cfg) ≡ some key
      → (s : Shared D) × (bootstrap (pk 1) reach f bytes fresh 1 ≡ ok s)
        × Ready D docs codec c s.doc bytes (λ j. pk j cfg) 2
        × (apply_updates c s.tx (empty c)
            ≡ ok (record { config = some cfg; hints = some (key ∷ []); system_keys = none }))
  unfolding bootstrap setup_document_stream load_and_distribute_config publish_node_hint
      publish_system_keys keys_to_publish
  bootstrap-Ready pk reach f fresh bytes cfg key hc hk =
      let made = docs.set_bytes fresh config_key (codec.encode (config_of bytes)) in
      let has = docs.get-set_bytes fresh config_key (codec.encode (config_of bytes)) in
      let hint = codec.encode (hint_of (pk 1 cfg)) in
      (
        record {
          doc = docs.set_bytes made (show_ℕ 1) hint;
          tx = config_of bytes ∷ config_of bytes ∷ hint_of (pk 1 cfg) ∷ [];
        },
        rw
            (
              has,
              decode_all-encode codec (config_of bytes),
              after_config bytes cfg hc,
              after_hint bytes (pk 1 cfg) cfg key hc hk,
            )
            refl,
        (
          docs.get-set_bytes_other made (show_ℕ 1) config_key hint
                (config_key-show_ℕ D docs codec c 1)
              ∙ has,
          λ j low high.
              subst (λ i. Published D docs codec (docs.set_bytes made (show_ℕ 1) hint) i (pk i cfg))
                (omega (arith, low, high)) (docs.get-set_bytes made (show_ℕ 1) hint),
        ),
        after_hint bytes (pk 1 cfg) cfg key hc hk,
      )

  join_all-Ready :
      (pk : ℕ → c.Config → Bytes) (arrivals : ℕ → Arrivals) (fresh : D) (bytes : Bytes)
      (cfg : c.Config) (hc : c.deserialize_config bytes ≡ some cfg) (keys : ℕ → c.PublicKey)
      (count i : ℕ) (d : D)
      → i + count ≤ 2 ^ 32
      → ((j : ℕ) → c.deserialize_key (pk j cfg) ≡ some (keys j))
      → ((j : ℕ) → AreUnderstood D docs codec c bytes cfg hc (λ j. pk j cfg) keys (arrivals j))
      → Ready D docs codec c d bytes (λ j. pk j cfg) i
      → (d' : D) × (join_all pk arrivals fresh count i d ≡ ok d')
        × Ready D docs codec c d' bytes (λ j. pk j cfg) (i + count)
  unfolding join_all
  join_all-Ready pk arrivals fresh bytes cfg hc keys zero i d small hk u ready =
      (d, refl, subst (Ready D docs codec c d bytes (λ j. pk j cfg)) (omega arith) ready)
  join_all-Ready pk arrivals fresh bytes cfg hc keys (suc count) i d small hk u ready =
      let (s, joined, next, state) =
        join-Ready D docs codec c bytes cfg hc (λ j. pk j cfg) keys (pk i) (arrivals i) fresh d i
          (omega (arith, small)) ready (u i) (λ j low. hk j) refl in
      let (d', all, last) =
        join_all-Ready pk arrivals fresh bytes cfg hc keys count (suc i) s.doc
          (omega (arith, small)) hk u next in
      (d', rw joined all, subst (Ready D docs codec c d' bytes (λ j. pk j cfg)) (omega arith) last)

  -- A network forms: if the generated config and every key that nodes make of it can be read, the
  -- bootstrap node with index 1 starts, and any number of nodes that then start with the indices from
  -- 2 on, in order, all join, as long as the indices fit in a u32, whatever announcements of the same
  -- network each is sent while it joins. The document then has the config and the hints of all of them.
  pub bootstrap-join_all :
      (pk : ℕ → c.Config → Bytes) (reach : Reach) (f : F) (arrivals : ℕ → Arrivals) (fresh : D)
      (bytes : Bytes) (cfg : c.Config) (hc : c.deserialize_config bytes ≡ some cfg)
      (keys : ℕ → c.PublicKey) (count : ℕ)
      → 2 + count ≤ 2 ^ 32
      → ((j : ℕ) → c.deserialize_key (pk j cfg) ≡ some (keys j))
      → ((j : ℕ) → AreUnderstood D docs codec c bytes cfg hc (λ j. pk j cfg) keys (arrivals j))
      → (d : D) × ((bootstrap (pk 1) reach f bytes fresh 1 >>= λ s.
            join_all pk arrivals fresh count 2 s.doc)
          ≡ ok d)
        × Ready D docs codec c d bytes (λ j. pk j cfg) (2 + count)
  bootstrap-join_all pk reach f arrivals fresh bytes cfg hc keys count small hk u =
      let (s, started, ready, state) =
        bootstrap-Ready pk reach f fresh bytes cfg (keys 1) hc (hk 1) in
      let (d, all, last) =
        join_all-Ready pk arrivals fresh bytes cfg hc keys count 2 s.doc small hk u ready in
      (d, rw started all, last)
