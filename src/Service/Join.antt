-- ===== src/Service/Join.antt =====
-- fangorn/src/node/service.rs: the steps of `build_full_service` by which a node other than the
-- bootstrap joins the shared document, while the task of `spawn_state_sync_service` sends what other
-- nodes insert on the same channel. The waits between the steps are taken to be long enough for the
-- node's task to apply what was sent.
use fangorn_rs.Prelude.{
  ℕ, suc, ◌-◌, ◌^◌, ◌<◌, ◌≤◌, ◌≡◌, ◌⊎◌, inl, inr, refl, ap, sym, subst, ◌∙◌, true, false, Option,
  none, some, List, [], ◌∷◌, ◌++◌, unwrap_or, append-nil, contains, ℕ-Eq, arith,
}
use fangorn_rs.Rust.Outcome.{Outcome, ok, ◌>>=◌}
use fangorn_rs.Rust.Decimal.{show_ℕ, no_dash-show_ℕ}
use fangorn_rs.Backend.{AnyError}
use fangorn_rs.Gadget.Codec.{Bytes, Scale, decode_all-encode}
use fangorn_rs.Types.{Announcement, Pairing, config_key}
use fangorn_rs.Types.State.{
  State, empty, apply_updates, apply_updates-eq-ok, last_config, announced_hints,
}
use fangorn_rs.Service.Documents.{
  Docs, Shared, load_and_distribute_config, load_previous_hints, publish_node_hint,
  setup_document_stream,
}
use fangorn_rs.Service.Hints.{
  hint_of, hints_from, Published, load_previous_hints_lem, publish_node_hint-Published,
}
use fangorn_rs.Service.Understood.{
  config_of, AllUnderstood, AllUnderstood-append, apply_updates-AllUnderstood,
  last_config-AllUnderstood, last_config-append, announced_hints-append, keys_from,
  announced_hints-hints_from, AllUnderstood-hints_from,
}

-- What the task that syncs has sent before each of three steps.
pub record Arrivals : Type 0 where
  pub before_config : List Announcement
  pub before_hints : List Announcement
  pub before_own : List Announcement

module _ (D : Type 0) (docs : Docs D) (codec : Scale Announcement) (c : Pairing) where
  -- `get_pk` of the node, serialized: it needs the config.
  abbrev pub own_hint : (c.Config → Bytes) → Option c.Config → Option Bytes
  own_hint pk none = none
  own_hint pk (some cfg) = some (pk cfg)

  abbrev pub arrive : List Announcement → Shared D → Shared D
  arrive synced s = record s { tx = s.tx ++ synced }

  -- From the ticket to the node's own hint.
  unfoldable pub join :
      (c.Config → Bytes) → Arrivals → D → Option D → ℕ → Outcome AnyError (Shared D)
  join pk arrivals fresh ticket index = do
    opened ← setup_document_stream D docs codec false [] fresh ticket
    configured ← load_and_distribute_config D docs codec (arrive arrivals.before_config opened)
    loaded ← load_previous_hints D docs codec index (arrive arrivals.before_hints configured)
    let synced = arrive arrivals.before_own loaded
    state ← apply_updates c synced.tx (empty c)
    publish_node_hint D docs codec (own_hint pk state.config) index synced

  -- The document has the config, and the hints of the nodes from 1 up to, but without, `n`.
  abbrev pub Ready : D → Bytes → (ℕ → Bytes) → ℕ → Type 0
  Ready d bytes pks n =
      (docs.get d config_key ≡ some (codec.encode (config_of bytes)))
      × ((j : ℕ) → 1 ≤ j → j < n → Published D docs codec d j (pks j))

  pub config_key-show_ℕ : (i : ℕ) → ¬ (config_key ≡ show_ℕ i)
  config_key-show_ℕ i e = no (ap (λ t. contains t 45) e ∙ no_dash-show_ℕ i)
    where
      no : ¬ (true ≡ false)
      no e = ground (arith, e)

  -- What a node that joins has been sent before its own hint.
  abbrev heard : Arrivals → Bytes → (ℕ → Bytes) → ℕ → List Announcement
  heard a bytes pks index =
      (((a.before_config ++ config_of bytes ∷ []) ++ a.before_hints)
        ++ hints_from pks (index - 1) 1)
      ++ a.before_own

  join_steps :
      (pk : c.Config → Bytes) (a : Arrivals) (fresh d : D) (bytes : Bytes) (cfg : c.Config)
      (pks : ℕ → Bytes) (index : ℕ) (mid : State c)
      → index < 2 ^ 32
      → Ready d bytes pks index
      → apply_updates c (heard a bytes pks index) (empty c) ≡ ok mid
      → mid.config ≡ some cfg
      → join pk a fresh (some d) index
        ≡ publish_node_hint D docs codec
            (some (pk cfg))
            index
            (record { doc = d; tx = heard a bytes pks index })
  unfolding join setup_document_stream load_and_distribute_config
  join_steps pk a fresh d bytes cfg pks index mid small (has, published) applied known =
      rw
        (
          has,
          decode_all-encode codec (config_of bytes),
          load_previous_hints_lem D docs codec pks index
              (record { doc = d; tx = (a.before_config ++ config_of bytes ∷ []) ++ a.before_hints })
              small published,
          applied,
          known,
        )
        refl

  module _ (bytes : Bytes) (cfg : c.Config) (hc : c.deserialize_config bytes ≡ some cfg)
      (pks : ℕ → Bytes) (keys : ℕ → c.PublicKey) where
    -- What arrives is what nodes of this network announce.
    pub record AreUnderstood (a : Arrivals) : Type 0 where
      pub first : AllUnderstood c bytes cfg hc a.before_config
      pub second : AllUnderstood c bytes cfg hc a.before_hints
      pub third : AllUnderstood c bytes cfg hc a.before_own

    heard-AllUnderstood :
        (a : Arrivals) (index : ℕ)
        → AreUnderstood a
        → ((j : ℕ) → j ≤ index → c.deserialize_key (pks j) ≡ some (keys j))
        → AllUnderstood c bytes cfg hc (heard a bytes pks index)
    heard-AllUnderstood a index u hk =
        AllUnderstood-append c bytes cfg hc _ a.before_own
          (AllUnderstood-append c bytes cfg hc _ (hints_from pks (index - 1) 1)
            (AllUnderstood-append c bytes cfg hc _ a.before_hints
              (AllUnderstood-append c bytes cfg hc a.before_config (config_of bytes ∷ []) u.first
                (refl, tt))
              u.second)
            (AllUnderstood-hints_from c bytes cfg hc pks keys (index - 1) 1
              (λ j low. hk j (omega (arith, low)))))
          u.third

    last_config-heard :
        (a : Arrivals) (index : ℕ) (before : Option c.Config)
        → AreUnderstood a
        → ((j : ℕ) → j ≤ index → c.deserialize_key (pks j) ≡ some (keys j))
        → last_config c (heard a bytes pks index) before ≡ some cfg
    last_config-heard a index before u hk =
        rw
          (
            last_config-append c
                (((a.before_config ++ config_of bytes ∷ []) ++ a.before_hints)
                  ++ hints_from pks (index - 1) 1)
                a.before_own,
            last_config-append c ((a.before_config ++ config_of bytes ∷ []) ++ a.before_hints)
                (hints_from pks (index - 1) 1),
            last_config-append c (a.before_config ++ config_of bytes ∷ []) a.before_hints,
            last_config-append c a.before_config (config_of bytes ∷ []),
            hc,
            last_config-AllUnderstood c bytes cfg hc a.before_hints u.second,
            last_config-AllUnderstood c bytes cfg hc (hints_from pks (index - 1) 1) (
                AllUnderstood-hints_from c bytes cfg hc pks keys (index - 1) 1
                  (λ j low. hk j (omega (arith, low)))),
          )
          (last_config-AllUnderstood c bytes cfg hc a.before_own u.third)

    -- The keys that a node then knows, those of what arrived in between.
    abbrev pub known_keys : Arrivals → ℕ → List c.PublicKey
    known_keys a index =
        ((announced_hints c a.before_config ++ announced_hints c a.before_hints)
          ++ keys_from c keys (index - 1) 1)
        ++ announced_hints c a.before_own

    announced_hints-heard :
        (a : Arrivals) (index : ℕ)
        → ((j : ℕ) → j ≤ index → c.deserialize_key (pks j) ≡ some (keys j))
        → announced_hints c (heard a bytes pks index) ≡ known_keys a index
    announced_hints-heard a index hk =
        rw
          (
            announced_hints-append c
                (((a.before_config ++ config_of bytes ∷ []) ++ a.before_hints)
                  ++ hints_from pks (index - 1) 1)
                a.before_own,
            announced_hints-append c ((a.before_config ++ config_of bytes ∷ []) ++ a.before_hints)
                (hints_from pks (index - 1) 1),
            announced_hints-append c (a.before_config ++ config_of bytes ∷ []) a.before_hints,
            announced_hints-append c a.before_config (config_of bytes ∷ []),
            append-nil (announced_hints c a.before_config),
            announced_hints-hints_from c pks keys (index - 1) 1
                (λ j low. hk j (omega (arith, low))),
          )
          refl

    after_own :
        (a : Arrivals) (index : ℕ) (own : Bytes)
        → AreUnderstood a
        → ((j : ℕ) → j ≤ index → c.deserialize_key (pks j) ≡ some (keys j))
        → c.deserialize_key own ≡ some (keys index)
        → (state : State c) × (apply_updates c
              (heard a bytes pks index ++ hint_of own ∷ [])
              (empty c)
            ≡ ok state)
          × (state.config ≡ some cfg)
          × (unwrap_or state.hints [] ≡ known_keys a index ++ keys index ∷ [])
    after_own a index own u hk ho =
        let tx = heard a bytes pks index in
        let (state, applied) =
          apply_updates-AllUnderstood c bytes cfg hc (tx ++ hint_of own ∷ []) (empty c) (
            AllUnderstood-append c bytes cfg hc tx (hint_of own ∷ [])
              (heard-AllUnderstood a index u hk) ((keys index, ho), tt)) in
        let (known, hints, system) =
          apply_updates-eq-ok c (tx ++ hint_of own ∷ []) (empty c) state applied in
        (
          state,
          applied,
          known
              ∙ last_config-append c tx (hint_of own ∷ []) none
              ∙ last_config-heard a index none u hk,
          hints
              ∙ announced_hints-append c tx (hint_of own ∷ [])
              ∙ rw (announced_hints-heard a index hk, ho) refl,
        )

    -- A node with index `index` that opens a document with a readable config, and with the readable
    -- hints of every node from 1 up to its own index, joins without a panic, whatever announcements of
    -- the same network the task that syncs sends it in between. Its state then has that config and
    -- knows the keys of those nodes in order, with the keys that arrived between the steps where they
    -- came, its own last; and the document is ready for the node with the next index.
    pub join-Ready :
        (pk : c.Config → Bytes) (a : Arrivals) (fresh d : D) (index : ℕ)
        → index < 2 ^ 32
        → Ready d bytes pks index
        → AreUnderstood a
        → ((j : ℕ) → j ≤ index → c.deserialize_key (pks j) ≡ some (keys j))
        → pks index ≡ pk cfg
        → (s' : Shared D) × (join pk a fresh (some d) index ≡ ok s')
          × Ready s'.doc bytes pks (suc index)
          × ((state : State c) × (apply_updates c s'.tx (empty c) ≡ ok state)
              × (state.config ≡ some cfg)
              × (unwrap_or state.hints [] ≡ known_keys a index ++ keys index ∷ []))
    unfolding publish_node_hint
    join-Ready pk a fresh d index small (has, published) u hk own =
        let (mid, applied) =
          apply_updates-AllUnderstood c bytes cfg hc (heard a bytes pks index) (empty c)
            (heard-AllUnderstood a index u hk) in
        let (known, hints, system) =
          apply_updates-eq-ok c (heard a bytes pks index) (empty c) mid applied in
        let s : Shared D = record { doc = d; tx = heard a bytes pks index } in
        let s' : Shared D = record {
          doc = docs.set_bytes d (show_ℕ index) (codec.encode (hint_of (pk cfg)));
          tx = heard a bytes pks index ++ hint_of (pk cfg) ∷ [];
        } in
        let (sent, mine, others) =
          publish_node_hint-Published D docs codec (pk cfg) index s s' refl in
        (
          s',
          join_steps pk a fresh d bytes cfg pks index mid small (has, published) applied
              (known ∙ last_config-heard a index none u hk),
          (
            docs.get-set_bytes_other d (show_ℕ index) config_key (codec.encode (hint_of (pk cfg)))
                  (config_key-show_ℕ index)
                ∙ has,
            λ j low high. elim (own_or_before j index high) [
              | inl here ↦
                  subst (λ i. Published D docs codec s'.doc i (pks i)) (sym here)
                    (mine ∙ ap (λ b. some (codec.encode (hint_of b))) (sym own))
              | inr before ↦
                  others j (pks j) (λ e. absurd (omega (arith, e, before))) (published j low before)
            ],
          ),
          after_own a index (pk cfg) u hk
              (subst (λ b. c.deserialize_key b ≡ some (keys index)) own (hk index (omega arith))),
        )
      where
        own_or_before : (j index : ℕ) → j < suc index → (j ≡ index) ⊎ (j < index)
        own_or_before j index high = omega (arith, high)
