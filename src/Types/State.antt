-- ===== src/Types/State.antt =====
-- fangorn/src/types.rs: `State`, and the task of fangorn/src/node/node.rs that applies the
-- announcements of the channel to it.
use fangorn_rs.Prelude.{
  ◌≡◌, refl, ap, sym, fun_ext, ◌∙◌, Option, none, some, List, [], ◌∷◌, ◌++◌, append_assoc,
  append-nil, unwrap_or, arith,
}
use fangorn_rs.Rust.Outcome.{Outcome, ok, unwrap, unwrap-eq-ok, ◌>>=◌, >>=-eq-ok, >>=-assoc}
use fangorn_rs.Rust.Text.{Text}
use fangorn_rs.Types.{
  Bytes, Tag, config, hint, doc, system_keys, decryption_request, Announcement, Pairing,
}

module _ (c : Pairing) where
  pub record State : Type 0 where
    pub config : Option c.Config
    pub hints : Option (List c.PublicKey)
    pub system_keys : Option c.SystemPublicKeys

  abbrev pub empty : State
  empty = record { config = none; hints = none; system_keys = none }

  -- A payload that does not deserialize panics.
  unfoldable pub update : Announcement → State → Outcome Text State
  update announcement s = elim announcement.tag [
    | config ↦ (do
      cfg ← unwrap (c.deserialize_config announcement.payload)
      ok (record s { config = some cfg }))
    | hint ↦ (do
      pk ← unwrap (c.deserialize_key announcement.payload)
      ok (record s { hints = some (unwrap_or s.hints [] ++ pk ∷ []) }))
    | doc ↦ ok s
    | system_keys ↦ ok s
    | decryption_request ↦ ok s
  ]

  -- The task that takes the announcements in turn. A panic ends it.
  unfoldable pub apply_updates : List Announcement → State → Outcome Text State
  unfolding update
  apply_updates [] s = ok s
  apply_updates (a ∷ rest) s = do s' ← update a s; apply_updates rest s'

  pub apply_updates-append :
      (l r : List Announcement) (s : State)
      → apply_updates (l ++ r) s ≡ (apply_updates l s >>= λ s'. apply_updates r s')
  unfolding apply_updates
  apply_updates-append [] r s = refl
  apply_updates-append (a ∷ l) r s =
      ap (λ k. update a s >>= k) (fun_ext (λ s'. apply_updates-append l r s'))
      ∙ sym (>>=-assoc (update a s) (apply_updates l) (apply_updates r))

  -- What a list of announcements says of the config and of the hints.
  abbrev pub last_config : List Announcement → Option c.Config → Option c.Config
  last_config [] before = before
  last_config (a ∷ rest) before = elim a.tag [
    | config ↦ last_config rest (c.deserialize_config a.payload)
    | hint ↦ last_config rest before
    | doc ↦ last_config rest before
    | system_keys ↦ last_config rest before
    | decryption_request ↦ last_config rest before
  ]

  abbrev pub key_list : Option c.PublicKey → List c.PublicKey
  key_list none = []
  key_list (some k) = k ∷ []

  abbrev pub announced_hints : List Announcement → List c.PublicKey
  announced_hints [] = []
  announced_hints (a ∷ rest) = elim a.tag [
    | config ↦ announced_hints rest
    | hint ↦ key_list (c.deserialize_key a.payload) ++ announced_hints rest
    | doc ↦ announced_hints rest
    | system_keys ↦ announced_hints rest
    | decryption_request ↦ announced_hints rest
  ]

  -- What one announcement does to each part of the state.
  abbrev Updated : Announcement → State → State → Type 0
  Updated a s s' =
      (s'.config ≡ last_config (a ∷ []) s.config)
      × (unwrap_or s'.hints [] ≡ unwrap_or s.hints [] ++ announced_hints (a ∷ []))
      × (s'.system_keys ≡ s.system_keys)

  update-eq-ok :
      (tag : Tag) (payload : Bytes) (s s' : State)
      → update (record { tag = tag; payload = payload }) s ≡ ok s'
      → Updated (record { tag = tag; payload = payload }) s s'
  unfolding update
  update-eq-ok config p s s' h =
      let (k, e, made) = >>=-eq-ok (unwrap (c.deserialize_config p)) _ h in
      let known = unwrap-eq-ok (c.deserialize_config p) e in
      ground (arith, append-nil (unwrap_or s.hints []))
  update-eq-ok hint p s s' h =
      let (k, e, made) = >>=-eq-ok (unwrap (c.deserialize_key p)) _ h in
      let known = unwrap-eq-ok (c.deserialize_key p) e in ground arith
  update-eq-ok doc p s s' h = ground (arith, append-nil (unwrap_or s.hints []))
  update-eq-ok system_keys p s s' h = ground (arith, append-nil (unwrap_or s.hints []))
  update-eq-ok decryption_request p s s' h = ground (arith, append-nil (unwrap_or s.hints []))

  last_config-cons :
      (tag : Tag) (p : Bytes) (rest : List Announcement) (before : Option c.Config)
      → last_config (record { tag = tag; payload = p } ∷ rest) before
        ≡ last_config rest (last_config (record { tag = tag; payload = p } ∷ []) before)
  last_config-cons config p rest before = refl
  last_config-cons hint p rest before = refl
  last_config-cons doc p rest before = refl
  last_config-cons system_keys p rest before = refl
  last_config-cons decryption_request p rest before = refl

  announced_hints-cons :
      (tag : Tag) (p : Bytes) (rest : List Announcement)
      → announced_hints (record { tag = tag; payload = p } ∷ rest)
        ≡ announced_hints (record { tag = tag; payload = p } ∷ []) ++ announced_hints rest
  announced_hints-cons config p rest = refl
  announced_hints-cons hint p rest =
      ap (λ l. l ++ announced_hints rest) (sym (append-nil (key_list (c.deserialize_key p))))
  announced_hints-cons doc p rest = refl
  announced_hints-cons system_keys p rest = refl
  announced_hints-cons decryption_request p rest = refl

  -- Announcements that are all applied leave the last config among them, add the hints among them to
  -- the state's hints in their order, one for each announcement, and touch no system keys.
  pub apply_updates-eq-ok :
      (messages : List Announcement) (s s' : State)
      → apply_updates messages s ≡ ok s'
      → (s'.config ≡ last_config messages s.config)
        × (unwrap_or s'.hints [] ≡ unwrap_or s.hints [] ++ announced_hints messages)
        × (s'.system_keys ≡ s.system_keys)
  unfolding apply_updates
  apply_updates-eq-ok [] s s' h = ground (arith, append-nil (unwrap_or s.hints []))
  apply_updates-eq-ok (a ∷ rest) s s' h =
      let (mid, one, more) = >>=-eq-ok (update a s) _ h in
      let (c1, h1, k1) = update-eq-ok a.tag a.payload s mid one in
      let (c2, h2, k2) = apply_updates-eq-ok rest mid s' more in
      (
        c2 ∙ ap (last_config rest) c1 ∙ sym (last_config-cons a.tag a.payload rest s.config),
        h2
            ∙ ap (λ l. l ++ announced_hints rest) h1
            ∙ append_assoc (unwrap_or s.hints []) (announced_hints (a ∷ [])) (announced_hints rest)
            ∙ ap (λ l. unwrap_or s.hints [] ++ l) (sym (announced_hints-cons a.tag a.payload rest)),
        k2 ∙ k1,
      )
