-- ===== src/Service/Understood.antt =====
-- Announcements that the nodes of a network make, of fangorn/src/types.rs: the config that all of them
-- have, and hints that can be read.
use fangorn_rs.Prelude.{
  ℕ, zero, suc, ◌+◌, ◌<◌, ◌≡◌, refl, ap, sym, ◌∙◌, Option, some, List, [], ◌∷◌, ◌++◌, append_assoc,
  unwrap_or, arith,
}
use fangorn_rs.Rust.Outcome.{ok, ◌>>=◌}
use fangorn_rs.Gadget.Codec.{Bytes}
use fangorn_rs.Types.{
  Tag, config, hint, doc, system_keys, decryption_request, Announcement, Pairing,
}
use fangorn_rs.Types.State.{State, update, apply_updates, last_config, key_list, announced_hints}
use fangorn_rs.Service.Hints.{hints_from}

abbrev pub config_of : Bytes → Announcement
config_of bytes = record { tag = config; payload = bytes }

module _ (c : Pairing) (bytes : Bytes) (cfg : c.Config)
    (hc : c.deserialize_config bytes ≡ some cfg) where
  abbrev Understands : Tag → Bytes → Type 0
  Understands config payload = payload ≡ bytes
  Understands hint payload = (key : c.PublicKey) × (c.deserialize_key payload ≡ some key)
  Understands doc payload = Unit {0}
  Understands system_keys payload = Unit {0}
  Understands decryption_request payload = Unit {0}

  abbrev pub AllUnderstood : List Announcement → Type 0
  AllUnderstood [] = Unit {0}
  AllUnderstood (a ∷ rest) = Understands a.tag a.payload × AllUnderstood rest

  pub AllUnderstood-append :
      (l r : List Announcement) → AllUnderstood l → AllUnderstood r → AllUnderstood (l ++ r)
  AllUnderstood-append [] r h k = k
  AllUnderstood-append (a ∷ l) r h k = (h.0, AllUnderstood-append l r h.1 k)

  one_applies :
      (tag : Tag) (payload : Bytes) (s : State c)
      → Understands tag payload
      → (s' : State c) × (update c (record { tag = tag; payload = payload }) s ≡ ok s')
  unfolding update
  one_applies config p s h = (record s { config = some cfg }, rw (h, hc) refl)
  one_applies hint p s (k, e) =
      (record s { hints = some (unwrap_or s.hints [] ++ k ∷ []) }, rw e refl)
  one_applies doc p s h = (s, refl)
  one_applies system_keys p s h = (s, refl)
  one_applies decryption_request p s h = (s, refl)

  -- None of them makes the node's task panic.
  pub apply_updates-AllUnderstood :
      (l : List Announcement) (s : State c)
      → AllUnderstood l
      → (s' : State c) × (apply_updates c l s ≡ ok s')
  unfolding apply_updates
  apply_updates-AllUnderstood [] s h = (s, refl)
  apply_updates-AllUnderstood (a ∷ l) s h =
      let (mid, one) = one_applies a.tag a.payload s h.0 in
      let (s', rest) = apply_updates-AllUnderstood l mid h.1 in
      (s', ap (λ o. o >>= λ t. apply_updates c l t) one ∙ rest)

  -- The config stays.
  one_keeps :
      (tag : Tag) (payload : Bytes) (rest : List Announcement)
      → Understands tag payload
      → last_config c (record { tag = tag; payload = payload } ∷ rest) (some cfg)
        ≡ last_config c rest (some cfg)
  one_keeps config p rest h = ap (last_config c rest) (ap c.deserialize_config h ∙ hc)
  one_keeps hint p rest h = refl
  one_keeps doc p rest h = refl
  one_keeps system_keys p rest h = refl
  one_keeps decryption_request p rest h = refl

  pub last_config-AllUnderstood :
      (l : List Announcement) → AllUnderstood l → last_config c l (some cfg) ≡ some cfg
  last_config-AllUnderstood [] h = refl
  last_config-AllUnderstood (a ∷ l) h =
      one_keeps a.tag a.payload l h.0 ∙ last_config-AllUnderstood l h.1

module _ (c : Pairing) where
  one_more :
      (tag : Tag) (p : Bytes) (l r : List Announcement) (before : Option c.Config)
      → ((b : Option c.Config) → last_config c (l ++ r) b ≡ last_config c r (last_config c l b))
      → last_config c (record { tag = tag; payload = p } ∷ (l ++ r)) before
        ≡ last_config c r (last_config c (record { tag = tag; payload = p } ∷ l) before)
  one_more config p l r before k = k (c.deserialize_config p)
  one_more hint p l r before k = k before
  one_more doc p l r before k = k before
  one_more system_keys p l r before k = k before
  one_more decryption_request p l r before k = k before

  pub last_config-append :
      (l r : List Announcement) (before : Option c.Config)
      → last_config c (l ++ r) before ≡ last_config c r (last_config c l before)
  last_config-append [] r before = refl
  last_config-append (a ∷ l) r before = one_more a.tag a.payload l r before (last_config-append l r)

  one_hint :
      (tag : Tag) (p : Bytes) (l r : List Announcement)
      → announced_hints c (l ++ r) ≡ announced_hints c l ++ announced_hints c r
      → announced_hints c (record { tag = tag; payload = p } ∷ (l ++ r))
        ≡ announced_hints c (record { tag = tag; payload = p } ∷ l) ++ announced_hints c r
  one_hint config p l r k = k
  one_hint hint p l r k =
      ap (λ t. key_list c (c.deserialize_key p) ++ t) k
      ∙ sym (
          append_assoc (key_list c (c.deserialize_key p)) (announced_hints c l)
            (announced_hints c r))
  one_hint doc p l r k = k
  one_hint system_keys p l r k = k
  one_hint decryption_request p l r k = k

  pub announced_hints-append :
      (l r : List Announcement)
      → announced_hints c (l ++ r) ≡ announced_hints c l ++ announced_hints c r
  announced_hints-append [] r = refl
  announced_hints-append (a ∷ l) r = one_hint a.tag a.payload l r (announced_hints-append l r)

  -- The keys of `count` nodes from index `i` on.
  abbrev pub keys_from : (ℕ → c.PublicKey) → ℕ → ℕ → List c.PublicKey
  keys_from keys zero i = []
  keys_from keys (suc count) i = keys i ∷ keys_from keys count (suc i)

  pub announced_hints-hints_from :
      (pks : ℕ → Bytes) (keys : ℕ → c.PublicKey) (count i : ℕ)
      → ((j : ℕ) → j < i + count → c.deserialize_key (pks j) ≡ some (keys j))
      → announced_hints c (hints_from pks count i) ≡ keys_from keys count i
  announced_hints-hints_from pks keys zero i h = refl
  announced_hints-hints_from pks keys (suc count) i h = rw (h i (omega arith)) (
      ap (λ l. keys i ∷ l)
        (announced_hints-hints_from pks keys count (suc i) (λ j low. h j (omega (arith, low)))))

  pub AllUnderstood-hints_from :
      (bytes : Bytes) (cfg : c.Config) (hc : c.deserialize_config bytes ≡ some cfg)
      (pks : ℕ → Bytes) (keys : ℕ → c.PublicKey) (count i : ℕ)
      → ((j : ℕ) → j < i + count → c.deserialize_key (pks j) ≡ some (keys j))
      → AllUnderstood c bytes cfg hc (hints_from pks count i)
  AllUnderstood-hints_from bytes cfg hc pks keys zero i h = tt
  AllUnderstood-hints_from bytes cfg hc pks keys (suc count) i h = (
    (keys i, h i (omega arith)),
    AllUnderstood-hints_from bytes cfg hc pks keys count (suc i)
        (λ j low. h j (omega (arith, low))),
  )
