-- ===== src/Service/Sync.antt =====
-- fangorn/src/node/service.rs: `run_state_sync`, which passes on the announcements that other nodes
-- have inserted into the shared document. The events of iroh are its input: for an insertion, what each
-- attempt to read its content gives.
use fangorn_rs.Prelude.{
  ℕ, zero, suc, ◌≡◌, refl, ap, sym, fun_ext, ◌∙◌, Bool, true, false, Option, none, some, List, [],
  ◌∷◌, ◌++◌,
}
use fangorn_rs.Rust.Outcome.{Outcome, ok, panic, unwrap, ◌>>=◌}
use fangorn_rs.Rust.Text.{Text}
use fangorn_rs.Gadget.Codec.{Bytes, Scale, decode_all}
use fangorn_rs.Types.{
  Tag, config, hint, doc, system_keys, decryption_request, Announcement, Pairing,
}
use fangorn_rs.Types.State.{State, update, apply_updates, apply_updates-append}

-- An insertion has the content at the first attempt, or else what the attempts after it get.
pub data LiveEvent : Type 0 where
  insert_remote : Option Bytes → List (Option Bytes) → LiveEvent
  other_event : LiveEvent

-- `announcement.tag != Tag::Doc`
abbrev pub is_document : Tag → Bool
is_document config = false
is_document hint = false
is_document doc = true
is_document system_keys = false
is_document decryption_request = false

abbrev pub unless_document : Announcement → List Announcement
unless_document a = elim (is_document a.tag) [ true ↦ [] | false ↦ a ∷ [] ]

module _ (codec : Scale Announcement) where
  -- Up to `tries` further attempts, ended by the first that has the content. A document is passed over.
  unfoldable pub retry : ℕ → List (Option Bytes) → Outcome Text (List Announcement)
  retry zero attempts = ok []
  retry (suc tries) [] = ok []
  retry (suc tries) (none ∷ attempts) = retry tries attempts
  retry (suc tries) (some bytes ∷ attempts) = do
    announcement ← unwrap (decode_all codec bytes)
    ok (unless_document announcement)

  -- What one event puts into the channel. What does not decode is a panic.
  unfoldable pub on_event : LiveEvent → Outcome Text (List Announcement)
  unfolding retry
  on_event other_event = ok []
  on_event (insert_remote none attempts) = retry 3 attempts
  on_event (insert_remote (some bytes) attempts) = do
    announcement ← unwrap (decode_all codec bytes)
    ok (announcement ∷ [])

  -- What the loop has put into the channel after the events.
  unfoldable pub run_state_sync : List LiveEvent → Outcome Text (List Announcement)
  unfolding on_event
  run_state_sync [] = ok []
  run_state_sync (event ∷ events) = do
    first ← on_event event
    rest ← run_state_sync events
    ok (first ++ rest)

  -- The content that an event gets within its four attempts.
  abbrev pub first_content : ℕ → List (Option Bytes) → Option Bytes
  first_content zero attempts = none
  first_content (suc tries) [] = none
  first_content (suc tries) (none ∷ attempts) = first_content tries attempts
  first_content (suc tries) (some bytes ∷ attempts) = some bytes

  abbrev pub content : LiveEvent → Option Bytes
  content other_event = none
  content (insert_remote first attempts) = first_content 4 (first ∷ attempts)

  abbrev decoded : Option Bytes → Outcome Text (List Announcement)
  decoded none = ok []
  decoded (some bytes) = do a ← unwrap (decode_all codec bytes); ok (a ∷ [])

  -- The announcements in the contents of the events, in order.
  abbrev pub announced : List LiveEvent → Outcome Text (List Announcement)
  announced [] = ok []
  announced (event ∷ events) = do
    first ← decoded (content event)
    rest ← announced events
    ok (first ++ rest)

  module _ (c : Pairing) where
    -- Results that lead a node to the same state.
    data Same : Outcome Text (List Announcement) → Outcome Text (List Announcement) → Type 0 where
      both_ok :
          (l l' : List Announcement)
          → ((s : State c) → apply_updates c l s ≡ apply_updates c l' s)
          → Same (ok l) (ok l')
      both_panic : Same panic panic

    joined :
        {x x' y y' : Outcome Text (List Announcement)}
        → Same x x'
        → Same y y'
        → Same (x >>= λ f. y >>= λ r. ok (f ++ r)) (x' >>= λ f. y' >>= λ r. ok (f ++ r))
    joined (both_ok f f' h) (both_ok r r' k) = both_ok (f ++ r) (f' ++ r') (λ s.
        apply_updates-append c f r s
        ∙ ap (λ o. o >>= λ s'. apply_updates c r s') (h s)
        ∙ ap (λ g. apply_updates c f' s >>= g) (fun_ext k)
        ∙ sym (apply_updates-append c f' r' s))
    joined (both_ok f f' h) both_panic = both_panic
    joined both_panic k = both_panic

    agreement :
        {x y : Outcome Text (List Announcement)}
        → Same x y
        → (s : State c)
        → (x >>= λ as'. apply_updates c as' s) ≡ (y >>= λ as'. apply_updates c as' s)
    agreement (both_ok l l' h) s = h s
    agreement both_panic s = refl

    passed_over :
        (tag : Tag) (payload : Bytes) (s : State c)
        → apply_updates c (unless_document (record { tag = tag; payload = payload })) s
          ≡ apply_updates c (record { tag = tag; payload = payload } ∷ []) s
    unfolding apply_updates update
    passed_over config p s = refl
    passed_over hint p s = refl
    passed_over doc p s = refl
    passed_over system_keys p s = refl
    passed_over decryption_request p s = refl

    first_decoded :
        (o : Option Announcement)
        → Same (unwrap o >>= λ a. ok (a ∷ [])) (unwrap o >>= λ a. ok (a ∷ []))
    first_decoded none = both_panic
    first_decoded (some a) = both_ok (a ∷ []) (a ∷ []) (λ s. refl)

    late_decoded :
        (o : Option Announcement)
        → Same (unwrap o >>= λ a. ok (unless_document a)) (unwrap o >>= λ a. ok (a ∷ []))
    late_decoded none = both_panic
    late_decoded (some a) =
        both_ok (unless_document a) (a ∷ []) (λ s. passed_over a.tag a.payload s)

    retried :
        (tries : ℕ) (attempts : List (Option Bytes))
        → Same (retry tries attempts) (decoded (first_content tries attempts))
    unfolding retry
    retried zero attempts = both_ok [] [] (λ s. refl)
    retried (suc tries) [] = both_ok [] [] (λ s. refl)
    retried (suc tries) (none ∷ attempts) = retried tries attempts
    retried (suc tries) (some bytes ∷ attempts) = late_decoded (decode_all codec bytes)

    on_event-Same : (event : LiveEvent) → Same (on_event event) (decoded (content event))
    unfolding on_event
    on_event-Same other_event = both_ok [] [] (λ s. refl)
    on_event-Same (insert_remote none attempts) = retried 3 attempts
    on_event-Same (insert_remote (some bytes) attempts) = first_decoded (decode_all codec bytes)

    run-Same : (events : List LiveEvent) → Same (run_state_sync events) (announced events)
    unfolding run_state_sync
    run-Same [] = both_ok [] [] (λ s. refl)
    run-Same (event ∷ events) = joined (on_event-Same event) (run-Same events)

    -- After any events of the document, a node's state is the one that every announcement whose
    -- content arrives within four attempts makes, in the order of the events: which attempt it
    -- was, and that a document is passed over after the first, make no difference. If one of these
    -- contents does not decode, or an update panics, both sides are a panic.
    pub run_state_sync_lem :
        (events : List LiveEvent) (s : State c)
        → (run_state_sync events >>= λ as'. apply_updates c as' s)
          ≡ (announced events >>= λ as'. apply_updates c as' s)
    run_state_sync_lem events s = agreement (run-Same events) s
