-- ===== src/Service/Hints.antt =====
-- The exchange of hints in fangorn/src/node/service.rs: what a node that joins reads is what the
-- nodes before it have published.
use fangorn_rs.Prelude.{
  ℕ, suc, zero, ◌+◌, ◌-◌, ◌%◌, ◌^◌, ◌<◌, ◌≤◌, ◌≡◌, refl, ap, sym, ◌∙◌, none, some, List, [], ◌∷◌,
  ◌++◌, append_assoc, append-nil, arith, inl, inr, ◌⊎◌,
}
use fangorn_rs.Rust.Outcome.{ok, panic}
use fangorn_rs.Rust.Decimal.{show_ℕ, show_ℕ-injective}
use fangorn_rs.Gadget.Codec.{Bytes, Scale, decode_all-encode}
use fangorn_rs.Types.{Announcement, hint}
use fangorn_rs.Service.Documents.{
  Docs, Shared, send, load_hints, load_previous_hints, publish_node_hint,
}

abbrev pub hint_of : Bytes → Announcement
hint_of pk = record { tag = hint; payload = pk }

-- The hints of `count` nodes from index `i` on.
abbrev pub hints_from : (ℕ → Bytes) → ℕ → ℕ → List Announcement
hints_from pks zero i = []
hints_from pks (suc count) i = hint_of (pks i) ∷ hints_from pks count (suc i)

module _ (D : Type 0) (docs : Docs D) (codec : Scale Announcement) where
  -- The document has the hint of node `i`.
  abbrev pub Published : D → ℕ → Bytes → Type 0
  Published d i pk = docs.get d (show_ℕ i) ≡ some (codec.encode (hint_of pk))

  load_hints_lem :
      (pks : ℕ → Bytes) (count i : ℕ) (s : Shared D)
      → ((j : ℕ) → i ≤ j → j < i + count → Published s.doc j (pks j))
      → load_hints D docs codec count i s
        ≡ ok (record { doc = s.doc; tx = s.tx ++ hints_from pks count i })
  unfolding load_hints
  load_hints_lem pks zero i s h =
      ap (λ l. ok (record { doc = s.doc; tx = l })) (sym (append-nil s.tx))
  load_hints_lem pks (suc count) i s h =
      let found = h i (omega arith) (omega arith) in
      let rest =
        load_hints_lem pks count (suc i) (send D docs codec (hint_of (pks i)) s)
          (λ j low high. h j (omega (arith, low)) (omega (arith, high))) in
      rw (found, decode_all-encode codec (hint_of (pks i)))
        (rest
          ∙ ap (λ l. ok (record { doc = s.doc; tx = l }))
              (append_assoc s.tx (hint_of (pks i) ∷ []) (hints_from pks count (suc i))))

  -- Where every node from 1 up to the index has published its hint, a node with that index, which fits
  -- in a u32, loads exactly those hints, in the order of the nodes, and leaves the document alone.
  -- The hint of node 0 is not among them.
  pub load_previous_hints_lem :
      (pks : ℕ → Bytes) (index : ℕ) (s : Shared D)
      → index < 2 ^ 32
      → ((j : ℕ) → 1 ≤ j → j < index → Published s.doc j (pks j))
      → load_previous_hints D docs codec index s
        ≡ ok (record { doc = s.doc; tx = s.tx ++ hints_from pks (index - 1) 1 })
  unfolding load_previous_hints
  load_previous_hints_lem pks index s small h =
      let whole : index % 2 ^ 32 ≡ index = omega (arith, small) in
      rw whole
        (load_hints_lem pks (index - 1) 1 s (λ j low high. h j low (omega (arith, low, high))))

  load_hints-gap :
      (pks : ℕ → Bytes) (count i gap : ℕ) (s : Shared D)
      → i ≤ gap
      → gap < i + count
      → ((j : ℕ) → i ≤ j → j < gap → Published s.doc j (pks j))
      → docs.get s.doc (show_ℕ gap) ≡ none
      → load_hints D docs codec count i s ≡ panic
  unfolding load_hints
  load_hints-gap pks zero i gap s low high h missing = absurd (omega (arith, low, high))
  load_hints-gap pks (suc count) i gap s low high h missing = elim (here_or_later i gap low) [
    | inl here ↦ rw (here, missing) refl
    | inr later ↦
        rw (h i (omega arith) later, decode_all-encode codec (hint_of (pks i)))
          (load_hints-gap pks count (suc i) gap (send D docs codec (hint_of (pks i)) s)
            (omega (arith, later)) (omega (arith, high)) (λ j l. h j (omega (arith, l))) missing)
  ]
    where
      here_or_later : (i gap : ℕ) → i ≤ gap → (i ≡ gap) ⊎ (i < gap)
      here_or_later i gap low = omega (arith, low)

  -- A node whose index leaves a gap, some lower index from 1 on of which no node has published a hint,
  -- panics when it joins.
  pub load_previous_hints-gap :
      (pks : ℕ → Bytes) (index gap : ℕ) (s : Shared D)
      → index < 2 ^ 32
      → 1 ≤ gap
      → gap < index
      → ((j : ℕ) → 1 ≤ j → j < gap → Published s.doc j (pks j))
      → docs.get s.doc (show_ℕ gap) ≡ none
      → load_previous_hints D docs codec index s ≡ panic
  unfolding load_previous_hints
  load_previous_hints-gap pks index gap s small low high h missing =
      let whole : index % 2 ^ 32 ≡ index = omega (arith, small) in
      rw whole (load_hints-gap pks (index - 1) 1 gap s low (omega (arith, high, low)) h missing)

  -- A node that publishes its hint sends it to itself, and has it in the document under its own index,
  -- where the hints of the other indices stay as they were.
  pub publish_node_hint-Published :
      (pk : Bytes) (i : ℕ) (s s' : Shared D)
      → publish_node_hint D docs codec (some pk) i s ≡ ok s'
      → (s'.tx ≡ s.tx ++ hint_of pk ∷ [])
        × Published s'.doc i pk
        × ((j : ℕ) (q : Bytes) → ¬ (j ≡ i) → Published s.doc j q → Published s'.doc j q)
  unfolding publish_node_hint
  publish_node_hint-Published pk i s s' h =
      let after : Shared D = record {
        doc = docs.set_bytes s.doc (show_ℕ i) (codec.encode (hint_of pk));
        tx = s.tx ++ hint_of pk ∷ [];
      } in
      let same : after ≡ s' = ground (arith, h) in
      (
        ap (λ t. t.tx) (sym same),
        ap (λ t. docs.get t.doc (show_ℕ i)) (sym same)
            ∙ docs.get-set_bytes s.doc (show_ℕ i) (codec.encode (hint_of pk)),
        λ j q apart had.
            ap (λ t. docs.get t.doc (show_ℕ j)) (sym same)
            ∙ docs.get-set_bytes_other s.doc (show_ℕ i) (show_ℕ j) (codec.encode (hint_of pk))
                (λ e. apart (show_ℕ-injective j i e))
            ∙ had,
      )
