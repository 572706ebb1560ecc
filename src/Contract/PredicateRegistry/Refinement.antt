-- ===== src/Contract/PredicateRegistry/Refinement.antt =====
-- contract/predicate-registry/lib.rs against its specification: a finite map in which a filename is
-- bound at most once at a time.
use fangorn_rs.Prelude.{
  ◌≡◌, refl, ap, ap₂, Option, none, some, List, [], ◌∷◌, arith, if◌then◌else◌, ◌==◌, list_eq_iff,
  ℕ-Eq, List-Eq,
}
use fangorn_rs.Contract.Ink.{Bytes, Mapping, ok, err}
use fangorn_rs.Contract.PredicateRegistry.{
  Filename, Cid, Entry, PredicateRegistry, new, register_predicate, read, remove_predicate, Call,
  registers, reads, removes, Reply, registered, found, removed, call, replies,
  filename_already_exists, filename_not_found,
}

abbrev pub Bindings : Type 0
Bindings = Filename → Option Entry

abbrev pub bind : Filename → Option Entry → Bindings → Bindings
bind f entry m g = if f == g then entry else m g

-- The specification of each message.
abbrev pub bind_new : Filename → Entry → Option Entry → Bindings → Reply × Bindings
bind_new f entry none m = (registered (ok tt), bind f (some entry) m)
bind_new f entry (some old) m = (registered (err filename_already_exists), m)

abbrev pub unbind : Filename → Option Entry → Bindings → Reply × Bindings
unbind f none m = (removed (err filename_not_found), m)
unbind f (some entry) m = (removed (ok entry), bind f none m)

module _ (entries : Mapping Filename Entry) where
  abbrev pub spec_call : Call entries → Bindings → Reply × Bindings
  spec_call (registers f c b) m = bind_new f (record { cid = c; predicate = b }) (m f) m
  spec_call (reads f) m = (found (m f), m)
  spec_call (removes f) m = unbind f (m f) m

  abbrev pub spec_replies : List (Call entries) → Bindings → List Reply
  spec_replies [] m = []
  spec_replies (c ∷ cs) m = (spec_call c m).0 ∷ spec_replies cs (spec_call c m).1

  abbrev pub Represents : PredicateRegistry entries → Bindings → Type 0
  Represents r m = (f : Filename) → read entries f r ≡ m f

  register-Represents :
      (f : Filename) (c : Cid) (b : Bytes) (r : PredicateRegistry entries) (m : Bindings)
      → Represents r m
      → ((call entries (registers f c b) r).0 ≡ (spec_call (registers f c b) m).0)
        × Represents (call entries (registers f c b) r).1 (spec_call (registers f c b) m).1
  unfolding call register_predicate read
  register-Represents f c b r m h =
      let stored = entries.contains-get r.predicate_registry f in
      let entry : Entry = record { cid = c; predicate = b } in
      (
        ground (arith, stored, h f),
        λ g. ground (arith, stored, h f, h g, entries.get-insert r.predicate_registry f entry g),
      )

  remove-Represents :
      (f : Filename) (r : PredicateRegistry entries) (m : Bindings)
      → Represents r m
      → ((call entries (removes f) r).0 ≡ (spec_call (removes f) m).0)
        × Represents (call entries (removes f) r).1 (spec_call (removes f) m).1
  unfolding call remove_predicate read
  remove-Represents f r m h =
      let taken = entries.take-get r.predicate_registry f in
      (
        ground (arith, taken, h f),
        λ g.
            ground
              (arith, taken, h f, h g, entries.get-take r.predicate_registry f g, list_eq_iff f g),
      )

  call-Represents :
      (c : Call entries) (r : PredicateRegistry entries) (m : Bindings)
      → Represents r m
      → ((call entries c r).0 ≡ (spec_call c m).0)
        × Represents (call entries c r).1 (spec_call c m).1
  call-Represents (registers f c b) r m h = register-Represents f c b r m h
  call-Represents (reads f) r m h = unfold call in (ap found (h f), h)
  call-Represents (removes f) r m h = remove-Represents f r m h

  replies-Represents :
      (cs : List (Call entries)) (r : PredicateRegistry entries) (m : Bindings)
      → Represents r m
      → replies entries cs r ≡ spec_replies cs m
  unfolding replies
  replies-Represents [] r m h = refl
  replies-Represents (c ∷ cs) r m h =
      let next = call-Represents c r m h in
      ap₂ (λ x xs. x ∷ xs) next.0
        (replies-Represents cs (call entries c r).1 (spec_call c m).1 next.1)

  -- A new registry answers any sequence of messages as the finite map does that starts empty: a
  -- filename is registered once until it is removed, `read` and `remove_predicate` give the entry
  -- that is bound, and only a bound filename is removed.
  pub replies-refine :
      (cs : List (Call entries)) → replies entries cs (new entries) ≡ spec_replies cs (λ f. none)
  unfolding new
  replies-refine cs =
      replies-Represents cs (new entries) (λ f. none) (λ f. unfold read in entries.get-new f)
