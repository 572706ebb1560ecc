-- ===== src/Contract/PredicateRegistry/Laws.antt =====
-- contract/predicate-registry/lib.rs is a finite map with a listing of its keys.
use mathlib.Core.List.{Perm}
use fangorn_rs.Prelude.{
  ℕ, ◌+◌, ◌≡◌, sym, some, List, [], ◌∷◌, arith, is_some, if◌then◌else◌, ◌==◌, list_eq_iff,
  Bool-cases, Option-cases, inl, inr, ℕ-Eq, List-Eq,
}
use fangorn_rs.Contract.Ink.{Bytes, Mapping}
use fangorn_rs.Contract.PredicateRegistry.{
  Filename, Cid, Entry, PredicateRegistry, new, register_predicate, read, read_all, forget,
  remove_predicate, Call, registers, removes, reads, call, run,
}
use fangorn_rs.Contract.PredicateRegistry.Names.{
  position, swap_remove-perm, count, count-perm, count-append, position-get, position-none,
}

-- A listed name goes, and every other name stays, in some order.
pub forget-perm :
    (f : Filename) (names : List Filename) (i : ℕ)
    → position f names ≡ some i
    → Perm (f ∷ forget f names) names
unfolding forget
forget-perm f [] i h = unfold position in cc
forget-perm f (x ∷ xs) i h =
    rw (h, forget) (swap_remove-perm x xs f i (position-get f (x ∷ xs) i h))

pub count-forget :
    (f b : Filename) (names : List Filename)
    → count f names ≡ 1
    → count b names ≡ (if f == b then 1 else 0) + count b (forget f names)
count-forget f b names h = elim (Option-cases (position f names)) [
  | inl e ↦ absurd (omega (arith, position-none f names e))
  | inr (i, e) ↦ sym (count-perm b (forget-perm f names i e))
]

module _ (entries : Mapping Filename Entry) where
  -- A name is listed once if it has an entry, and else not at all.
  pub record IsValid (r : PredicateRegistry entries) : Type 0 where
    pub listed :
        (f : Filename)
        → count f r.filenames ≡ (if is_some (entries.get r.predicate_registry f) then 1 else 0)

  new-IsValid : IsValid (new entries)
  unfolding new
  new-IsValid = record { listed = λ f. ground (arith, entries.get-new f) }

  register-IsValid :
      (f : Filename) (c : Cid) (b : Bytes) (r : PredicateRegistry entries)
      → IsValid r
      → IsValid (register_predicate entries f c b r).1
  unfolding register_predicate
  register-IsValid f c b r v = elim (Bool-cases (entries.contains r.predicate_registry f)) [
    | inl old ↦ rw old v
    | inr fresh ↦ rw fresh (record {
      listed = λ g. rw entries.get-insert (
          ground (
            arith,
            v.listed g,
            count-append g r.filenames (f ∷ []),
            list_eq_iff f g,
            entries.contains-get r.predicate_registry f,
            fresh,
          ));
    })
  ]

  remove-IsValid :
      (f : Filename) (r : PredicateRegistry entries)
      → IsValid r
      → IsValid (remove_predicate entries f r).1
  unfolding remove_predicate
  remove-IsValid f r v = elim (Option-cases (entries.get r.predicate_registry f)) [
    | inl e ↦
        rw (entries.take-get, e, remove_predicate)
          (record {
            listed = λ g. rw entries.get-take (ground (arith, v.listed g, list_eq_iff f g, e));
          })
    | inr (entry, e) ↦
        rw (entries.take-get, e, remove_predicate)
          (record {
            listed = λ g. rw entries.get-take (
                ground (
                  arith,
                  v.listed g,
                  v.listed f,
                  count-forget f g r.filenames,
                  list_eq_iff f g,
                  e,
                ));
          })
  ]

  call-IsValid :
      (c : Call entries) (r : PredicateRegistry entries) → IsValid r → IsValid (call entries c r).1
  unfolding call
  call-IsValid (registers f c b) r v = register-IsValid f c b r v
  call-IsValid (reads f) r v = v
  call-IsValid (removes f) r v = remove-IsValid f r v

  pub run-IsValid :
      (cs : List (Call entries)) (r : PredicateRegistry entries)
      → IsValid r
      → IsValid (run entries cs r)
  unfolding run
  run-IsValid [] r v = v
  run-IsValid (c ∷ cs) r v = run-IsValid cs (call entries c r).1 (call-IsValid c r v)

  -- After any messages to a new registry, `read_all` lists each filename that `read` finds exactly
  -- once, and no other filename.
  pub listed_once :
      (cs : List (Call entries)) (f : Filename)
      → let r = run entries cs (new entries) in
        count f (read_all entries r) ≡ (if is_some (read entries f r) then 1 else 0)
  unfolding read_all read
  listed_once cs f = (run-IsValid cs (new entries) new-IsValid).listed f
