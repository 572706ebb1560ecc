-- ===== src/Contract/PredicateRegistry/Examples.antt =====
-- The registry of contract/predicate-registry/lib.rs on concrete messages.
use fangorn_rs.Prelude.{◌≡◌, refl, none, List, [], ◌∷◌, is_some, if◌then◌else◌, ℕ-Eq, List-Eq}
use fangorn_rs.Contract.Ink.{Mapping, ok, err, function_mapping}
use fangorn_rs.Contract.PredicateRegistry.{
  Filename, Entry, Call, registers, reads, removes, registered, found, removed, new, read, read_all,
  forget, run, replies, call, register_predicate, remove_predicate, filename_already_exists,
}
use fangorn_rs.Contract.PredicateRegistry.Names.{position, swap_remove, count}
use fangorn_rs.Contract.PredicateRegistry.Laws.{listed_once}
use fangorn_rs.Contract.PredicateRegistry.Refinement.{spec_replies, replies-refine}

abbrev entries : Mapping Filename Entry
entries = function_mapping

abbrev report : Filename
report = 1 ∷ []

abbrev photo : Filename
photo = 2 ∷ []

abbrev calls : List (Call entries)
calls =
    registers report (7 ∷ []) (8 ∷ [])
    ∷ registers photo (9 ∷ []) []
    ∷ registers report [] []
    ∷ removes report
    ∷ reads report
    ∷ []

calls-replies :
    replies entries calls (new entries)
    ≡ registered (ok tt)
      ∷ registered (ok tt)
      ∷ registered (err filename_already_exists)
      ∷ removed (ok (record { cid = 7 ∷ []; predicate = 8 ∷ [] }))
      ∷ found none
      ∷ []
unfolding replies call new register_predicate remove_predicate read
calls-replies = refl

calls_names : read_all entries (run entries calls (new entries)) ≡ photo ∷ []
unfolding read_all run call new register_predicate remove_predicate forget position swap_remove
calls_names = refl

listed_once_example :
    let r = run entries calls (new entries) in
    count photo (read_all entries r) ≡ (if is_some (read entries photo r) then 1 else 0)
listed_once_example = listed_once entries calls photo

replies-refine_example :
    replies entries calls (new entries) ≡ spec_replies entries calls (λ f. none)
replies-refine_example = replies-refine entries calls
