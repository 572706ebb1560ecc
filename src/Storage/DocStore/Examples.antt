-- ===== src/Storage/DocStore/Examples.antt =====
-- The document stores of fangorn/src/storage on concrete documents: an iroh document is a
-- function from keys.
use fangorn_rs.Prelude.{◌≡◌, refl, ap, sym, ◌∙◌, some, [], ◌∷◌, ℕ-Eq, List-Eq}
use fangorn_rs.Fixtures.{bytes_scale, announcement_scale}
use fangorn_rs.Fixtures.Vaults.{Entries, put, put-own, no_entries}
use fangorn_rs.Rust.Outcome.{ok}
use fangorn_rs.Rust.Text.{Text}
use fangorn_rs.Backend.{Backend}
use fangorn_rs.Gadget.Codec.{Bytes, Scale}
use fangorn_rs.Types.{Announcement}
use fangorn_rs.Storage.Cid.{Cids, build_cid}
use fangorn_rs.Storage.DocStore.{add, fetch}
use fangorn_rs.Storage.DocStore.Contents.{ReadsBack, fetch-add}

abbrev cids : Cids
cids = record {
  Cid = Bytes;
  sha2_256 = λ b. b;
  new_v1 = λ codec hash. codec ∷ hash;
  to_bytes = λ c. c;
  try_from = λ b. some b;
  to_string = λ c. c;
  try_from-to_bytes = λ c. refl;
  to_string-injective = λ c d e. e;
}

abbrev backend : Backend Entries (Unit {0}) Text Bytes
backend = record {
  read = λ document key extras v. ok (v key);
  write = λ document key value v. (ok key, put v key value);
}

reads_back : ReadsBack backend tt
reads_back key value hash s s' h = ap (λ p. ok (p.1 key)) (sym h) ∙ ap ok (put-own s key value)

abbrev codec : Scale Announcement
codec = announcement_scale bytes_scale

fetch-add_example :
    (build_cid cids (7 ∷ []) ≡ build_cid cids (7 ∷ []))
    × (fetch Entries
          (Unit {0})
          cids
          codec
          (λ b. b)
          backend
          tt
          (build_cid cids (7 ∷ []))
          (put no_entries (85 ∷ 7 ∷ []) (2 ∷ 1 ∷ 7 ∷ []))
        ≡ ok (some (7 ∷ [])))
unfolding add build_cid
fetch-add_example =
    fetch-add Entries (Unit {0}) cids codec (λ b. b) backend tt (7 ∷ []) (build_cid cids (7 ∷ []))
      no_entries (put no_entries (85 ∷ 7 ∷ []) (2 ∷ 1 ∷ 7 ∷ [])) reads_back refl
