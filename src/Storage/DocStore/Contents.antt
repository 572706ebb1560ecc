-- ===== src/Storage/DocStore/Contents.antt =====
-- The document stores of fangorn/src/storage give back what was added.
use fangorn_rs.Prelude.{
  ◌≡◌, refl, ap, sym, ◌∙◌, Option, none, some, ◌++◌, Option-cases, inl, inr, arith, ℕ-Eq, List-Eq,
}
use fangorn_rs.Rust.Outcome.{ok, >>=-eq-ok}
use fangorn_rs.Rust.Text.{Text}
use fangorn_rs.Backend.{Backend, AnyError}
use fangorn_rs.Gadget.Codec.{Bytes, Scale, decode_all-encode}
use fangorn_rs.Gadget.Sr25519.{Hex}
use fangorn_rs.Types.{Announcement, doc}
use fangorn_rs.Storage.Cid.{Cids, Data, build_cid}
use fangorn_rs.Storage.DocStore.{
  add, fetch, Files, add_local, fetch_local, written_to, read_plaintext, write_plaintext, saved,
}

-- A backend on which a write that succeeded is read back.
abbrev pub ReadsBack : {S D : Type 0} → Backend S D Text Bytes → D → Type 0
ReadsBack {S} backend document =
    (key : Text) (value hash : Bytes) (s s' : S)
    → backend.write document key value s ≡ (ok hash, s')
    → backend.read document key none s' ≡ ok (some value)

module _ (S D : Type 0) (cids : Cids) (codec : Scale Announcement) (failure : Bytes → AnyError)
    (backend : Backend S D Text Bytes) (document : D) where
  -- A document that was added to the shared store is fetched under the cid that adding it returned,
  -- which is the cid of its content, on a backend that reads back what was written.
  pub fetch-add :
      (content : Data) (cid : cids.Cid) (s s' : S)
      → ReadsBack backend document
      → add S D cids codec failure backend document content s ≡ (ok cid, s')
      → (cid ≡ build_cid cids content)
        × (fetch S D cids codec failure backend document cid s' ≡ ok (some content))
  unfolding add fetch
  fetch-add content cid s s' reads h =
      let own = build_cid cids content in
      let key = cids.to_string own in
      let value = codec.encode (record { tag = doc; payload = content }) in
      let (hash, sent, same) =
        >>=-eq-ok (backend.write document key value s).0 (λ hash. ok own) (ap (λ p. p.0) h) in
      let e : own ≡ cid = ground (arith, same) in
      let found = reads key value hash s s' (λ i. (sent i, (h i).1)) in
      (
        sym e,
        rw (sym e, found, decode_all-encode codec (record { tag = doc; payload = content })) refl,
      )

module _ (F : Type 0) (files : Files F) (cids : Cids) (hex : Hex) (docs_dir : Text) where
  written-eq-ok :
      (c cid : cids.Cid) (f f' : F) (o : Option F)
      → written_to F files cids hex docs_dir c f o ≡ (ok cid, f')
      → (o ≡ some f') × (c ≡ cid)
  written-eq-ok c cid f f' none h = absurd (cc (ap (λ p. p.0) h))
  written-eq-ok c cid f f' (some g) h = ground (arith, h)

  -- A successful addition made the directory, and wrote the hex text of the content to its file.
  add_local-eq-ok :
      (content : Data) (cid : cids.Cid) (f f' : F)
      → add_local F files cids hex docs_dir content f ≡ (ok cid, f')
      → (made : F) × (files.create_dir f docs_dir ≡ some made)
        × (files.write_file made
              (files.join docs_dir (cids.to_string (build_cid cids content)))
              (hex.encode content)
            ≡ some f')
        × (build_cid cids content ≡ cid)
  unfolding add_local build_cid
  add_local-eq-ok content cid f f' h = elim (Option-cases (files.create_dir f docs_dir)) [
    | inl e ↦ absurd (cc (ap (λ p. p.0) (rw (add_local, e) at h)))
    | inr (made, e) ↦
        let (wrote, own) =
          written-eq-ok (build_cid cids content) cid made f' _ (rw (add_local, e) at h) in
        (made, e, wrote, own)
  ]

  -- Adding a document to a local store makes it the content of its cid, and another document that was
  -- the content of its own cid still is, unless the two cids collide.
  pub fetch_local-add_local :
      (content other : Data) (cid : cids.Cid) (f f' : F)
      → add_local F files cids hex docs_dir content f ≡ (ok cid, f')
      → ¬ (build_cid cids other ≡ build_cid cids content)
      → fetch_local F files cids hex docs_dir (build_cid cids other) f ≡ ok (some other)
      → (fetch_local F files cids hex docs_dir cid f' ≡ ok (some content))
        × (fetch_local F files cids hex docs_dir (build_cid cids other) f' ≡ ok (some other))
  unfolding add_local fetch_local
  fetch_local-add_local content other cid f f' h apart was =
      let (made, dir, wrote, own) = add_local-eq-ok content cid f f' h in
      let path' = files.join docs_dir (cids.to_string (build_cid cids content)) in
      let other_path = files.join docs_dir (cids.to_string (build_cid cids other)) in
      let found = files.read-write made f' path' (hex.encode content) wrote in
      let kept =
        files.read-write_other made f' path' other_path (hex.encode content) wrote
          (λ e. apart (cids.to_string-injective _ _ (files.join-injective docs_dir _ _ e)))
        ∙ files.read-create_dir f made docs_dir other_path dir in
      (rw (sym own, fetch_local, found, hex.decode-encode content) refl, rw (fetch_local, kept) was)

module _ (F : Type 0) (files : Files F) (pt_dir : Text) where
  saved-eq-ok : (f f' : F) (o : Option F) → saved F files pt_dir f o ≡ (ok tt, f') → o ≡ some f'
  saved-eq-ok f f' none h = absurd (cc (ap (λ p. p.0) h))
  saved-eq-ok f f' (some g) h = ground (arith, h)

  -- A plaintext that was written is read back from the directory's name followed by the filename.
  pub read_plaintext-write_plaintext :
      (filename content : Text) (f f' : F)
      → write_plaintext F files pt_dir filename content f ≡ (ok tt, f')
      → read_plaintext F files pt_dir (pt_dir ++ filename) f' ≡ ok content
  unfolding write_plaintext read_plaintext
  read_plaintext-write_plaintext filename content f f' h =
      elim (Option-cases (files.create_dir f pt_dir)) [
        | inl e ↦ absurd (cc (ap (λ p. p.0) (rw (write_plaintext, e) at h)))
        | inr (made, e) ↦
            let wrote =
              saved-eq-ok made f' (files.write_file made (pt_dir ++ filename) content)
                (rw (write_plaintext, e) at h) in
            rw (files.read-write made f' (pt_dir ++ filename) content wrote) refl
      ]
