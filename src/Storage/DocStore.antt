-- ===== src/Storage/DocStore.antt =====
-- fangorn/src/storage/iroh_docstore.rs and fangorn/src/storage/local_store.rs: documents under the
-- identifier of their content, on an iroh document or in a directory, and plaintext files. The
-- documents of iroh, the file system and the codec of announcements are parameters.
pub mod Contents
pub mod Examples
use fangorn_rs.Prelude.{
  ℕ, ◌≡◌, Bool, true, false, Option, none, some, List, [], ◌∷◌, ◌++◌, ◌==◌, if◌then◌else◌, ℕ-Eq,
  List-Eq, is_some,
}
use fangorn_rs.Rust.Outcome.{Outcome, ok, err, panic, ok_or, unwrap, ◌>>=◌}
use fangorn_rs.Rust.Text.{Text, codes}
use fangorn_rs.Backend.{Backend, AnyError}
use fangorn_rs.Gadget.Codec.{Bytes, Scale, decode_all}
use fangorn_rs.Gadget.Sr25519.{Hex}
use fangorn_rs.Types.{Announcement, doc}
use fangorn_rs.Storage.Cid.{Cids, Data, build_cid}

-- `IrohDocStore`, over a backend whose locations are documents `D`.
module _ (S D : Type 0) (cids : Cids) (codec : Scale Announcement) (failure : Bytes → AnyError)
    (backend : Backend S D Text Bytes) (document : D) where
  abbrev pub added : cids.Cid → Outcome AnyError Bytes × S → Outcome AnyError cids.Cid × S
  added cid (result, s) = (result >>= λ hash. ok cid, s)

  unfoldable pub add : Data → S → Outcome AnyError cids.Cid × S
  unfolding build_cid
  add content s =
      let cid = build_cid cids content in
      let announcement : Announcement = record { tag = doc; payload = content } in
      added cid (backend.write document (cids.to_string cid) (codec.encode announcement) s)

  unfoldable pub fetch : cids.Cid → S → Outcome AnyError (Option Data)
  fetch cid s = do
    found ← backend.read document (cids.to_string cid) none s
    elim found [
      | none ↦ ok none
      | some content ↦ (do
        announcement ← ok_or (decode_all codec content) (failure content)
        ok (some announcement.payload))
    ]

-- The files under their paths. Making a directory that is there is no error.
pub record Files (F : Type 0) : Type 0 where
  pub read_file : F → Text → Option Text
  -- `create_dir_all`
  pub create_dir : F → Text → Option F
  -- create, truncate and write
  pub write_file : F → Text → Text → Option F
  -- `PathBuf::from(dir).join(name)`
  pub join : Text → Text → Text
  pub read-write :
      (f f' : F) (path' text : Text)
      → write_file f path' text ≡ some f'
      → read_file f' path' ≡ some text
  pub read-write_other :
      (f f' : F) (path' other text : Text)
      → write_file f path' text ≡ some f'
      → ¬ (other ≡ path')
      → read_file f' other ≡ read_file f other
  pub read-create_dir :
      (f f' : F) (dir path' : Text)
      → create_dir f dir ≡ some f'
      → read_file f' path' ≡ read_file f path'
  pub join-injective : (dir x y : Text) → join dir x ≡ join dir y → x ≡ y

-- `LocalDocStore`, on files `F`.
module _ (F : Type 0) (files : Files F) (cids : Cids) (hex : Hex) (docs_dir : Text) where
  abbrev pub cid_to_filename : Text → Text
  cid_to_filename cid = files.join docs_dir cid

  abbrev pub written_to : cids.Cid → F → Option F → Outcome AnyError cids.Cid × F
  written_to cid f none = (panic, f)
  written_to cid f (some f') = (ok cid, f')

  -- A directory that cannot be made is an error, and a file that cannot be written is a panic.
  unfoldable pub add_local : Data → F → Outcome AnyError cids.Cid × F
  unfolding build_cid
  add_local content f = elim (files.create_dir f docs_dir) [
    | none ↦ (err (codes "create_dir_all"), f)
    | some f' ↦
        let cid = build_cid cids content in
        written_to cid f'
          (files.write_file f' (cid_to_filename (cids.to_string cid)) (hex.encode content))
  ]

  unfoldable pub fetch_local : cids.Cid → F → Outcome AnyError (Option Data)
  fetch_local cid f = elim (files.read_file f (cid_to_filename (cids.to_string cid))) [
    | none ↦ ok none
    | some ciphertext_hex ↦ (do
      ciphertext_bytes ← unwrap (hex.decode ciphertext_hex)
      ok (some ciphertext_bytes))
  ]

-- `LocalPlaintextStore`. The directory and the name are put together as they are.
module _ (F : Type 0) (files : Files F) (pt_dir : Text) where
  unfoldable pub read_plaintext : Text → F → Outcome AnyError Text
  read_plaintext message_path f = unwrap (files.read_file f message_path)

  abbrev pub saved : F → Option F → Outcome AnyError (Unit {0}) × F
  saved f none = (panic, f)
  saved f (some f') = (ok tt, f')

  unfoldable pub write_plaintext : Text → Text → F → Outcome AnyError (Unit {0}) × F
  write_plaintext filename content f = elim (files.create_dir f pt_dir) [
    | none ↦ (err (codes "create_dir_all"), f)
    | some f' ↦ saved f' (files.write_file f' (pt_dir ++ filename) content)
  ]
