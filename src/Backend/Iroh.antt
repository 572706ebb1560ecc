-- ===== src/Backend/Iroh.antt =====
-- fangorn/src/backend/iroh.rs: the backend of iroh documents. Documents and blobs are parameters.
use fangorn_rs.Prelude.{◌≡◌, refl, Option, none, some}
use fangorn_rs.Rust.Outcome.{Outcome, ok, ◌>>=◌}
use fangorn_rs.Rust.Text.{Text, as_bytes}
use fangorn_rs.Backend.{Bytes, AnyError, Backend}

-- Documents `D` in a replica in state `S`, and the blobs that their entries name by a hash.
pub record Replica (S D : Type 0) : Type 0 where
  -- the content hash of the entry with exactly this key
  pub get_one : D → Text → S → Outcome AnyError (Option Bytes)
  pub get_bytes : Bytes → S → Outcome AnyError Bytes
  -- `set_bytes` of the default author, and the hash of the value
  pub set_bytes : D → Bytes → Bytes → S → Outcome AnyError Bytes × S
  pub get_one-set_bytes :
      (d : D) (key : Text) (value hash : Bytes) (s s' : S)
      → set_bytes d (as_bytes key) value s ≡ (ok hash, s')
      → (get_one d key s' ≡ ok (some hash)) × (get_bytes hash s' ≡ ok value)

module _ (S D : Type 0) (replica : Replica S D) where
  abbrev pub content_of : S → Option Bytes → Outcome AnyError (Option Bytes)
  content_of s none = ok none
  content_of s (some hash) = do content ← replica.get_bytes hash s; ok (some content)

  unfoldable pub read : D → Text → Option Bytes → S → Outcome AnyError (Option Bytes)
  read doc key extras s = do entry ← replica.get_one doc key s; content_of s entry

  unfoldable pub write : D → Text → Bytes → S → Outcome AnyError Bytes × S
  write doc key value s = replica.set_bytes doc (as_bytes key) value s

  abbrev pub iroh_backend : Backend S D Text Bytes
  iroh_backend = record { read = read; write = write }

  -- What was written under a key is read back.
  pub read-write :
      (doc : D) (key : Text) (value hash : Bytes) (s s' : S)
      → write doc key value s ≡ (ok hash, s')
      → read doc key none s' ≡ ok (some value)
  unfolding read write
  read-write doc key value hash s s' h =
      let (entry, content) = replica.get_one-set_bytes doc key value hash s s' h in
      rw (entry, content) refl
