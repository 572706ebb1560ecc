-- ===== src/Service/Documents.antt =====
-- fangorn/src/node/service.rs: the shared document through which nodes exchange their configuration
-- and their hints, and the channel of announcements to a node's own state. Iroh's documents are a
-- parameter, whose entries are the contents of the blobs that they name, and whose writes succeed.
use fangorn_rs.Prelude.{
  ℕ, suc, zero, ◌-◌, ◌%◌, ◌^◌, ◌≡◌, Bool, true, false, Option, some, List, [], ◌∷◌, ◌++◌,
}
use fangorn_rs.Rust.Outcome.{Outcome, ok, unwrap, ◌>>=◌}
use fangorn_rs.Rust.Text.{Text}
use fangorn_rs.Rust.Decimal.{show_ℕ}
use fangorn_rs.Backend.{AnyError}
use fangorn_rs.Gadget.Codec.{Bytes, Scale, decode_all}
use fangorn_rs.Types.{Announcement, config, hint, config_key}

-- `iroh_docs::api::Doc` in state `D`: the content of the entry with a key, and `set_bytes`.
pub record Docs (D : Type 0) : Type 0 where
  pub get : D → Text → Option Bytes
  pub set_bytes : D → Text → Bytes → D
  pub get-set_bytes : (d : D) (key : Text) (b : Bytes) → get (set_bytes d key b) key ≡ some b
  pub get-set_bytes_other :
      (d : D) (key other : Text) (b : Bytes)
      → ¬ (other ≡ key)
      → get (set_bytes d key b) other ≡ get d other

-- A document, and the announcements that the channel has been given, oldest first.
pub record Shared (D : Type 0) : Type 0 where
  pub doc : D
  pub tx : List Announcement

module _ (D : Type 0) (docs : Docs D) (codec : Scale Announcement) where
  abbrev pub send : Announcement → Shared D → Shared D
  send a s = record s { tx = s.tx ++ a ∷ [] }

  -- `entry[0]`, its content, and the announcement in it: anything missing is a panic.
  abbrev pub load : Option Bytes → Shared D → Outcome AnyError (Shared D)
  load content s = do
    bytes ← unwrap content
    announcement ← unwrap (decode_all codec bytes)
    ok (send announcement s)

  unfoldable pub load_and_distribute_config : Shared D → Outcome AnyError (Shared D)
  load_and_distribute_config s = load (docs.get s.doc config_key) s

  -- The loop over the `count` indices from `i` on.
  unfoldable pub load_hints : ℕ → ℕ → Shared D → Outcome AnyError (Shared D)
  load_hints zero i s = ok s
  load_hints (suc count) i s = do
    s' ← load (docs.get s.doc (show_ℕ i)) s
    load_hints count (suc i) s'

  -- `for i in 1..(our_index as u32)`
  unfoldable pub load_previous_hints : ℕ → Shared D → Outcome AnyError (Shared D)
  unfolding load_hints
  load_previous_hints our_index s = load_hints (our_index % 2 ^ 32 - 1) 1 s

  -- `pk` is the node's serialized public key, `none` where no config has arrived.
  unfoldable pub publish_node_hint : Option Bytes → ℕ → Shared D → Outcome AnyError (Shared D)
  publish_node_hint pk index s = do
    pk_bytes ← unwrap pk
    let hint_announcement : Announcement = record { tag = hint; payload = pk_bytes }
    ok (record {
      doc = docs.set_bytes s.doc (show_ℕ index) (codec.encode hint_announcement);
      tx = s.tx ++ hint_announcement ∷ [];
    })

  -- A bootstrap node makes a document, here `fresh`, with the config that it has generated. Another
  -- node imports the document of its ticket, `none` where it has no ticket that can be imported.
  unfoldable pub setup_document_stream : Bool → Bytes → D → Option D → Outcome AnyError (Shared D)
  setup_document_stream true config_bytes fresh ticket =
      let config_announcement : Announcement = record { tag = config; payload = config_bytes } in
      ok (record {
        doc = docs.set_bytes fresh config_key (codec.encode config_announcement);
        tx = config_announcement ∷ [];
      })
  setup_document_stream false config_bytes fresh ticket = do
    doc_stream ← unwrap ticket
    ok (record { doc = doc_stream; tx = [] })
