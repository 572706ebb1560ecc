-- ===== src/Storage/Cid.antt =====
-- Content identifiers, of the crates cid and multihash_codetable, which are parameters.
use fangorn_rs.Prelude.{ℕ, ◌≡◌, Option, some, List}
use fangorn_rs.Rust.Text.{Text}

-- `fangorn/src/storage/mod.rs`: the raw data type for storage.
abbrev pub Data : Type 0
Data = List ℕ

pub record Cids : Type 1 where
  pub Cid : Type 0
  -- `Code::Sha2_256.digest`
  pub sha2_256 : Data → List ℕ
  -- `Cid::new_v1`
  pub new_v1 : ℕ → List ℕ → Cid
  pub to_bytes : Cid → List ℕ
  pub try_from : List ℕ → Option Cid
  pub to_string : Cid → Text
  pub try_from-to_bytes : (c : Cid) → try_from (to_bytes c) ≡ some c
  pub to_string-injective : (c d : Cid) → to_string c ≡ to_string d → c ≡ d

-- The codec for generating CIDs.
abbrev pub raw : ℕ
raw = 85

-- The same function in both document stores.
unfoldable pub build_cid : (cids : Cids) → Data → cids.Cid
build_cid cids data' = cids.new_v1 raw (cids.sha2_256 data')
