-- ===== src/Backend.antt =====
-- fangorn/src/backend/mod.rs: the interface of a key-value backend with contract-like semantics.
-- A read or a write runs in a state `S` and may change it.
pub mod Substrate
pub mod Iroh
use fangorn_rs.Prelude.{ℕ, Option, List}
use fangorn_rs.Rust.Outcome.{Outcome}
use fangorn_rs.Rust.Text.{Text}

abbrev pub Bytes : Type 0
Bytes = List ℕ

-- `anyhow::Error`, as its text.
abbrev pub AnyError : Type 0
AnyError = Text

pub record Backend (S L K V : Type 0) : Type 0 where
  pub read : L → K → Option V → S → Outcome AnyError (Option Bytes)
  pub write : L → K → V → S → Outcome AnyError Bytes × S
