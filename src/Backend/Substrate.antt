-- ===== src/Backend/Substrate.antt =====
-- fangorn/src/backend/substrate.rs: the backend of contracts on a substrate chain. The client of the
-- chain and BLAKE2 are parameters.
use fangorn_rs.Prelude.{ℕ, ◌-◌, ◌^◌, min, Option, some, [], ◌++◌, take, unwrap_or}
use fangorn_rs.Rust.Outcome.{Outcome, ok, err, unwrap, ◌>>=◌}
use fangorn_rs.Rust.Text.{Text, codes, as_bytes}
use fangorn_rs.Backend.{Bytes, AnyError, Backend}

-- What a dry run of a contract call gives: the data that it returns, or an error, as its text.
pub data ExecResult : Type 0 where
  returned : Bytes → ExecResult
  failed : Text → ExecResult

-- `subxt::OnlineClient` on a chain in state `S`, for the account of the signer.
pub record Client (S : Type 0) : Type 0 where
  -- `runtime_api().at_latest().call(..)` of a contract with call data
  pub query : Bytes → Bytes → S → Outcome AnyError ExecResult
  -- `sign_and_submit_then_watch_default` and `wait_for_finalized_success`: the extrinsic's hash
  pub submit : Bytes → Bytes → S → Outcome AnyError Bytes × S
  -- the nonce of `storage().system().account(..)`, if the account is there
  pub account_nonce : Bytes → S → Outcome AnyError (Option ℕ)
  pub blake2_256 : Bytes → Bytes

module _ (S : Type 0) (client : Client S) where
  -- The first four bytes of the hash of the method's name.
  unfoldable pub selector : Text → Bytes
  selector name = take 4 (client.blake2_256 (as_bytes name))

  -- A nonce beyond a u32 becomes the largest one.
  unfoldable pub nonce : Bytes → S → Outcome AnyError ℕ
  nonce pubkey s = do
    account ← client.account_nonce pubkey s
    nonce ← unwrap account
    ok (min nonce (2 ^ 32 - 1))

  abbrev pub exec_data : ExecResult → Outcome AnyError (Option Bytes)
  exec_data (returned b) = ok (some b)
  exec_data (failed e) = err (codes "Contract query failed: " ++ e)

  unfoldable pub read : Bytes → Text → Option Bytes → S → Outcome AnyError (Option Bytes)
  unfolding selector
  read contract_address method input s = do
    result ← client.query contract_address (selector method ++ unwrap_or input []) s
    exec_data result

  unfoldable pub write : Bytes → Text → Bytes → S → Outcome AnyError Bytes × S
  unfolding selector
  write contract_address method input s =
      client.submit contract_address (selector method ++ input) s

  abbrev pub substrate_backend : Backend S Bytes Text Bytes
  substrate_backend = record { read = read; write = write }
