-- ===== src/Client.antt =====
-- fangorn/src/client/node.rs: how a client receives a partial decryption. The connection, the codec and
-- the threshold encryption are parameters.
use fangorn_rs.Prelude.{
  ℕ, ◌≡◌, refl, true, ◌≤◌, ◌*◌, Option, some, List, [], ◌∷◌, ◌++◌, length, leb, if◌then◌else◌,
  arith,
}
use fangorn_rs.Rust.Outcome.{Outcome, ok, panic, unwrap, ◌>>=◌}
use fangorn_rs.Backend.{AnyError}
use fangorn_rs.Gadget.Codec.{Bytes, Scale, decode_all, decode_all-encode}
use fangorn_rs.Pool.{PartialDecryptionMessage}

-- `PD` is the type of partial decryptions.
pub record RawPartialDecryptionMessage (PD : Type 0) : Type 0 where
  pub filename : Bytes
  pub index : ℕ
  pub partial_decryption : PD

-- What the handler does with a connection: the channel's contents, and what it writes back.
pub record Accepted (PD : Type 0) : Type 0 where
  pub tx : List (RawPartialDecryptionMessage PD)
  pub echo : Bytes

module _ (PD : Type 0) (message : Scale PartialDecryptionMessage)
    (deserialize : Bytes → Option PD) where
  -- `accept`: at most 2^20 bytes are read, and whatever does not decode is a panic.
  unfoldable pub accept :
      Bytes → List (RawPartialDecryptionMessage PD) → Outcome AnyError (Accepted PD)
  accept received tx =
      if leb (length received) (1024 * 1024)
      then (do
        msg ← unwrap (decode_all message received)
        partial ← unwrap (deserialize msg.partial_decryption_bytes)
        let raw : RawPartialDecryptionMessage PD = record {
          filename = msg.filename;
          index = msg.index;
          partial_decryption = partial;
        }
        ok (record { tx = tx ++ raw ∷ []; echo = received }))
      else panic

  -- A message of a node that is no longer than 2^20 bytes is put into the channel as it was meant, and
  -- echoed to the node.
  pub accept-encode :
      (m : PartialDecryptionMessage) (pd : PD) (tx : List (RawPartialDecryptionMessage PD))
      → length (message.encode m) ≤ 1024 * 1024
      → deserialize m.partial_decryption_bytes ≡ some pd
      → accept (message.encode m) tx
        ≡ ok (record {
          tx =
              tx ++ record { filename = m.filename; index = m.index; partial_decryption = pd } ∷ [];
          echo = message.encode m;
        })
  unfolding accept
  accept-encode m pd tx short known =
      let fits : leb (length (message.encode m)) (1024 * 1024) ≡ true = ground (arith, short) in
      rw (fits, decode_all-encode message m, known) refl
