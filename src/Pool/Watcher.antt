-- ===== src/Pool/Watcher.antt =====
-- fangorn/src/pool/watcher.rs: the watcher that polls a pool and sends on what is new. Its channel is
-- unbounded; its receiver is the worker of fangorn/src/node/service.rs, which may be gone.
pub mod Once
use fangorn_rs.Prelude.{
  ℕ, Bool, true, false, List, [], ◌∷◌, ◌++◌, contains, length, if◌then◌else◌, ℕ-Eq, List-Eq,
}
use fangorn_rs.Rust.Outcome.{Outcome, ok, err, panic}
use fangorn_rs.Rust.Text.{codes}
use fangorn_rs.Backend.{AnyError}
use fangorn_rs.Gadget.Codec.{Bytes}
use fangorn_rs.Pool.{DecryptionRequest}

-- `seen` is a set, here in the order of insertion, and `sent` is what the channel has been given.
pub record PollingWatcher : Type 0 where
  pub running : Bool
  pub seen : List Bytes
  pub sent : List DecryptionRequest

abbrev pub new : PollingWatcher
new = record { running = false; seen = []; sent = [] }

abbrev pub stop : PollingWatcher → PollingWatcher
stop w = record w { running = false }

-- A poll of the pool: what `read_all` returns, and whether the watcher is stopped before the next poll.
pub data Round : Type 0 where
  reads reads_last : List DecryptionRequest → Round
  fails : AnyError → Round
  panics : Round

-- The error of `tx.send` on a closed channel.
abbrev pub closed : AnyError
closed = codes "sending on a closed channel"

-- What follows a call: an error and a panic end the watcher.
abbrev pub go_on :
    Outcome AnyError (Unit {0}) × PollingWatcher
    → (PollingWatcher → Outcome AnyError (Unit {0}) × PollingWatcher)
    → Outcome AnyError (Unit {0}) × PollingWatcher
go_on (ok done, w) next = next w
go_on (err e, w) next = (err e, w)
go_on (panic, w) next = (panic, w)

-- `is_open n` says whether the receiver lives when a request is sent behind `n` others.
module _ (id : DecryptionRequest → Bytes) (is_open : ℕ → Bool) where
  -- `if seen.insert(req.id()) { tx.send(req)?; }`
  unfoldable pub offer :
      DecryptionRequest → PollingWatcher → Outcome AnyError (Unit {0}) × PollingWatcher
  offer req w =
      if contains w.seen (id req)
      then (ok tt, w)
      else if is_open (length w.sent)
      then (ok tt, record w { seen = w.seen ++ id req ∷ []; sent = w.sent ++ req ∷ [] })
      else (err closed, record w { seen = w.seen ++ id req ∷ [] })

  -- The loop over the requests of one poll.
  unfoldable pub send_unseen :
      List DecryptionRequest → PollingWatcher → Outcome AnyError (Unit {0}) × PollingWatcher
  unfolding offer
  send_unseen [] w = (ok tt, w)
  send_unseen (req ∷ requests) w = go_on (offer req w) (send_unseen requests)

  -- The loop while the watcher runs, over the rounds that it goes through. A failed read and a failed
  -- send end it.
  unfoldable pub watch_rounds :
      List Round → PollingWatcher → Outcome AnyError (Unit {0}) × PollingWatcher
  unfolding send_unseen
  watch_rounds [] w = (ok tt, w)
  watch_rounds (reads requests ∷ rounds) w = go_on (send_unseen requests w) (watch_rounds rounds)
  watch_rounds (reads_last requests ∷ rounds) w =
      let out = send_unseen requests w in (out.0, stop out.1)
  watch_rounds (fails e ∷ rounds) w = (err e, w)
  watch_rounds (panics ∷ rounds) w = (panic, w)

  unfoldable pub watch : List Round → PollingWatcher → Outcome AnyError (Unit {0}) × PollingWatcher
  unfolding watch_rounds
  watch rounds w = watch_rounds rounds (record w { running = true })
