-- ===== src/Contract/Transaction.antt =====
-- Transactions that call a message of a contract through the backend of fangorn/src/backend, and how
-- they settle. This is behaviour of ink! and of the chain that the stores on it rely on.
use fangorn_rs.Prelude.{◌≡◌, refl, ◌⊎◌, inl, inr}
use fangorn_rs.Rust.Outcome.{Outcome, ok, err, ◌>>=◌}
use fangorn_rs.Backend.{Bytes, AnyError}
use fangorn_rs.Contract.Ink

-- A transaction that calls a message, which would give `out` on the state `r`. It succeeds only where
-- the message returns `Ok`, and otherwise the state is as it was.
abbrev pub Settles : {E A R : Type 0} → R → Ink.Result E A × R → Outcome AnyError Bytes × R → Type 0
Settles r out m =
    ((hash : Bytes) × (m.0 ≡ ok hash) × (a : _) × (out ≡ (Ink.ok a, m.1)))
    ⊎ ((text : AnyError) × (m.0 ≡ err text) × (m.1 ≡ r))

-- A write that the store reports as done has run its message, which has returned `Ok`.
pub Settles-done :
    {E A R : Type 0} (r r' : R) (out : Ink.Result E A × R) (m : Outcome AnyError Bytes)
    → Settles r out (m, r')
    → (m >>= λ hash. ok tt) ≡ ok tt
    → (a : A) × (out ≡ (Ink.ok a, r'))
Settles-done r r' out m (inl (hash, e, a, e')) h = (a, e')
Settles-done r r' out m (inr (text, e, e')) h = absurd (cc (rw e at h))

-- A write whose message returns an error fails, and the state is as it was.
pub Settles-refused :
    {E A R : Type 0} (r r' r'' : R) (e : E) (m : Outcome AnyError Bytes)
    → Settles {A = A} r (Ink.err e, r'') (m, r')
    → ((text : AnyError) × ((m >>= λ hash. ok tt) ≡ err text)) × (r' ≡ r)
Settles-refused r r' r'' e m (inl (hash, done, a, e')) = absurd (cc e')
Settles-refused r r' r'' e m (inr (text, failed, kept)) = ((text, rw failed refl), kept)
