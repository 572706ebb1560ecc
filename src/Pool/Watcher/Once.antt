-- ===== src/Pool/Watcher/Once.antt =====
-- The watcher of fangorn/src/pool/watcher.rs sends every request that it polls while it can send, and
-- none twice.
use fangorn_rs.Prelude.{
  ℕ, ◌≡◌, refl, ap, sym, subst, ◌∙◌, Bool, true, false, List, [], ◌∷◌, ◌++◌, map, contains,
  contains-append, length, Distinct, Distinct-push, Bool-cases, ◌⊎◌, inl, inr, ==-refl, ℕ-Eq,
  List-Eq, arith,
}
use fangorn_rs.Rust.Outcome.{Outcome, ok, err}
use fangorn_rs.Backend.{AnyError}
use fangorn_rs.Gadget.Codec.{Bytes}
use fangorn_rs.Pool.{DecryptionRequest}
use fangorn_rs.Pool.Watcher.{
  PollingWatcher, new, stop, Round, reads, reads_last, fails, panics, closed, go_on, offer,
  send_unseen, watch_rounds, watch,
}

map-push :
    (id : DecryptionRequest → Bytes) (l : List DecryptionRequest) (r : DecryptionRequest)
    → map id (l ++ r ∷ []) ≡ map id l ++ id r ∷ []
map-push id [] r = refl
map-push id (x ∷ l) r = ap (λ t. id x ∷ t) (map-push id l r)

module _ (id : DecryptionRequest → Bytes) (is_open : ℕ → Bool) where
  -- While every send succeeds, the ids that were sent are the ones that were seen; none stands twice.
  pub record IsValid (w : PollingWatcher) : Type 0 where
    pub tracked : map id w.sent ≡ w.seen
    pub distinct : Distinct w.seen

  -- The watcher has ended because the receiver was gone at the next request.
  pub record Cut (out : Outcome AnyError (Unit {0}) × PollingWatcher) : Type 0 where
    pub result : out.0 ≡ err closed
    pub gone : is_open (length out.1.sent) ≡ false
    pub distinct : Distinct (map id out.1.sent)

  abbrev pub AllSent : PollingWatcher → List DecryptionRequest → Type 0
  AllSent w [] = Unit {0}
  AllSent w (r ∷ rs) = (contains (map id w.sent) (id r) ≡ true) × AllSent w rs

  -- What was sent before is still there.
  abbrev Later : PollingWatcher → PollingWatcher → Type 0
  Later w w' = (k : Bytes) → contains (map id w.sent) k ≡ true → contains (map id w'.sent) k ≡ true

  AllSent-Later :
      (w w' : PollingWatcher) (rs : List DecryptionRequest)
      → Later w w'
      → AllSent w rs
      → AllSent w' rs
  AllSent-Later w w' [] later h = tt
  AllSent-Later w w' (r ∷ rs) later h = (later (id r) h.0, AllSent-Later w w' rs later h.1)

  AllSent-append :
      (w : PollingWatcher) (rs qs : List DecryptionRequest)
      → AllSent w rs
      → AllSent w qs
      → AllSent w (rs ++ qs)
  AllSent-append w [] qs h k = k
  AllSent-append w (r ∷ rs) qs h k = (h.0, AllSent-append w rs qs h.1 k)

  AllSent-stop :
      (w : PollingWatcher) (rs : List DecryptionRequest) → AllSent w rs → AllSent (stop w) rs
  AllSent-stop w [] h = tt
  AllSent-stop w (r ∷ rs) h = (h.0, AllSent-stop w rs h.1)

  -- What a call that was to send some requests has done, if it was not cut.
  record Sent (w : PollingWatcher) (rs : List DecryptionRequest) (w' : PollingWatcher)
      : Type 0 where
    valid : IsValid w'
    all : AllSent w' rs
    later : Later w w'

  offer_cases :
      (r : DecryptionRequest) (w : PollingWatcher)
      → IsValid w
      → ((w' : PollingWatcher) × (offer id is_open r w ≡ (ok tt, w')) × Sent w (r ∷ []) w')
        ⊎ ((w' : PollingWatcher) × (offer id is_open r w ≡ (err closed, w')) × Cut (err closed, w'))
  unfolding offer
  offer_cases r w v = elim (Bool-cases (contains w.seen (id r))) [
    | inl old ↦
        inl (w, rw old refl, record { valid = v; all = (rw v.tracked old, tt); later = λ k h. h })
    | inr fresh ↦ elim (Bool-cases (is_open (length w.sent))) [
      | inl lives ↦ inl (
        record w { seen = w.seen ++ id r ∷ []; sent = w.sent ++ r ∷ [] },
        rw (fresh, lives) refl,
        record {
          valid = record {
            tracked = map-push id w.sent r ∙ ap (λ l. l ++ id r ∷ []) v.tracked;
            distinct = Distinct-push w.seen (id r) v.distinct fresh;
          };
          all = (
            rw (map-push id w.sent r) (
                ground (arith, contains-append (map id w.sent) (id r ∷ []) (id r), ==-refl (id r))),
            tt,
          );
          later = λ k h.
              rw (map-push id w.sent r)
                (ground (arith, contains-append (map id w.sent) (id r ∷ []) k));
        },
      )
      | inr gone ↦ inr (
        record w { seen = w.seen ++ id r ∷ [] },
        rw (fresh, gone) refl,
        record { result = refl; gone = gone; distinct = rw v.tracked v.distinct },
      )
    ]
  ]

  send_unseen_cases :
      (rs : List DecryptionRequest) (w : PollingWatcher)
      → IsValid w
      → ((w' : PollingWatcher) × (send_unseen id is_open rs w ≡ (ok tt, w')) × Sent w rs w')
        ⊎ ((w' : PollingWatcher) × (send_unseen id is_open rs w ≡ (err closed, w'))
            × Cut (err closed, w'))
  unfolding send_unseen
  send_unseen_cases [] w v = inl (w, refl, record { valid = v; all = tt; later = λ k h. h })
  send_unseen_cases (r ∷ rs) w v = elim (offer_cases r w v) [
    | inr (w', e, cut) ↦ inr (w', ap (λ o. go_on o (send_unseen id is_open rs)) e, cut)
    | inl (w1, e, first) ↦ elim (send_unseen_cases rs w1 first.valid) [
      | inr (w', e', cut) ↦ inr (w', ap (λ o. go_on o (send_unseen id is_open rs)) e ∙ e', cut)
      | inl (w', e', rest) ↦ inl (
        w',
        ap (λ o. go_on o (send_unseen id is_open rs)) e ∙ e',
        record {
          valid = rest.valid;
          all = (rest.later (id r) first.all.0, rest.all);
          later = λ k h. rest.later k (first.later k h);
        },
      )
    ]
  ]

  -- What has become of a call that was to send some requests.
  abbrev Ends :
      PollingWatcher
      → List DecryptionRequest
      → Outcome AnyError (Unit {0}) × PollingWatcher
      → Type 0
  Ends w rs out = Sent w rs out.1 ⊎ Cut out

  -- The requests that the rounds read before the watcher is stopped or a read fails.
  abbrev pub polled : List Round → List DecryptionRequest
  polled [] = []
  polled (reads requests ∷ rounds) = requests ++ polled rounds
  polled (reads_last requests ∷ rounds) = requests
  polled (fails e ∷ rounds) = []
  polled (panics ∷ rounds) = []

  watch_rounds_cases :
      (rounds : List Round) (w : PollingWatcher)
      → IsValid w
      → Ends w (polled rounds) (watch_rounds id is_open rounds w)
  unfolding watch_rounds
  watch_rounds_cases [] w v = inl (record { valid = v; all = tt; later = λ k h. h })
  watch_rounds_cases (reads rs ∷ rounds) w v = elim (send_unseen_cases rs w v) [
    | inr (w', e, cut) ↦
        subst (λ o. Ends w (rs ++ polled rounds) (go_on o (watch_rounds id is_open rounds))) (sym e)
          (inr cut)
    | inl (w1, e, first) ↦
        subst (λ o. Ends w (rs ++ polled rounds) (go_on o (watch_rounds id is_open rounds))) (sym e)
          (elim (watch_rounds_cases rounds w1 first.valid) [
            | inr cut ↦ inr cut
            | inl rest ↦
                let end = (watch_rounds id is_open rounds w1).1 in
                inl (record {
                  valid = rest.valid;
                  all =
                      AllSent-append end rs (polled rounds)
                        (AllSent-Later w1 end rs rest.later first.all) rest.all;
                  later = λ k h. rest.later k (first.later k h);
                })
          ])
  ]
  watch_rounds_cases (reads_last rs ∷ rounds) w v = elim (send_unseen_cases rs w v) [
    | inr (w', e, cut) ↦
        subst (λ o. Ends w rs (o.0, stop o.1)) (sym e)
          (inr (record { result = refl; gone = cut.gone; distinct = cut.distinct }))
    | inl (w', e, sent) ↦
        subst (λ o. Ends w rs (o.0, stop o.1)) (sym e)
          (inl (record {
            valid = record { tracked = sent.valid.tracked; distinct = sent.valid.distinct };
            all = AllSent-stop w' rs sent.all;
            later = sent.later;
          }))
  ]
  watch_rounds_cases (fails e ∷ rounds) w v = inl (record { valid = v; all = tt; later = λ k h. h })
  watch_rounds_cases (panics ∷ rounds) w v = inl (record { valid = v; all = tt; later = λ k h. h })

  -- Whatever the polls return and whenever the receiver goes, a new watcher sends no two requests with
  -- one id. It sends one with the id of every request that the polls return before it is stopped or a
  -- read fails, unless it ends with the error of a closed channel, and then the receiver is gone behind
  -- the requests that it has sent.
  pub watch-once :
      (rounds : List Round)
      → Distinct (map id (watch id is_open rounds new).1.sent)
        × (AllSent (watch id is_open rounds new).1 (polled rounds)
            ⊎ (((watch id is_open rounds new).0 ≡ err closed)
                × (is_open (length (watch id is_open rounds new).1.sent) ≡ false)))
  unfolding watch
  watch-once rounds =
      elim (watch_rounds_cases rounds (record new { running = true })
        (record { tracked = refl; distinct = tt })) [
          | inl sent ↦ (rw sent.valid.tracked sent.valid.distinct, inl sent.all)
          | inr cut ↦ (cut.distinct, inr (cut.result, cut.gone))
        ]
