-- ===== src/Outbox/Transaction/Outcomes.antt =====
-- How a managed transaction ends, whatever the client, the callback and the operations do.
use mathlib.Core.Path.{subst}
use bettter_nest_mq.Prelude.{
  ℕ, ◌≡◌, ◌≢◌, inl, inr, refl, sym, ap, ◌∙◌, Bool, true, false, Option, none, some, List, [], ◌∷◌,
  ◌++◌, Failure, err, is_some, Bool-cases,
}
use bettter_nest_mq.Outbox.Transaction.{
  begin, commit, rollback, release, Outcome, returned, calling, done, Transaction, Event, completed,
  start, conclude, run,
}
use bettter_nest_mq.Outbox.Transaction.Invariant.{
  sent, Committed, Shape, IsSound, start-IsSound, run-IsSound,
}
use bettter_nest_mq.Outbox.Transaction.Replies.{
  CommitAnswered, committed-CommitAnswered, CommitAnswered-committed, run-append,
}
use bettter_nest_mq.Outbox.Transaction.Poison.{IsPoisoned, failed-IsPoisoned, run_cons-IsPoisoned}

conclude-returned :
    (cleanup : List Failure) (primary : Option Failure) (committed : Bool) (value : Option ℕ)
    (v : ℕ)
    → conclude cleanup primary committed value ≡ returned v
    → (committed ≡ true) × (value ≡ some v)
conclude-returned [] none true (some w) v e = (refl, cc e)
conclude-returned [] none true none v e = cc
conclude-returned [] none false value v e = cc
conclude-returned [] (some f) committed value v e = cc
conclude-returned (f ∷ fs) primary committed value v e = cc

ended :
    (total : ℕ) (o : Outcome) (t : Transaction)
    → IsSound total t
    → t.phase ≡ done o
    → Shape total (done o) t
ended total o t h p = subst (λ q. Shape total q t) p h

ended-returned :
    (total v : ℕ) (t : Transaction)
    → Shape total (done (returned v)) t
    → Committed total t × (t.value ≡ some v)
ended-returned total v t (inl c, o) =
    (c, (conclude-returned t.cleanup t.primary t.committed t.value v (sym o)).1)
ended-returned total v t (inr r, o) =
    let k = conclude-returned t.cleanup t.primary t.committed t.value v (sym o) in cc (r.0, k.0)

run-start-IsSound :
    (records : ℕ) (events : List Event) → IsSound records (run (start records) events)
run-start-IsSound records events =
    run-IsSound records (start records) events (start-IsSound records)

start_uncommitted : (records : ℕ) → (start records).committed ≡ false
unfolding start
start_uncommitted records = refl

-- The caller gets the callback's value only after one BEGIN, one COMMIT that the client answered
-- with success, no ROLLBACK, and one release, and only if every prepared record was appended.
pub run-returned :
    (records v : ℕ) (events : List Event)
    → let t = run (start records) events in
      t.phase ≡ done (returned v)
      → CommitAnswered (start records) events
        × (t.log ≡ release t.discard ∷ commit ∷ begin ∷ [])
        × (t.value ≡ some v)
        × (t.appended ≡ records)
run-returned records v events e =
    let t = run (start records) events in
    let (c, w) =
      ended-returned records v t
        (ended records (returned v) t (run-start-IsSound records events) e) in
    (
      committed-CommitAnswered (start records) events (start_uncommitted records) (c.0),
      c.1,
      w,
      c.3.0,
    )

ended-committed :
    (total : ℕ) (o : Outcome) (t : Transaction)
    → Shape total (done o) t
    → t.committed ≡ true
    → Committed total t
ended-committed total o t (inl c, q) e = c
ended-committed total o t (inr r, q) e = cc (r.0, e)

-- Once the client has answered the COMMIT with success, a transaction that ends has sent no
-- ROLLBACK and one release, and has appended every prepared record, whatever else happens.
pub run-answered :
    (records : ℕ) (o : Outcome) (events : List Event)
    → CommitAnswered (start records) events
    → let t = run (start records) events in
      t.phase ≡ done o → (t.log ≡ release t.discard ∷ commit ∷ begin ∷ []) × (t.appended ≡ records)
run-answered records o events answered e =
    let t = run (start records) events in
    let c =
      ended-committed records o t (ended records o t (run-start-IsSound records events) e)
        (CommitAnswered-committed (start records) events answered) in
    (c.1, c.3.0)

ended-uncommitted :
    (total : ℕ) (o : Outcome) (t : Transaction)
    → Shape total (done o) t
    → t.committed ≡ false
    → (t.log ≡ release t.discard ∷ rollback ∷ sent t.commit_attempted)
      × (t.commit_attempted ≡ true → is_some t.discard ≡ true)
      × ((v : ℕ) → o ≢ returned v)
ended-uncommitted total o t (inl k, q) f = cc (k.0, f)
ended-uncommitted total o t (inr r, q) f = (
  r.1,
  r.2.2,
  λ v w. cc (r.0, (conclude-returned t.cleanup t.primary t.committed t.value v (sym q ∙ w)).0),
)

-- A transaction that ends although the client never answered a COMMIT with success has sent a
-- ROLLBACK and one release, and the caller does not get a value; where a COMMIT had been sent, so
-- that the database may have committed all the same, the client was released as broken.
pub run-rollback_sent :
    (records : ℕ) (o : Outcome) (events : List Event)
    → ¬ CommitAnswered (start records) events
    → let t = run (start records) events in
      t.phase ≡ done o
      → (t.log ≡ release t.discard ∷ rollback ∷ sent t.commit_attempted)
        × (t.commit_attempted ≡ true → is_some t.discard ≡ true)
        × ((v : ℕ) → o ≢ returned v)
run-rollback_sent records o events never e =
    let t = run (start records) events in
    ended-uncommitted records o t (ended records o t (run-start-IsSound records events) e)
      (elim (Bool-cases t.committed) [
        | inl c ↦
            absurd (
              never (committed-CommitAnswered (start records) events (start_uncommitted records) c))
        | inr f ↦ f
      ])

ended_calling :
    (total : ℕ) (t : Transaction) → IsSound total t → t.phase ≡ calling → Shape total calling t
ended_calling total t h p = subst (λ q. Shape total q t) p h

poisoned_end :
    (total : ℕ) (o : Outcome) (t : Transaction)
    → Shape total (done o) t
    → t.commit_attempted ≡ false
    → (t.log ≡ release t.discard ∷ rollback ∷ begin ∷ []) × ((v : ℕ) → o ≢ returned v)
poisoned_end total o t (inl c, q) a = cc (a, c.4)
poisoned_end total o t (inr r, q) a = (
  r.1 ∙ ap (λ b. release t.discard ∷ rollback ∷ sent b) a,
  λ v w. cc (r.0, (conclude-returned t.cleanup t.primary t.committed t.value v (sym q ∙ w)).0),
)

-- If an operation that the callback started fails while the callback still runs, then, even
-- where the callback catches that failure and returns, and whatever happens later: no COMMIT is
-- ever sent, and the transaction can only end rolled back, without a value.
pub run-failed_operation :
    (records n : ℕ) (cause : Failure) (o : Outcome) (before after : List Event)
    → (run (start records) before).phase ≡ calling
    → let t = run (start records) (before ++ completed n (err cause) ∷ after) in
      t.phase ≡ done o
      → (t.log ≡ release t.discard ∷ rollback ∷ begin ∷ []) × ((v : ℕ) → o ≢ returned v)
run-failed_operation records n cause o before after p e =
    let u = run (start records) before in
    let t' = run (start records) (before ++ completed n (err cause) ∷ after) in
    let quiet : u.commit_attempted ≡ false =
      (ended_calling records u (run-start-IsSound records before) p).0.2 in
    let poisoned : IsPoisoned t' =
      rw (run-append (start records) before (completed n (err cause) ∷ after)) (
        run_cons-IsPoisoned u (completed n (err cause)) after
          (failed-IsPoisoned u n cause quiet p)) in
    poisoned_end records o t'
      (ended records o t' (run-start-IsSound records (before ++ completed n (err cause) ∷ after)) e)
      poisoned.1
