-- ===== src/Tests/Transactions.antt =====
-- The transaction machine and the admission scope at concrete histories.
use bettter_nest_mq.Prelude.{
  ◌↔◌, ℕ, ◌≡◌, ◌≢◌, refl, true, false, some, List, [], ◌∷◌, ◌++◌, error, ok, err, is_some,
}
use bettter_nest_mq.Outbox.Scope.{opened, execute, complete, stop, finished, poison}
use bettter_nest_mq.Outbox.Scope.Laws as Laws
use bettter_nest_mq.Outbox.Scope.Laws.{executed, poisoned, stopped, history, first_failure, verdict}
use bettter_nest_mq.Outbox.Scope.Pending.{Awaited, finished-history_iff}
use bettter_nest_mq.Outbox.Kysely as Kysely
use bettter_nest_mq.Outbox.Kysely.{commit_transaction, execute_query, handle, started, outcome}
use bettter_nest_mq.Outbox.Kysely.Misuse.{misuse_never_returns}
use bettter_nest_mq.Outbox.Transaction.{
  begin, commit, rollback, release, returned, thrown, calling, done, Event, replied, requested,
  completed, settled, start, run,
}
use bettter_nest_mq.Outbox.Transaction.Outcomes.{
  run-returned, run-answered, run-rollback_sent, run-failed_operation,
}
use bettter_nest_mq.Outbox.Transaction.Invariant.{sent}
use bettter_nest_mq.Outbox.Transaction.Replies.{CommitAnswered, CommitAnswered-committed}

-- BEGIN is answered, and the callback starts an operation.
abbrev one_started : List Event
one_started = replied (ok tt) ∷ requested ∷ []

-- The operation has failed; the callback returns all the same.
abbrev caught_and_returned : List Event
caught_and_returned = settled (ok 7) ∷ completed 1 (ok tt) ∷ replied (ok tt) ∷ replied (ok tt) ∷ []

one_started_calls : (run (start 1) one_started).phase ≡ calling
unfolding run start execute
one_started_calls = refl

caught_ends :
    (run (start 1) (one_started ++ completed 0 (err (error 4)) ∷ caught_and_returned)).phase
    ≡ done (thrown (error 4))
unfolding run start execute complete stop finished poison
caught_ends = refl

run-failed_operation_example :
    let t = run (start 1) (one_started ++ completed 0 (err (error 4)) ∷ caught_and_returned) in
    (t.log ≡ release t.discard ∷ rollback ∷ begin ∷ []) × ((v : ℕ) → thrown (error 4) ≢ returned v)
run-failed_operation_example =
    run-failed_operation 1 0 (error 4) (thrown (error 4)) one_started caught_and_returned
      one_started_calls caught_ends

-- An operation, a value, one prepared record, COMMIT and the release.
abbrev all_well : List Event
all_well =
    replied (ok tt)
    ∷ requested
    ∷ completed 0 (ok tt)
    ∷ settled (ok 7)
    ∷ completed 1 (ok tt)
    ∷ replied (ok tt)
    ∷ replied (ok tt)
    ∷ []

all_well_ends : (run (start 1) all_well).phase ≡ done (returned 7)
unfolding run start execute complete stop finished
all_well_ends = refl

-- The reply to the COMMIT is the third, after the callback and the append.
abbrev before_answer : List Event
before_answer =
    replied (ok tt) ∷ requested ∷ completed 0 (ok tt) ∷ settled (ok 7) ∷ completed 1 (ok tt) ∷ []

all_well_answered : CommitAnswered (start 1) all_well
unfolding run start execute complete stop finished
all_well_answered = (before_answer, replied (ok tt) ∷ [], refl, refl)

run-returned_example :
    let t = run (start 1) all_well in
    CommitAnswered (start 1) all_well
    × (t.log ≡ release t.discard ∷ commit ∷ begin ∷ [])
    × (t.value ≡ some 7)
    × (t.appended ≡ 1)
run-returned_example = run-returned 1 7 all_well all_well_ends

run-answered_example :
    let t = run (start 1) all_well in
    (t.log ≡ release t.discard ∷ commit ∷ begin ∷ []) × (t.appended ≡ 1)
run-answered_example = run-answered 1 (returned 7) all_well all_well_answered all_well_ends

-- COMMIT is not answered well.
abbrev commit_lost : List Event
commit_lost =
    replied (ok tt)
    ∷ settled (ok 7)
    ∷ replied (err (error 5))
    ∷ replied (ok tt)
    ∷ replied (ok tt)
    ∷ []

commit_lost_ends : (run (start 0) commit_lost).phase ≡ done (thrown (error 5))
unfolding run start stop finished
commit_lost_ends = refl

commit_lost_uncommitted : (run (start 0) commit_lost).committed ≡ false
unfolding run start stop finished
commit_lost_uncommitted = refl

commit_lost_unanswered : ¬ CommitAnswered (start 0) commit_lost
commit_lost_unanswered =
    λ a. cc (CommitAnswered-committed (start 0) commit_lost a, commit_lost_uncommitted)

run-rollback_sent_example :
    let t = run (start 0) commit_lost in
    (t.log ≡ release t.discard ∷ rollback ∷ sent t.commit_attempted)
    × (t.commit_attempted ≡ true → is_some t.discard ≡ true)
    × ((v : ℕ) → thrown (error 5) ≢ returned v)
run-rollback_sent_example =
    run-rollback_sent 0 (thrown (error 5)) commit_lost commit_lost_unanswered commit_lost_ends

-- Two operations, the second of which fails after `finish` has begun.
abbrev late_failure : List Laws.Event
late_failure =
    executed 0
    ∷ executed 1
    ∷ stopped
    ∷ Laws.completed 0 (ok tt)
    ∷ Laws.completed 1 (err (error 6))
    ∷ []

finished-history_iff_example :
    (finished (history late_failure opened) ≡ some (err (error 6)))
    ↔ (Awaited late_failure × (err (error 6) ≡ verdict (first_failure late_failure)))
finished-history_iff_example = finished-history_iff late_failure (err (error 6))

-- A statement runs, and the callback tries to commit by itself.
abbrev statement : List Kysely.Event
statement = Kysely.requested (execute_query 0) ∷ Kysely.completed 0 (ok tt) ∷ []

abbrev value_returned : List Kysely.Event
value_returned = Kysely.settled (ok 7) ∷ []

statement_accepting : (Kysely.run started statement).scope.accepting ≡ true
unfolding Kysely.run Kysely.step handle execute complete
statement_accepting = refl

misuse_never_returns_example :
    outcome (Kysely.run started (statement ++ Kysely.requested commit_transaction ∷ value_returned))
    ≢ some (ok 7)
misuse_never_returns_example =
    misuse_never_returns statement value_returned commit_transaction 7 refl statement_accepting
