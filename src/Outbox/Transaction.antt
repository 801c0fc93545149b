-- ===== src/Outbox/Transaction.antt =====
-- postgresOutboxTransaction of integrations/postgres-outbox-transaction.ts as a machine: what the
-- client, the callback and the admitted operations do are events, in any order, and `step` runs
-- the code from one await to the next. An operation of the callback and the append of a prepared
-- record have numbers of their own; the callback's value is told apart by a number.
pub mod Invariant
pub mod Poison
pub mod Replies
pub mod Outcomes
use bettter_nest_mq.Prelude.{
  ℕ, suc, zero, ◌+◌, ◌≡◌, Bool, true, false, Option, none, some, List, [], ◌∷◌, ◌++◌, Failure,
  outbox, OutboxOperation, Result, ok, err, keep_first, or_else, ◌==◌, if◌then◌else◌,
}
use bettter_nest_mq.Outbox.Scope.{
  Scope, opened, closed_transaction, poison, execute, complete, stop, finished,
}

-- What the code asks of the client. A release names the error that discards the connection.
pub data Command : Type 0 where
  begin commit rollback : Command
  release : Option Failure → Command

pub data Outcome : Type 0 where
  returned : ℕ → Outcome
  thrown : Failure → Outcome
  -- AggregateError: the primary failure and those of the cleanup
  aggregate : Option Failure → List Failure → Outcome

-- The await at which the code stands.
pub data Phase : Type 0 where
  beginning calling draining committing closing rolling_back releasing : Phase
  -- the append of a prepared record, by its operation
  appending : ℕ → Phase
  done : Outcome → Phase

pub record Transaction : Type 0 where
  pub phase : Phase
  pub scope : Scope
  pub next_operation : ℕ
  -- prepared records still to append, and appended
  pub records : ℕ
  pub appended : ℕ
  pub value : Option ℕ
  pub primary : Option Failure
  pub discard : Option Failure
  pub committed : Bool
  pub commit_attempted : Bool
  pub cleanup : List Failure
  -- what was sent, the newest first
  pub log : List Command

pub data Event : Type 0 where
  -- the statement or the release that is awaited is answered
  replied : Result (Unit {0}) → Event
  -- the callback, or code that kept its view, calls query or append
  requested : Event
  -- an operation completes
  completed : ℕ → Result (Unit {0}) → Event
  -- the callback settles
  settled : Result ℕ → Event
  -- the client emits 'error'
  client_error : Failure → Event

-- After pool.connect(): BEGIN is sent.
unfoldable pub start : ℕ → Transaction
start records = record {
  phase = beginning;
  scope = opened;
  next_operation = 0;
  records = records;
  appended = 0;
  value = none;
  primary = none;
  discard = none;
  committed = false;
  commit_attempted = false;
  cleanup = [];
  log = begin ∷ [];
}

abbrev send : Command → Transaction → Transaction
send c t = record t { log = c ∷ t.log }

-- removeListener and client.release(discard)
abbrev to_release : Transaction → Transaction
to_release t = record t { phase = releasing; log = release t.discard ∷ t.log }

-- The outer `catch`, up to its await.
abbrev catch : Failure → Transaction → Transaction
catch cause t = record t {
  phase = closing;
  primary = some cause;
  discard = if t.commit_attempted then some cause else t.discard;
  scope = stop t.scope;
}

-- `finish` of the outer `catch`, and the ROLLBACK that follows it.
abbrev roll_back : Option (Result (Unit {0})) → Transaction → Transaction
roll_back none t = t
roll_back (some (ok _)) t = record t { phase = rolling_back; log = rollback ∷ t.log }
roll_back (some (err cause)) t = record t {
  phase = rolling_back;
  primary = keep_first t.primary cause;
  log = rollback ∷ t.log;
}

abbrev close : Transaction → Transaction
close t = roll_back (finished t.scope) t

-- `finish` of the `try`, and the COMMIT that follows it.
abbrev try_commit : Option (Result (Unit {0})) → Transaction → Transaction
try_commit none t = t
try_commit (some (ok _)) t = record t {
  phase = committing;
  commit_attempted = true;
  log = commit ∷ t.log;
}
try_commit (some (err cause)) t = close (catch cause t)

abbrev drain : Transaction → Transaction
drain t = try_commit (finished t.scope) t

-- scope.finish() of the `try`
abbrev begin_finish : Transaction → Transaction
begin_finish t = drain (record t { phase = draining; scope = stop t.scope })

-- The head of the loop over the records.
abbrev append_next : ℕ → Transaction → Transaction
append_next zero t = begin_finish t
append_next (suc records) t = record t {
  phase = appending t.next_operation;
  records = records;
  scope = (execute t.next_operation t.scope).0;
  next_operation = suc t.next_operation;
}

-- The awaited append is done: the loop goes on, or its `catch` poisons.
abbrev after_append : Result (Unit {0}) → Transaction → Transaction
after_append (ok _) t = append_next t.records (record t { appended = suc t.appended })
after_append (err cause) t = begin_finish (record t { scope = poison cause t.scope })

-- The end of the code, after the release.
abbrev conclude : List Failure → Option Failure → Bool → Option ℕ → Outcome
conclude (f ∷ fs) primary committed value = aggregate primary (f ∷ fs)
conclude [] (some cause) committed value = thrown cause
conclude [] none true (some v) = returned v
conclude [] none _ _ = thrown closed_transaction

abbrev finish_release : Transaction → Transaction
finish_release t = record t { phase = done (conclude t.cleanup t.primary t.committed t.value) }

on_reply : Phase → Result (Unit {0}) → Transaction → Transaction
unfolding stop finished execute
on_reply beginning (ok _) t = record t { phase = calling }
on_reply beginning (err cause) t = close (catch cause t)
on_reply committing (ok _) t = to_release (record t { committed = true })
on_reply committing (err cause) t = close (catch cause t)
on_reply rolling_back (ok _) t = to_release t
on_reply rolling_back (err cause) t =
    to_release (record t { discard = some cause; cleanup = t.cleanup ++ cause ∷ [] })
on_reply releasing (ok _) t = finish_release t
on_reply releasing (err cause) t = finish_release (record t { cleanup = t.cleanup ++ cause ∷ [] })
on_reply _ _ t = t

-- The view rejects at once where the callback is over.
on_request : Phase → Transaction → Transaction
unfolding execute
on_request calling t = record t {
  scope = (execute t.next_operation t.scope).0;
  next_operation = suc t.next_operation;
}
on_request _ t = t

on_complete : Phase → ℕ → Result (Unit {0}) → Transaction → Transaction
unfolding complete stop finished execute poison
on_complete (appending m) n r t =
    let t' = record t { scope = complete n r t.scope } in if m == n then after_append r t' else t'
on_complete draining n r t = drain (record t { scope = complete n r t.scope })
on_complete closing n r t = close (record t { scope = complete n r t.scope })
on_complete _ n r t = record t { scope = complete n r t.scope }

on_settle : Phase → Result ℕ → Transaction → Transaction
unfolding stop finished execute poison
on_settle calling (ok v) t = append_next t.records (record t { value = some v })
on_settle calling (err cause) t = begin_finish (record t { scope = poison cause t.scope })
on_settle _ _ t = t

-- The listener is removed just before the release.
on_client_error : Phase → Failure → Transaction → Transaction
unfolding poison
on_client_error releasing cause t = t
on_client_error (done _) cause t = t
on_client_error _ cause t = record t { discard = some cause; scope = poison cause t.scope }

unfoldable pub step : Transaction → Event → Transaction
unfolding on_reply on_request on_complete on_settle on_client_error
step t (replied r) = on_reply t.phase r t
step t requested = on_request t.phase t
step t (completed n r) = on_complete t.phase n r t
step t (settled r) = on_settle t.phase r t
step t (client_error cause) = on_client_error t.phase cause t

unfoldable pub run : Transaction → List Event → Transaction
unfolding step
run t [] = t
run t (e ∷ events) = run (step t e) events
