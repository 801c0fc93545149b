-- ===== src/Outbox/Kysely.antt =====
-- ScopedDriver and runKyselyOutbox of integrations/kysely-outbox-scope.ts. The driver admits and
-- drains as the transaction's own scope does, so its state is that scope. Statements and appends
-- have numbers, the callback's value is a number; SQL and its results are the transaction's.
pub mod Misuse
use bettter_nest_mq.Prelude.{
  ℕ, ◌≡◌, Bool, true, false, Option, none, some, List, [], ◌∷◌, Failure, outbox, OutboxOperation,
  Result, ok, err, if◌then◌else◌,
}
use bettter_nest_mq.Outbox.Scope.{
  Scope, opened, closed_transaction, poison, execute, complete, stop, finished,
}

-- The methods that Kysely calls on the driver and its connection, and `append`.
pub data Request : Type 0 where
  init acquire_connection release_connection : Request
  begin_transaction commit_transaction rollback_transaction destroy stream_query : Request
  execute_query append : ℕ → Request

-- `unsupported`: the misuse poisons while the callback runs, and is rejected in any case.
unfoldable pub unsupported : Scope → Scope × Result (Unit {0})
unsupported s =
    let poisoned = poison closed_transaction s in
    (if s.accepting then poisoned else s, err closed_transaction)

-- init and acquireConnection
abbrev pub while_accepting : Scope → Scope × Result (Unit {0})
while_accepting s = (s, if s.accepting then ok tt else err closed_transaction)

unfoldable pub handle : Request → Scope → Scope × Result (Unit {0})
handle init s = while_accepting s
handle acquire_connection s = while_accepting s
handle release_connection s = (s, ok tt)
handle begin_transaction s = unsupported s
handle commit_transaction s = unsupported s
handle rollback_transaction s = unsupported s
handle destroy s = unsupported s
handle stream_query s = unsupported s
handle (execute_query n) s = execute n s
handle (append n) s = execute n s

pub data Event : Type 0 where
  requested : Request → Event
  completed : ℕ → Result (Unit {0}) → Event
  -- the callback settles
  settled : Result ℕ → Event

pub record Session : Type 0 where
  pub scope : Scope
  -- `finish` has been called
  pub finishing : Bool
  pub value : Option ℕ

-- After the connection wrapper is initialized, which issues no statement.
abbrev pub started : Session
started = record { scope = opened; finishing = false; value = none }

abbrev pub on_settled : Bool → Result ℕ → Session → Session
on_settled true r t = t
on_settled false (ok v) t = record { scope = stop t.scope; finishing = true; value = some v }
on_settled false (err cause) t = record {
  scope = stop (poison cause t.scope);
  finishing = true;
  value = none;
}

unfoldable pub step : Session → Event → Session
step t (requested request) = record t { scope = (handle request t.scope).0 }
step t (completed n r) = record t { scope = complete n r t.scope }
step t (settled r) = on_settled t.finishing r t

unfoldable pub run : Session → List Event → Session
run t [] = t
run t (e ∷ events) = run (step t e) events

-- What `finish` leaves of the callback's value.
abbrev pub settle_value : Option (Result (Unit {0})) → Option ℕ → Option (Result ℕ)
settle_value (some (ok _)) (some v) = some (ok v)
settle_value (some (ok _)) none = none
settle_value (some (err cause)) value = some (err cause)
settle_value none value = none

-- The outcome of runKyselyOutbox, once there is one.
unfoldable pub outcome : Session → Option (Result ℕ)
outcome t = if t.finishing then settle_value (finished t.scope) t.value else none
