-- ===== src/Outbox/Scope.antt =====
-- An admission scope: TransactionScope of integrations/postgres-outbox-transaction.ts, and
-- ScopedDriver of integrations/kysely-outbox-scope.ts, which admits and drains the same way. An
-- operation is a number; `pending` are the admitted ones that have not completed.
pub mod Laws
pub mod Pending
use bettter_nest_mq.Prelude.{
  ℕ, suc, ◌≡◌, Bool, true, false, Option, none, some, List, [], ◌∷◌, filter, Failure, outbox,
  OutboxOperation, Result, ok, err, not, ◌==◌, keep_first,
}

pub record Scope : Type 0 where
  pub accepting : Bool
  pub pending : List ℕ
  pub failure : Option Failure

abbrev pub opened : Scope
opened = record { accepting = true; pending = []; failure = none }

-- closedTransaction()
abbrev pub closed_transaction : Failure
closed_transaction = outbox OutboxOperation.transaction

-- this.failure ??= cause
unfoldable pub poison : Failure → Scope → Scope
poison cause s = record s { failure = keep_first s.failure cause }

-- What `execute` does at once: it admits the operation, or it rejects.
unfoldable pub execute : ℕ → Scope → Scope × Result (Unit {0})
execute n s = elim s.accepting [
  | true ↦ (record s { pending = n ∷ s.pending }, ok tt)
  | false ↦ (s, err closed_transaction)
]

abbrev pub remove : ℕ → List ℕ → List ℕ
remove n = filter (λ m. not (m == n))

-- What is attached to the operation: its completion leaves the set, a failure poisons.
unfoldable pub complete : ℕ → Result (Unit {0}) → Scope → Scope
complete n (ok _) s = record s { pending = remove n s.pending }
complete n (err cause) s = record s {
  pending = remove n s.pending;
  failure = keep_first s.failure cause;
}

-- The first statement of `finish`.
unfoldable pub stop : Scope → Scope
stop s = record s { accepting = false }

-- The rest of `finish`, once it is stopped: it waits while operations are pending, and then
-- throws the first failure, if there is one.
abbrev pub drained : List ℕ → Option Failure → Option (Result (Unit {0}))
drained [] none = some (ok tt)
drained [] (some cause) = some (err cause)
drained (_ ∷ _) _ = none

unfoldable pub finished : Scope → Option (Result (Unit {0}))
finished s = drained s.pending s.failure
