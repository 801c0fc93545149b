-- ===== src/Outbox/Retry/Conflicts.antt =====
-- Two operators who retry the same inspected publication: the conditional UPDATE lets one through.
use bettter_nest_mq.Prelude.{
  ℕ, ◌+◌, ◌≤◌, ◌≡◌, refl, false, List, [], ◌∷◌, map, filter, Text, Eq, Result, ok, err, outbox,
  OutboxOperation, arith, Bool-cases, inl, inr, ◌⊎◌, ◌≢◌,
}
use bettter_nest_mq.Outbox.Retry.{
  OutboxRecord, Row, Delivery, answered, lost_before, lost_after, selects, update_row,
  postgres_outbox_retry,
}

module _ {Request Cause : Type 0} ⦃request_eq : Eq Request⦄ ⦃cause_eq : Eq Cause⦄ (namespace : Text)
    (previous : OutboxRecord Request Cause) where
  selects-update_row :
      (next : OutboxRecord Request Cause) (row : Row Request Cause)
      → selects namespace previous (update_row namespace previous next row) ≡ false
  unfolding update_row
  selects-update_row next row = elim (Bool-cases (selects namespace previous row)) [
    | inl chosen ↦ rw chosen (ground arith)
    | inr other ↦ rw other other
  ]

  update_row_unselected :
      (next : OutboxRecord Request Cause) (row : Row Request Cause)
      → selects namespace previous row ≡ false
      → update_row namespace previous next row ≡ row
  unfolding update_row
  update_row_unselected next row h = rw h

  -- No row of a table that such a write has passed over is selected again.
  filter-map-update_row :
      (next : OutboxRecord Request Cause) (table : List (Row Request Cause))
      → filter (selects namespace previous) (map (update_row namespace previous next) table) ≡ []
  filter-map-update_row next [] = refl
  filter-map-update_row next (row ∷ table) =
      rw (selects-update_row next row, filter) (filter-map-update_row next table)

  map-update_row_again :
      (next other : OutboxRecord Request Cause) (table : List (Row Request Cause))
      → map (update_row namespace previous other) (map (update_row namespace previous next) table)
        ≡ map (update_row namespace previous next) table
  map-update_row_again next other [] = refl
  map-update_row_again next other (row ∷ table) = rw (
    update_row_unselected other (update_row namespace previous next row)
        (selects-update_row next row),
    map-update_row_again next other table,
  )

  -- Once a retry from an inspected record has run, whether or not its caller got the answer, a
  -- second retry from the same record, with whatever new values, changes nothing: where the
  -- database answers, the caller gets a conflict.
  pub postgres_outbox_retry_again :
      (next other : OutboxRecord Request Cause) (delivery : Delivery)
      (table : List (Row Request Cause))
      → delivery ≢ lost_before
      → let after = (postgres_outbox_retry namespace previous next delivery table).0 in
        postgres_outbox_retry namespace previous other answered after
        ≡ (after, err (outbox OutboxOperation.conflict))
  unfolding postgres_outbox_retry
  postgres_outbox_retry_again next other answered table h =
      rw (map-update_row_again next other table, filter-map-update_row next table)
  postgres_outbox_retry_again next other lost_after table h =
      rw (map-update_row_again next other table, filter-map-update_row next table)
  postgres_outbox_retry_again next other lost_before table h = absurd (h refl)

  abbrev success : Result (Unit {0}) → ℕ
  success (ok _) = 1
  success (err _) = 0

  -- How many callers of a sequence of retries from the same record see a success.
  pub successes : List (OutboxRecord Request Cause × Delivery) → List (Row Request Cause) → ℕ
  successes [] table = 0
  successes ((next, delivery) ∷ rest) table =
      let (after, result) = postgres_outbox_retry namespace previous next delivery table in
      success result + successes rest after

  abbrev Settled : List (Row Request Cause) → Type 0
  Settled table = filter (selects namespace previous) table ≡ []

  successes-cons :
      (next : OutboxRecord Request Cause) (delivery : Delivery)
      (rest : List (OutboxRecord Request Cause × Delivery)) (table : List (Row Request Cause))
      → let after = postgres_outbox_retry namespace previous next delivery table in
        successes ((next, delivery) ∷ rest) table ≡ success after.1 + successes rest after.0
  unfolding successes
  successes-cons next delivery rest table = refl

  step-Settled :
      (next : OutboxRecord Request Cause) (delivery : Delivery) (table : List (Row Request Cause))
      → Settled table
      → let after = postgres_outbox_retry namespace previous next delivery table in
        (success after.1 ≡ 0) × Settled after.0
  unfolding postgres_outbox_retry
  step-Settled next answered table h = (rw h, filter-map-update_row next table)
  step-Settled next lost_before table h = (refl, h)
  step-Settled next lost_after table h = (refl, filter-map-update_row next table)

  successes-Settled :
      (retries : List (OutboxRecord Request Cause × Delivery)) (table : List (Row Request Cause))
      → Settled table
      → successes retries table ≡ 0
  successes-Settled [] table h = unfold successes in refl
  successes-Settled ((next, delivery) ∷ rest) table h =
      let (failed, still) = step-Settled next delivery table h in
      rw (successes-cons next delivery rest table) (omega (arith, successes-Settled rest _ still))

  success-le : (r : Result (Unit {0})) → success r ≤ 1
  success-le (ok _) = omega arith
  success-le (err _) = omega arith

  -- A retry settles the table, with one success at most, or it sees no success.
  step-le :
      (next : OutboxRecord Request Cause) (delivery : Delivery) (table : List (Row Request Cause))
      → let after = postgres_outbox_retry namespace previous next delivery table in
        ((success after.1 ≤ 1) × Settled after.0) ⊎ (success after.1 ≡ 0)
  unfolding postgres_outbox_retry
  step-le next answered table = inl (success-le _, filter-map-update_row next table)
  step-le next lost_before table = inr refl
  step-le next lost_after table = inl (omega arith, filter-map-update_row next table)

  -- However many retries from one inspected record are tried, in whatever order they reach the
  -- database and whichever answers get lost, at most one caller sees a success.
  pub successes-le-one :
      (retries : List (OutboxRecord Request Cause × Delivery)) (table : List (Row Request Cause))
      → successes retries table ≤ 1
  successes-le-one [] table = unfold successes in omega arith
  successes-le-one ((next, delivery) ∷ rest) table =
      rw (successes-cons next delivery rest table) (elim (step-le next delivery table) [
        | inl closed ↦ omega (arith, successes-Settled rest _ (closed.1))
        | inr none_yet ↦ omega (
          arith,
          successes-le-one rest (postgres_outbox_retry namespace previous next delivery table).0,
        )
      ])
