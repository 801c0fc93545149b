-- ===== src/Schedules/Operations.antt =====
-- The operations of SchedulesCoordinator, of engine/schedules.ts, and its `initialize`.
use bettter_nest_mq.Prelude.{
  ℕ, Bool, true, false, ◌&&◌, not, Option, none, some, List, [], ◌∷◌, map, any, filter, Text,
  text_eq, Number, nat, zero, suc, Result, ok, err, schedule, SchedulePhase, ◌>>=◌, ◌>>◌, reject_if,
  nat_eq, or_else,
}
use bettter_nest_mq.Policies.{require_integer, when_some}
use bettter_nest_mq.Schedules.{Mode, validate, reconcile, ResolvedOptions, schedule_name}
use bettter_nest_mq.Schedules.Coordinator.{
  JobIdentity, ScheduleRecord, CompiledSchedule, Address, Operation, pause, resume, remove,
  list_schedules, change_schedule, reconcile_schedule, Host, address_of, is_own, assert_identity,
  Run, return_, and_then, call, call_store, inside, assert_store_policy, get_record, preflight,
  synchronize,
}

-- slice(0, limit)
abbrev pub take {ℓ} : {A : Type ℓ} → ℕ → List A → List A
take n [] = []
take zero (a ∷ rest) = []
take (suc n) (a ∷ rest) = a ∷ take n rest

abbrev pub limited {ℓ} : {A : Type ℓ} → Option Number → List A → List A
limited (some (nat n)) l = take n l
limited _ l = l

-- new Set(...), in the order of the first occurrences
unfoldable pub distinct : List Text → List Text
distinct [] = []
distinct (t ∷ rest) = t ∷ filter (λ u. not (text_eq t u)) (distinct rest)

module _ {World Report Value : Type 0} (host : Host World Report Value) (options : ResolvedOptions)
    (definitions : List (CompiledSchedule Value)) where
  -- `reconcile()`
  unfoldable pub reconcile_all : World → Run World (List Report)
  reconcile_all w = elim options.mode [
    | validate ↦ return_ (err (schedule SchedulePhase.mode)) w
    | reconcile ↦ synchronize host reconcile definitions w
  ]

  abbrev pub is_declared : Text → Text → Bool
  is_declared connection group =
      any (λ entry. text_eq entry.job.connection connection && text_eq entry.group group)
        definitions

  -- The default group, or one that is declared on the job's connection.
  unfoldable pub group_of : JobIdentity → Option Text → Result Text
  group_of job requested = do
    group ← schedule_name host.max_identity (or_else requested options.group)
    reject_if (not (text_eq group options.group) && not (is_declared job.connection group))
        (schedule SchedulePhase.definition)
    ok group

  unfoldable pub address : JobIdentity → Text → Option Text → Result Address
  address job key requested = do
    group ← group_of job requested
    name ← schedule_name host.max_identity key
    ok (record { connection = job.connection; group = group; key = name })

  abbrev pub own_record :
      JobIdentity → Option (ScheduleRecord Value) → Result (Option (ScheduleRecord Value))
  own_record job none = ok none
  own_record job (some r) = assert_identity r job >> ok (some r)

  -- The code before the first await throws, or gives an address.
  abbrev pub at :
      {A : Type 0} → (Address → World → Run World A) → Result Address → World → Run World A
  at body (err e) w = return_ (err e) w
  at body (ok a) w = body a w

  unfoldable pub get :
      JobIdentity → Text → Option Text → World → Run World (Option (ScheduleRecord Value))
  get job key group w =
      at (λ a w'. and_then (λ r. return_ (own_record job r)) (get_record host a w'))
        (address job key group) w

  -- `paused` and `limit` of the list's options; what is listed are the job's own records.
  abbrev pub is_listed : JobIdentity → Option Bool → ScheduleRecord Value → Bool
  is_listed job paused r =
      is_own r job
      && elim paused [ none ↦ true | some b ↦ elim b [ true ↦ r.paused | false ↦ not r.paused ] ]

  unfoldable pub list :
      JobIdentity
      → Option Text
      → Option Bool
      → Option Number
      → World
      → Run World (List (ScheduleRecord Value))
  list job group paused limit w =
      inside (group_of job group >>= λ _. when_some limit (λ n. require_integer n 1))
        (λ w'. list_group (group_of job group) w') w
    where
      list_group : Result Text → World → Run World (List (ScheduleRecord Value))
      list_group (err e) w' = return_ (err e) w'
      list_group (ok name) w' =
          inside (host.with_schedules job.connection w')
            (λ w''.
              and_then
                (λ records. return_ (ok (limited limit (filter (is_listed job paused) records))))
                (call_store (list_schedules job.connection name)
                  (host.read_schedules job.connection name w'')))
            w'

  -- The change of a schedule whose record was read inside the same withSchedules.
  abbrev pub change_own :
      Operation → Address → JobIdentity → Option (ScheduleRecord Value) → World → Run World Bool
  change_own remove a job none w = return_ (ok false) w
  change_own pause a job none w = return_ (err (schedule SchedulePhase.missing)) w
  change_own resume a job none w = return_ (err (schedule SchedulePhase.missing)) w
  change_own remove a job (some r) w =
      inside (assert_identity r job)
        (λ w'. call_store (change_schedule remove a) (host.change remove a w')) w
  change_own operation a job (some r) w =
      inside (assert_identity r job)
        (λ w'.
          and_then (λ _. return_ (ok true))
            (call_store (change_schedule operation a) (host.change operation a w')))
        w

  unfoldable pub mutate : Operation → JobIdentity → Text → Option Text → World → Run World Bool
  mutate operation job key group w =
      at (λ a. λ w'. and_then (λ r. change_own operation a job r) (get_record host a w'))
        (address job key group) w

  -- The persisted records of a group: each must go with the controls of its queue.
  unfoldable pub check_records : Text → List (ScheduleRecord Value) → World → Run World (Unit {0})
  check_records connection [] w = return_ (ok tt) w
  check_records connection (r ∷ records) w =
      and_then (λ _. check_records connection records)
        (assert_store_policy host connection r.queue w)

  unfoldable pub check_groups : Text → List Text → World → Run World (Unit {0})
  check_groups connection [] w = return_ (ok tt) w
  check_groups connection (group ∷ groups) w =
      and_then (λ _. check_groups connection groups)
        (inside (host.with_schedules connection w)
          (λ w'. and_then (check_records connection) (
            call_store (list_schedules connection group) (host.read_schedules connection group w')))
          w)

  -- The default group, and those that are declared on the connection.
  unfoldable pub served_groups : Text → List Text
  served_groups connection = distinct (
      options.group
      ∷ map (λ entry. entry.group)
          (filter (λ entry. text_eq entry.job.connection connection) definitions))

  unfoldable pub check_sources : List Text → World → Run World (Unit {0})
  check_sources [] w = return_ (ok tt) w
  check_sources (connection ∷ sources) w =
      and_then (λ _. check_sources sources) (check_groups connection (served_groups connection) w)

  -- `initialize()`; `sources` are the connections with a schedule store.
  unfoldable pub initialize : List Text → World → Run World (List Report)
  initialize sources w =
      and_then (λ _. synchronize host options.mode definitions) (check_sources sources w)

  -- `upsert`: `compiled` is what compileSchedule makes of the options with the group.
  unfoldable pub upsert :
      JobIdentity
      → Option Text
      → (Text → Result (CompiledSchedule Value))
      → World
      → Run World Report
  upsert job group compiled w =
      at_entry (require_reconcile options.mode >> (group_of job group >>= compiled)) w
    where
      require_reconcile : Mode → Result (Unit {0})
      require_reconcile validate = err (schedule SchedulePhase.mode)
      require_reconcile reconcile = ok tt

      at_entry : Result (CompiledSchedule Value) → World → Run World Report
      at_entry (err e) w' = return_ (err e) w'
      at_entry (ok entry) w' =
          and_then
            (λ _ w''.
              call (reconcile_schedule (address_of entry)) (host.reconcile_declaration entry w''))
            (preflight host reconcile entry w')
