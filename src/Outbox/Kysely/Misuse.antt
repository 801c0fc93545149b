-- ===== src/Outbox/Kysely/Misuse.antt =====
-- A lifecycle call of Kysely inside the managed transaction cannot be hidden.
use bettter_nest_mq.Prelude.{
  ℕ, ◌≡◌, ◌≢◌, refl, sym, ap, ◌∙◌, Bool, true, false, Option, none, some, is_some, keep_first, List,
  [], ◌∷◌, ◌++◌, Failure, Result, ok, err, Bool-cases, inl, inr,
}
use bettter_nest_mq.Outbox.Scope.{
  Scope, closed_transaction, poison, execute, complete, stop, finished, drained,
}
use bettter_nest_mq.Outbox.Kysely.{
  Request, init, acquire_connection, release_connection, begin_transaction, commit_transaction,
  rollback_transaction, destroy, stream_query, execute_query, append, unsupported, handle, Event,
  requested, completed, settled, Session, started, on_settled, step, run, settle_value, outcome,
}

-- The calls that the driver does not support.
abbrev pub is_misuse : Request → Bool
is_misuse begin_transaction = true
is_misuse commit_transaction = true
is_misuse rollback_transaction = true
is_misuse destroy = true
is_misuse stream_query = true
is_misuse _ = false

IsPoisoned : Scope → Type 0
IsPoisoned s = is_some s.failure ≡ true

keep_first-some : (o : Option Failure) (f : Failure) → is_some (keep_first o f) ≡ true
keep_first-some none f = refl
keep_first-some (some g) f = refl

execute-IsPoisoned : (n : ℕ) (s : Scope) → IsPoisoned s → IsPoisoned (execute n s).0
unfolding execute IsPoisoned
execute-IsPoisoned n s h = elim (Bool-cases s.accepting) [ inl p ↦ rw p h | inr p ↦ rw p h ]

complete-IsPoisoned :
    (n : ℕ) (r : Result (Unit {0})) (s : Scope) → IsPoisoned s → IsPoisoned (complete n r s)
unfolding complete IsPoisoned
complete-IsPoisoned n (ok _) s h = h
complete-IsPoisoned n (err cause) s h = keep_first-some s.failure cause

unsupported-IsPoisoned : (s : Scope) → IsPoisoned s → IsPoisoned (unsupported s).0
unfolding unsupported poison IsPoisoned
unsupported-IsPoisoned s h = elim (Bool-cases s.accepting) [
  | inl p ↦ rw p (keep_first-some s.failure closed_transaction)
  | inr p ↦ rw p h
]

handle-IsPoisoned : (q : Request) (s : Scope) → IsPoisoned s → IsPoisoned (handle q s).0
unfolding handle
handle-IsPoisoned init s h = h
handle-IsPoisoned acquire_connection s h = h
handle-IsPoisoned release_connection s h = h
handle-IsPoisoned begin_transaction s h = unsupported-IsPoisoned s h
handle-IsPoisoned commit_transaction s h = unsupported-IsPoisoned s h
handle-IsPoisoned rollback_transaction s h = unsupported-IsPoisoned s h
handle-IsPoisoned destroy s h = unsupported-IsPoisoned s h
handle-IsPoisoned stream_query s h = unsupported-IsPoisoned s h
handle-IsPoisoned (execute_query n) s h = execute-IsPoisoned n s h
handle-IsPoisoned (append n) s h = execute-IsPoisoned n s h

on_settled-IsPoisoned :
    (b : Bool) (r : Result ℕ) (t : Session)
    → IsPoisoned t.scope
    → IsPoisoned (on_settled b r t).scope
unfolding IsPoisoned stop poison
on_settled-IsPoisoned true r t h = h
on_settled-IsPoisoned false (ok v) t h = h
on_settled-IsPoisoned false (err cause) t h = keep_first-some t.scope.failure cause

step-IsPoisoned : (t : Session) (e : Event) → IsPoisoned t.scope → IsPoisoned (step t e).scope
unfolding step
step-IsPoisoned t (requested q) h = handle-IsPoisoned q t.scope h
step-IsPoisoned t (completed n r) h = complete-IsPoisoned n r t.scope h
step-IsPoisoned t (settled r) h = on_settled-IsPoisoned t.finishing r t h

run-IsPoisoned :
    (events : List Event) (t : Session) → IsPoisoned t.scope → IsPoisoned (run t events).scope
unfolding run
run-IsPoisoned [] t h = h
run-IsPoisoned (e ∷ events) t h = run-IsPoisoned events (step t e) (step-IsPoisoned t e h)

run-append : (xs ys : List Event) (t : Session) → run t (xs ++ ys) ≡ run (run t xs) ys
unfolding run
run-append [] ys t = refl
run-append (x ∷ xs) ys t = run-append xs ys (step t x)

unsupported-poisons : (s : Scope) → s.accepting ≡ true → IsPoisoned (unsupported s).0
unfolding unsupported poison IsPoisoned
unsupported-poisons s a = rw a (keep_first-some s.failure closed_transaction)

misuse-poisons :
    (q : Request) (s : Scope) → is_misuse q ≡ true → s.accepting ≡ true → IsPoisoned (handle q s).0
unfolding handle
misuse-poisons init s m a = cc m
misuse-poisons acquire_connection s m a = cc m
misuse-poisons release_connection s m a = cc m
misuse-poisons begin_transaction s m a = unsupported-poisons s a
misuse-poisons commit_transaction s m a = unsupported-poisons s a
misuse-poisons rollback_transaction s m a = unsupported-poisons s a
misuse-poisons destroy s m a = unsupported-poisons s a
misuse-poisons stream_query s m a = unsupported-poisons s a
misuse-poisons (execute_query n) s m a = cc m
misuse-poisons (append n) s m a = cc m

settle_value-poisoned :
    (pending : List ℕ) (failure : Option Failure) (value : Option ℕ) (v : ℕ)
    → is_some failure ≡ true
    → settle_value (drained pending failure) value ≢ some (ok v)
settle_value-poisoned [] none value v h = cc h
settle_value-poisoned [] (some cause) value v h = λ q. cc q
settle_value-poisoned (n ∷ pending) failure value v h = λ q. cc q

outcome-poisoned : (t : Session) (v : ℕ) → IsPoisoned t.scope → outcome t ≢ some (ok v)
unfolding outcome finished IsPoisoned
outcome-poisoned t v h = elim (Bool-cases t.finishing) [
  | inl p ↦ rw p (settle_value-poisoned t.scope.pending t.scope.failure t.value v h)
  | inr p ↦ rw p (λ q. cc q)
]

-- If the callback begins, commits or rolls back a transaction, destroys the driver or streams
-- while the driver still accepts, then, whatever it did before and whatever happens later, also
-- where it catches the rejection, runKyselyOutbox never returns its value.
pub misuse_never_returns :
    (before after : List Event) (q : Request) (v : ℕ)
    → is_misuse q ≡ true
    → (run started before).scope.accepting ≡ true
    → outcome (run started (before ++ requested q ∷ after)) ≢ some (ok v)
unfolding run step
misuse_never_returns before after q v m a =
    let t = run started before in
    let poisoned = run-IsPoisoned after (step t (requested q)) (misuse-poisons q t.scope m a) in
    λ e.
      outcome-poisoned (run (step t (requested q)) after) v poisoned
        (ap outcome (sym (run-append before (requested q ∷ after) started)) ∙ e)
