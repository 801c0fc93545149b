-- ===== src/Outbox/Transaction/Poison.antt =====
-- A failure that a managed transaction has recorded stays, and keeps it from its COMMIT.
use bettter_nest_mq.Prelude.{
  ℕ, suc, zero, ◌≡◌, ◌≢◌, inl, inr, refl, true, false, Option, none, some, List, [], ◌∷◌, Failure,
  Result, ok, err, is_some, ◌==◌, arith, Bool-cases,
}
use bettter_nest_mq.Outbox.Scope.{Scope, poison, execute, complete, stop, finished, drained}
use bettter_nest_mq.Outbox.Transaction.{
  Phase, beginning, calling, draining, committing, closing, rolling_back, releasing, appending,
  done, Transaction, Event, replied, requested, completed, settled, client_error, on_reply,
  on_request, on_complete, on_settle, on_client_error, step, run, append_next, after_append,
  begin_finish, drain, try_commit, close, roll_back, catch,
}

-- A failure was recorded and no COMMIT tried yet.
abbrev pub IsPoisoned : Transaction → Type 0
IsPoisoned t = (is_some t.scope.failure ≡ true) × (t.commit_attempted ≡ false)

finished-poisoned : (s : Scope) → is_some s.failure ≡ true → finished s ≢ some (ok tt)
unfolding finished
finished-poisoned s h = of_drained s.pending s.failure h
  where
    of_drained : (l : List ℕ) (f : Option Failure) → is_some f ≡ true → drained l f ≢ some (ok tt)
    of_drained [] none h = λ _. cc h
    of_drained [] (some f) h = λ e. cc e
    of_drained (n ∷ l) f h = λ e. cc e

roll_back-IsPoisoned :
    (r : Option (Result (Unit {0}))) (t : Transaction) → IsPoisoned t → IsPoisoned (roll_back r t)
roll_back-IsPoisoned none t h = h
roll_back-IsPoisoned (some (ok _)) t h = h
roll_back-IsPoisoned (some (err cause)) t h = h

close-catch-IsPoisoned :
    (cause : Failure) (t : Transaction) → IsPoisoned t → IsPoisoned (close (catch cause t))
unfolding stop
close-catch-IsPoisoned cause t h =
    roll_back-IsPoisoned (finished (catch cause t).scope) (catch cause t) h

drain-IsPoisoned : (t : Transaction) → IsPoisoned t → IsPoisoned (drain t)
drain-IsPoisoned t h = of_result (finished t.scope) refl
  where
    of_result :
        (r : Option (Result (Unit {0}))) → finished t.scope ≡ r → IsPoisoned (try_commit r t)
    of_result none e = h
    of_result (some (ok _)) e = absurd (finished-poisoned t.scope h.0 e)
    of_result (some (err cause)) e = close-catch-IsPoisoned cause t h

complete-poisoned :
    (n : ℕ) (r : Result (Unit {0})) (s : Scope)
    → is_some s.failure ≡ true
    → is_some (complete n r s).failure ≡ true
unfolding complete
complete-poisoned n (ok _) s h = h
complete-poisoned n (err cause) s h = ground arith

poison-poisoned : (cause : Failure) (s : Scope) → is_some (poison cause s).failure ≡ true
unfolding poison
poison-poisoned cause s = ground arith

begin_finish-IsPoisoned : (t : Transaction) → IsPoisoned t → IsPoisoned (begin_finish t)
unfolding stop
begin_finish-IsPoisoned t h =
    drain-IsPoisoned (record t { phase = draining; scope = stop t.scope }) h

execute-poisoned :
    (n : ℕ) (s : Scope) → is_some s.failure ≡ true → is_some (execute n s).0.failure ≡ true
unfolding execute
execute-poisoned n s h = ground arith

append_next-IsPoisoned :
    (records : ℕ) (t : Transaction) → IsPoisoned t → IsPoisoned (append_next records t)
append_next-IsPoisoned zero t h = begin_finish-IsPoisoned t h
append_next-IsPoisoned (suc records) t h = (execute-poisoned t.next_operation t.scope h.0, h.1)

after_append-IsPoisoned :
    (r : Result (Unit {0})) (t : Transaction) → IsPoisoned t → IsPoisoned (after_append r t)
after_append-IsPoisoned (ok _) t h =
    append_next-IsPoisoned t.records (record t { appended = suc t.appended }) h
after_append-IsPoisoned (err cause) t h =
    begin_finish-IsPoisoned (record t { scope = poison cause t.scope })
      (poison-poisoned cause t.scope, h.1)

on_reply-IsPoisoned :
    (p : Phase) (r : Result (Unit {0})) (t : Transaction)
    → IsPoisoned t
    → IsPoisoned (on_reply p r t)
unfolding on_reply
on_reply-IsPoisoned beginning (err cause) t h = close-catch-IsPoisoned cause t h
on_reply-IsPoisoned committing (err cause) t h = close-catch-IsPoisoned cause t h
on_reply-IsPoisoned rolling_back (err cause) t h = h
on_reply-IsPoisoned releasing (err cause) t h = h
on_reply-IsPoisoned p r t h = h

on_complete-IsPoisoned :
    (p : Phase) (n : ℕ) (r : Result (Unit {0})) (t : Transaction)
    → IsPoisoned t
    → IsPoisoned (on_complete p n r t)
unfolding on_complete
on_complete-IsPoisoned (appending m) n r t h =
    let h' = complete-poisoned n r t.scope h.0 in
    elim (Bool-cases (m == n)) [
      | inl mine ↦
          rw mine (after_append-IsPoisoned r (record t { scope = complete n r t.scope }) (h', h.1))
      | inr other ↦ rw other (h', h.1)
    ]
on_complete-IsPoisoned draining n r t h =
    drain-IsPoisoned (record t { scope = complete n r t.scope })
      (complete-poisoned n r t.scope h.0, h.1)
on_complete-IsPoisoned closing n r t h =
    roll_back-IsPoisoned _ (record t { scope = complete n r t.scope })
      (complete-poisoned n r t.scope h.0, h.1)
on_complete-IsPoisoned p n r t h = (complete-poisoned n r t.scope h.0, h.1)

on_settle-IsPoisoned :
    (p : Phase) (r : Result ℕ) (t : Transaction) → IsPoisoned t → IsPoisoned (on_settle p r t)
unfolding on_settle
on_settle-IsPoisoned calling (ok v) t h =
    append_next-IsPoisoned t.records (record t { value = some v }) h
on_settle-IsPoisoned calling (err cause) t h =
    begin_finish-IsPoisoned (record t { scope = poison cause t.scope })
      (poison-poisoned cause t.scope, h.1)
on_settle-IsPoisoned p r t h = h

on_request-IsPoisoned : (p : Phase) (t : Transaction) → IsPoisoned t → IsPoisoned (on_request p t)
unfolding on_request
on_request-IsPoisoned calling t h = (execute-poisoned t.next_operation t.scope h.0, h.1)
on_request-IsPoisoned p t h = h

on_client_error-IsPoisoned :
    (p : Phase) (cause : Failure) (t : Transaction)
    → IsPoisoned t
    → IsPoisoned (on_client_error p cause t)
unfolding on_client_error
on_client_error-IsPoisoned releasing cause t h = h
on_client_error-IsPoisoned (done o) cause t h = h
on_client_error-IsPoisoned p cause t h = (poison-poisoned cause t.scope, h.1)

step-IsPoisoned : (t : Transaction) (e : Event) → IsPoisoned t → IsPoisoned (step t e)
unfolding step
step-IsPoisoned t (replied r) h = on_reply-IsPoisoned t.phase r t h
step-IsPoisoned t requested h = on_request-IsPoisoned t.phase t h
step-IsPoisoned t (completed n r) h = on_complete-IsPoisoned t.phase n r t h
step-IsPoisoned t (settled r) h = on_settle-IsPoisoned t.phase r t h
step-IsPoisoned t (client_error cause) h = on_client_error-IsPoisoned t.phase cause t h

run-IsPoisoned : (t : Transaction) (events : List Event) → IsPoisoned t → IsPoisoned (run t events)
unfolding run
run-IsPoisoned t [] h = h
run-IsPoisoned t (e ∷ events) h = run-IsPoisoned (step t e) events (step-IsPoisoned t e h)

-- A failed operation poisons, also where the callback catches its failure.
pub failed-IsPoisoned :
    (t : Transaction) (n : ℕ) (cause : Failure)
    → t.commit_attempted ≡ false
    → t.phase ≡ calling
    → IsPoisoned (step t (completed n (err cause)))
unfolding step on_complete complete
failed-IsPoisoned t n cause a p = rw p (ground arith)

pub run_cons-IsPoisoned :
    (t : Transaction) (e : Event) (events : List Event)
    → IsPoisoned (step t e)
    → IsPoisoned (run t (e ∷ events))
unfolding run
run_cons-IsPoisoned t e events h = run-IsPoisoned (step t e) events h
