-- ===== src/Outbox/Transaction/Invariant.antt =====
-- What holds of a managed transaction at each await of the code.
use mathlib.Core.Path.{subst}
use bettter_nest_mq.Prelude.{
  ℕ, suc, zero, ◌+◌, ◌≡◌, ◌≢◌, ◌⊎◌, inl, inr, refl, sym, Bool, true, false, Option, none, some,
  List, [], ◌∷◌, Failure, Result, ok, err, is_some, ◌==◌, arith, Bool-cases,
}
use bettter_nest_mq.Outbox.Scope.{Scope, poison, complete, stop, finished, drained}
use bettter_nest_mq.Outbox.Transaction.{
  Command, begin, commit, rollback, release, Phase, beginning, calling, draining, committing,
  closing, rolling_back, releasing, appending, done, Transaction, Event, replied, requested,
  completed, settled, client_error, start, conclude, on_reply, on_request, on_complete, on_settle,
  on_client_error, step, run, append_next, after_append, begin_finish, drain, try_commit, close,
  roll_back, catch,
}

-- What was sent before the ROLLBACK, by whether a COMMIT was tried.
abbrev pub sent : Bool → List Command
sent true = commit ∷ begin ∷ []
sent false = begin ∷ []

-- Nothing but BEGIN was sent.
abbrev pub Open : Transaction → Type 0
Open t =
    (t.log ≡ begin ∷ [])
    × (t.committed ≡ false)
    × (t.commit_attempted ≡ false)
    × (t.primary ≡ none)
    × (t.cleanup ≡ [])

-- The callback returned and every prepared record was appended.
abbrev pub Complete : ℕ → Transaction → Type 0
Complete total t = (t.appended ≡ total) × (is_some t.value ≡ true)

-- A failure that is not committed; a tried COMMIT discards the connection.
abbrev pub Failed : Transaction → Type 0
Failed t =
    (t.committed ≡ false)
    × (is_some t.primary ≡ true)
    × (t.commit_attempted ≡ true → is_some t.discard ≡ true)

-- After the release: committed, or rolled back.
abbrev pub Committed : ℕ → Transaction → Type 0
Committed total t =
    (t.committed ≡ true)
    × (t.log ≡ release t.discard ∷ commit ∷ begin ∷ [])
    × (t.primary ≡ none)
    × Complete total t
    × (t.commit_attempted ≡ true)

abbrev pub RolledBack : Transaction → Type 0
RolledBack t =
    (t.log ≡ release t.discard ∷ rollback ∷ sent t.commit_attempted)
    × Failed t
    × (t.cleanup ≢ [] → is_some t.discard ≡ true)

abbrev pub Shape : ℕ → Phase → Transaction → Type 0
Shape total beginning t = Open t × (t.records ≡ total) × (t.appended ≡ 0)
Shape total calling t = Open t × (t.records ≡ total) × (t.appended ≡ 0)
Shape total (appending n) t =
    Open t × (suc (t.records + t.appended) ≡ total) × (is_some t.value ≡ true)
Shape total draining t = Open t × (t.scope.failure ≡ none → Complete total t)
Shape total committing t =
    (t.log ≡ commit ∷ begin ∷ [])
    × (t.committed ≡ false)
    × (t.commit_attempted ≡ true)
    × (t.primary ≡ none)
    × (t.cleanup ≡ [])
    × Complete total t
Shape total closing t = (t.log ≡ sent t.commit_attempted) × Failed t × (t.cleanup ≡ [])
Shape total rolling_back t =
    (t.log ≡ rollback ∷ sent t.commit_attempted) × Failed t × (t.cleanup ≡ [])
Shape total releasing t = (Committed total t × (t.cleanup ≡ [])) ⊎ RolledBack t
Shape total (done o) t =
    (Committed total t
      ⊎ (t.committed ≡ false)
        × (t.log ≡ release t.discard ∷ rollback ∷ sent t.commit_attempted)
        × Failed t)
    × (o ≡ conclude t.cleanup t.primary t.committed t.value)

abbrev pub IsSound : ℕ → Transaction → Type 0
IsSound total t = Shape total t.phase t

pub start-IsSound : (records : ℕ) → IsSound records (start records)
unfolding start
start-IsSound records = ground arith

-- `finish` passes only where there is no failure.
finished_failure : (s : Scope) → finished s ≡ some (ok tt) → s.failure ≡ none
unfolding finished
finished_failure s e = of_drained s.pending s.failure e
  where
    of_drained : (l : List ℕ) (f : Option Failure) → drained l f ≡ some (ok tt) → f ≡ none
    of_drained [] none e = refl
    of_drained [] (some f) e = cc
    of_drained (n ∷ l) f e = cc

module _ (total : ℕ) where
  unchanged : {p : Phase} (t' : Transaction) → t'.phase ≡ p → Shape total p t' → IsSound total t'
  unchanged t' p h = subst (λ q. Shape total q t') (sym p) h

  roll_back-IsSound :
      (r : Option (Result (Unit {0}))) (t : Transaction)
      → t.phase ≡ closing
      → Shape total closing t
      → IsSound total (roll_back r t)
  roll_back-IsSound none t p h = unchanged t p h
  roll_back-IsSound (some (ok _)) t p h = ground arith
  roll_back-IsSound (some (err cause)) t p h = ground arith

  close-catch-IsSound :
      (cause : Failure) (t : Transaction)
      → t.committed ≡ false
      → t.cleanup ≡ []
      → t.log ≡ sent t.commit_attempted
      → IsSound total (close (catch cause t))
  close-catch-IsSound cause t c e l =
      roll_back-IsSound (finished (catch cause t).scope) (catch cause t) refl (ground arith)

  drain-IsSound :
      (t : Transaction) → t.phase ≡ draining → Shape total draining t → IsSound total (drain t)
  drain-IsSound t p h = of_result (finished t.scope) refl
    where
      of_result :
          (r : Option (Result (Unit {0}))) → finished t.scope ≡ r → IsSound total (try_commit r t)
      of_result none e = unchanged t p h
      of_result (some (ok _)) e = let f = finished_failure t.scope e in ground (arith, h.1 f)
      of_result (some (err cause)) e = close-catch-IsSound cause t (h.0.1) (h.0.4) (ground arith)

  begin_finish-IsSound :
      (t : Transaction)
      → Open t
      → (t.scope.failure ≡ none → Complete total t)
      → IsSound total (begin_finish t)
  unfolding stop
  begin_finish-IsSound t o c =
      drain-IsSound (record t { phase = draining; scope = stop t.scope }) refl (o, c)

  append_next-IsSound :
      (records : ℕ) (t : Transaction)
      → Open t
      → records + t.appended ≡ total
      → is_some t.value ≡ true
      → IsSound total (append_next records t)
  append_next-IsSound zero t o w v = begin_finish-IsSound t o (λ _. (omega arith, v))
  append_next-IsSound (suc records) t o w v = (o, omega arith, v)

  poisoned : (cause : Failure) (s : Scope) → (poison cause s).failure ≡ none → ⊥
  unfolding poison
  poisoned cause s e = ground arith

  on_reply-IsSound :
      (p : Phase) (r : Result (Unit {0})) (t : Transaction)
      → t.phase ≡ p
      → Shape total p t
      → IsSound total (on_reply p r t)
  unfolding on_reply
  on_reply-IsSound beginning (ok _) t p h = h
  on_reply-IsSound beginning (err cause) t p h =
      close-catch-IsSound cause t (h.0.1) (h.0.4) (ground arith)
  on_reply-IsSound committing (ok _) t p h = ground arith
  on_reply-IsSound committing (err cause) t p h =
      close-catch-IsSound cause t (h.1) (h.4) (ground arith)
  on_reply-IsSound rolling_back (ok _) t p h = ground arith
  on_reply-IsSound rolling_back (err cause) t p h = ground arith
  on_reply-IsSound releasing (ok _) t p h = ground arith
  on_reply-IsSound releasing (err cause) t p h = ground arith
  on_reply-IsSound calling r t p h = unchanged t p h
  on_reply-IsSound draining r t p h = unchanged t p h
  on_reply-IsSound closing r t p h = unchanged t p h
  on_reply-IsSound (appending n) r t p h = unchanged t p h
  on_reply-IsSound (done o) r t p h = unchanged t p h

  on_request-IsSound :
      (p : Phase) (t : Transaction) → t.phase ≡ p → Shape total p t → IsSound total (on_request p t)
  unfolding on_request
  on_request-IsSound calling t p h = unchanged _ p h
  on_request-IsSound q t p h = unchanged t p h

  on_settle-IsSound :
      (p : Phase) (r : Result ℕ) (t : Transaction)
      → t.phase ≡ p
      → Shape total p t
      → IsSound total (on_settle p r t)
  unfolding on_settle
  on_settle-IsSound calling (ok v) t p h =
      append_next-IsSound t.records (record t { value = some v }) (h.0) (omega arith) refl
  on_settle-IsSound calling (err cause) t p h =
      begin_finish-IsSound (record t { scope = poison cause t.scope }) (h.0)
        (λ e. absurd (poisoned cause t.scope e))
  on_settle-IsSound q r t p h = unchanged t p h

  on_client_error-IsSound :
      (p : Phase) (cause : Failure) (t : Transaction)
      → t.phase ≡ p
      → Shape total p t
      → IsSound total (on_client_error p cause t)
  unfolding on_client_error
  on_client_error-IsSound releasing cause t p h = unchanged t p h
  on_client_error-IsSound (done o) cause t p h = unchanged t p h
  on_client_error-IsSound draining cause t p h =
      unchanged _ p (h.0, λ e. absurd (poisoned cause t.scope e))
  on_client_error-IsSound closing cause t p h = unchanged _ p (ground arith)
  on_client_error-IsSound rolling_back cause t p h = unchanged _ p (ground arith)
  on_client_error-IsSound q cause t p h = unchanged _ p h

  complete_failure :
      (n : ℕ) (r : Result (Unit {0})) (s : Scope)
      → (complete n r s).failure ≡ none
      → s.failure ≡ none
  unfolding complete
  complete_failure n (ok _) s e = e
  complete_failure n (err cause) s e = ground arith

  after_append-IsSound :
      (n : ℕ) (r : Result (Unit {0})) (t : Transaction)
      → Shape total (appending n) t
      → IsSound total (after_append r t)
  after_append-IsSound n (ok _) t h =
      append_next-IsSound t.records (record t { appended = suc t.appended }) (h.0) (omega arith)
        (h.2)
  after_append-IsSound n (err cause) t h =
      begin_finish-IsSound (record t { scope = poison cause t.scope }) (h.0)
        (λ e. absurd (poisoned cause t.scope e))

  on_complete-IsSound :
      (p : Phase) (n : ℕ) (r : Result (Unit {0})) (t : Transaction)
      → t.phase ≡ p
      → Shape total p t
      → IsSound total (on_complete p n r t)
  unfolding on_complete
  on_complete-IsSound (appending m) n r t p h = elim (Bool-cases (m == n)) [
    | inl mine ↦ rw mine (after_append-IsSound m r (record t { scope = complete n r t.scope }) h)
    | inr other ↦ rw other (unchanged _ p h)
  ]
  on_complete-IsSound draining n r t p h =
      drain-IsSound (record t { scope = complete n r t.scope }) p
        (h.0, λ e. h.1 (complete_failure n r t.scope e))
  on_complete-IsSound closing n r t p h =
      roll_back-IsSound (finished (complete n r t.scope))
        (record t { scope = complete n r t.scope }) p h
  on_complete-IsSound q n r t p h = unchanged _ p h

  step-IsSound : (t : Transaction) (e : Event) → IsSound total t → IsSound total (step t e)
  unfolding step
  step-IsSound t (replied r) h = on_reply-IsSound t.phase r t refl h
  step-IsSound t requested h = on_request-IsSound t.phase t refl h
  step-IsSound t (completed n r) h = on_complete-IsSound t.phase n r t refl h
  step-IsSound t (settled r) h = on_settle-IsSound t.phase r t refl h
  step-IsSound t (client_error cause) h = on_client_error-IsSound t.phase cause t refl h

  pub run-IsSound :
      (t : Transaction) (events : List Event) → IsSound total t → IsSound total (run t events)
  unfolding run
  run-IsSound t [] h = h
  run-IsSound t (e ∷ events) h = run-IsSound (step t e) events (step-IsSound t e h)
