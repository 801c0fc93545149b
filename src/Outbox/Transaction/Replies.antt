-- ===== src/Outbox/Transaction/Replies.antt =====
-- Which reply answers the COMMIT of a managed transaction, by the events alone: the reply that
-- comes while the code stands at the COMMIT's await.
use bettter_nest_mq.Prelude.{
  ℕ, zero, suc, ◌≡◌, ◌⊎◌, inl, inr, refl, ap, ◌∙◌, true, false, Option, none, some, List, [], ◌∷◌,
  ◌++◌, Failure, Result, ok, err, Bool-cases, ◌==◌,
}
use bettter_nest_mq.Outbox.Scope.{poison, complete, stop, finished}
use bettter_nest_mq.Outbox.Transaction.{
  Phase, beginning, calling, draining, committing, closing, rolling_back, releasing, appending,
  done, Transaction, Event, replied, requested, completed, settled, client_error, on_reply,
  on_request, on_complete, on_settle, on_client_error, step, run, append_next, after_append,
  begin_finish, drain, try_commit, close, roll_back, catch,
}

-- Among the events there is a success that answers the COMMIT.
abbrev pub CommitAnswered : Transaction → List Event → Type 0
CommitAnswered t events =
    (before : List Event) × (after : List Event) × (events ≡ before ++ replied (ok tt) ∷ after)
    × ((run t before).phase ≡ committing)

roll_back-committed :
    (r : Option (Result (Unit {0}))) (t : Transaction) → (roll_back r t).committed ≡ t.committed
roll_back-committed none t = refl
roll_back-committed (some (ok _)) t = refl
roll_back-committed (some (err cause)) t = refl

close-committed : (t : Transaction) → (close t).committed ≡ t.committed
close-committed t = roll_back-committed (finished t.scope) t

drain-committed : (t : Transaction) → (drain t).committed ≡ t.committed
drain-committed t = of_result (finished t.scope)
  where
    of_result : (r : Option (Result (Unit {0}))) → (try_commit r t).committed ≡ t.committed
    of_result none = refl
    of_result (some (ok _)) = refl
    of_result (some (err cause)) = close-committed (catch cause t)

begin_finish-committed : (t : Transaction) → (begin_finish t).committed ≡ t.committed
begin_finish-committed t = drain-committed (record t { phase = draining; scope = stop t.scope })

append_next-committed :
    (records : ℕ) (t : Transaction) → (append_next records t).committed ≡ t.committed
append_next-committed zero t = begin_finish-committed t
append_next-committed (suc records) t = refl

after_append-committed :
    (r : Result (Unit {0})) (t : Transaction) → (after_append r t).committed ≡ t.committed
after_append-committed (ok _) t =
    append_next-committed t.records (record t { appended = suc t.appended })
after_append-committed (err cause) t =
    begin_finish-committed (record t { scope = poison cause t.scope })

-- Only a success that answers the COMMIT sets the flag.
on_reply-committed :
    (p : Phase) (r : Result (Unit {0})) (t : Transaction)
    → ((p ≡ committing) × (r ≡ ok tt) × ((on_reply p r t).committed ≡ true))
      ⊎ ((on_reply p r t).committed ≡ t.committed)
unfolding on_reply
on_reply-committed beginning (ok _) t = inr refl
on_reply-committed beginning (err cause) t = inr (close-committed (catch cause t))
on_reply-committed committing (ok tt) t = inl (refl, refl, refl)
on_reply-committed committing (err cause) t = inr (close-committed (catch cause t))
on_reply-committed rolling_back (ok _) t = inr refl
on_reply-committed rolling_back (err cause) t = inr refl
on_reply-committed releasing (ok _) t = inr refl
on_reply-committed releasing (err cause) t = inr refl
on_reply-committed calling r t = inr refl
on_reply-committed draining r t = inr refl
on_reply-committed closing r t = inr refl
on_reply-committed (appending n) r t = inr refl
on_reply-committed (done o) r t = inr refl

on_request-committed : (p : Phase) (t : Transaction) → (on_request p t).committed ≡ t.committed
unfolding on_request
on_request-committed calling t = refl
on_request-committed p t = refl

on_settle-committed :
    (p : Phase) (r : Result ℕ) (t : Transaction) → (on_settle p r t).committed ≡ t.committed
unfolding on_settle
on_settle-committed calling (ok v) t = append_next-committed t.records (record t { value = some v })
on_settle-committed calling (err cause) t =
    begin_finish-committed (record t { scope = poison cause t.scope })
on_settle-committed p r t = refl

on_client_error-committed :
    (p : Phase) (cause : Failure) (t : Transaction)
    → (on_client_error p cause t).committed ≡ t.committed
unfolding on_client_error
on_client_error-committed releasing cause t = refl
on_client_error-committed (done o) cause t = refl
on_client_error-committed p cause t = refl

on_complete-committed :
    (p : Phase) (n : ℕ) (r : Result (Unit {0})) (t : Transaction)
    → (on_complete p n r t).committed ≡ t.committed
unfolding on_complete
on_complete-committed (appending m) n r t = elim (Bool-cases (m == n)) [
  | inl mine ↦ rw mine (after_append-committed r (record t { scope = complete n r t.scope }))
  | inr other ↦ rw other refl
]
on_complete-committed draining n r t = drain-committed (record t { scope = complete n r t.scope })
on_complete-committed closing n r t = close-committed (record t { scope = complete n r t.scope })
on_complete-committed p n r t = refl

step-committed :
    (t : Transaction) (e : Event)
    → ((t.phase ≡ committing) × (e ≡ replied (ok tt)) × ((step t e).committed ≡ true))
      ⊎ ((step t e).committed ≡ t.committed)
unfolding step
step-committed t (replied r) = elim (on_reply-committed t.phase r t) [
  | inl (p, same, c) ↦ inl (p, ap replied same, c)
  | inr same ↦ inr same
]
step-committed t requested = inr (on_request-committed t.phase t)
step-committed t (completed n r) = inr (on_complete-committed t.phase n r t)
step-committed t (settled r) = inr (on_settle-committed t.phase r t)
step-committed t (client_error cause) = inr (on_client_error-committed t.phase cause t)

-- A transaction becomes committed only by a success that answers its COMMIT.
pub committed-CommitAnswered :
    (t : Transaction) (events : List Event)
    → t.committed ≡ false
    → (run t events).committed ≡ true
    → CommitAnswered t events
unfolding run
committed-CommitAnswered t [] f c = cc (f, c)
committed-CommitAnswered t (e ∷ events) f c = elim (step-committed t e) [
  | inl (p, answer, _) ↦ ([], events, ap (λ x. x ∷ events) answer, p)
  | inr same ↦
      let (before, after, split, p) = committed-CommitAnswered (step t e) events (same ∙ f) c in
      (e ∷ before, after, ap (λ l. e ∷ l) split, p)
]

committed_for_good :
    (t : Transaction) (events : List Event) → t.committed ≡ true → (run t events).committed ≡ true
unfolding run
committed_for_good t [] c = c
committed_for_good t (e ∷ events) c =
    committed_for_good (step t e) events
      (elim (step-committed t e) [ inl (_, _, d) ↦ d | inr same ↦ same ∙ c ])

answered_commits :
    (t : Transaction) → t.phase ≡ committing → (step t (replied (ok tt))).committed ≡ true
unfolding step on_reply
answered_commits t p = ap (λ q. (on_reply q (ok tt) t).committed) p

pub run-append :
    (t : Transaction) (before after : List Event)
    → run t (before ++ after) ≡ run (run t before) after
unfolding run
run-append t [] after = refl
run-append t (e ∷ before) after = run-append (step t e) before after

run-step :
    (t : Transaction) (e : Event) (events : List Event) → run t (e ∷ events) ≡ run (step t e) events
unfolding run
run-step t e events = refl

-- Once its COMMIT is answered with success, a transaction is committed for good.
pub CommitAnswered-committed :
    (t : Transaction) (events : List Event)
    → CommitAnswered t events
    → (run t events).committed ≡ true
CommitAnswered-committed t events (before, after, split, p) =
    ap (λ es. (run t es).committed) split
    ∙ ap (λ u. u.committed) (run-append t before (replied (ok tt) ∷ after))
    ∙ ap (λ u. u.committed) (run-step (run t before) (replied (ok tt)) after)
    ∙ committed_for_good (step (run t before) (replied (ok tt))) after
        (answered_commits (run t before) p)
