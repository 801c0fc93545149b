-- ===== src/Outbox/Scope/Pending.antt =====
-- What finishing a scope waits for.
use mathlib.Core.Path.{subst}
use bettter_nest_mq.Prelude.{
  ℕ, ◌≡◌, ◌↔◌, refl, sym, ap, ◌∙◌, Option, none, some, List, [], ◌∷◌, Failure, Result, ok, err,
  Bool, true, false, not, Bool-cases, inl, inr, ◌⊎◌, ◌==◌, ==_iff,
}
use bettter_nest_mq.Outbox.Scope.{
  Scope, opened, remove, poison, execute, complete, stop, finished, drained,
}
use bettter_nest_mq.Outbox.Scope.Laws.{
  Event, executed, completed, poisoned, stopped, after, history, first_failure, verdict,
  history-failure, drained-eq,
}

-- The number is among those of the list.
abbrev pub Member : ℕ → List ℕ → Type 0
Member n [] = ⊥
Member n (m ∷ ms) = (n ≡ m) ⊎ Member n ms

-- The operation completes, with a value or a failure.
abbrev pub Completes : ℕ → List Event → Type 0
Completes n [] = ⊥
Completes n (completed m r ∷ es) = (n ≡ m) ⊎ Completes n es
Completes n (_ ∷ es) = Completes n es

-- Every operation that was executed before the scope was stopped completes later.
abbrev pub Awaited : List Event → Type 0
Awaited [] = Unit
Awaited (executed n ∷ es) = Completes n es × Awaited es
Awaited (stopped ∷ es) = Unit
Awaited (_ ∷ es) = Awaited es

Member-taken :
    (n m : ℕ) (b : Bool) (ms : List ℕ)
    → Member n ms
    → Member n (elim b [ true ↦ m ∷ ms | false ↦ ms ])
Member-taken n m true ms h = inr h
Member-taken n m false ms h = h

Member-filter_head :
    (n m : ℕ) (b : Bool) (ms : List ℕ)
    → b ≡ true
    → n ≡ m
    → Member n (elim b [ true ↦ m ∷ ms | false ↦ ms ])
Member-filter_head n m true ms h e = inl e
Member-filter_head n m false ms h e = cc h

-- Another operation's completion leaves an operation in the set.
Member-remove : (n m : ℕ) (ms : List ℕ) → Member n ms → (n ≡ m) ⊎ Member n (remove m ms)
Member-remove n m [] h = absurd h
Member-remove n m (k ∷ ms) (inr h) = elim (Member-remove n m ms h) [
  | inl e ↦ inl e
  | inr p ↦ inr (Member-taken n k (not (k == m)) (remove m ms) p)
]
Member-remove n m (k ∷ ms) (inl e) = elim (Bool-cases (k == m)) [
  | inl same ↦ inl (e ∙ (==_iff k m).0 same)
  | inr other ↦ inr (Member-filter_head n k (not (k == m)) (remove m ms) (ap not other) e)
]

Member-execute : (n m : ℕ) (s : Scope) → Member n s.pending → Member n (execute m s).0.pending
unfolding execute
Member-execute n m s h = elim (Bool-cases s.accepting) [ inl a ↦ rw a (inr h) | inr c ↦ rw c h ]

execute-Member : (n : ℕ) (s : Scope) → s.accepting ≡ true → Member n (execute n s).0.pending
unfolding execute
execute-Member n s a = rw a (inl refl)

after-Member :
    (n : ℕ) (e : Event) (es : List Event) (s : Scope)
    → Member n s.pending
    → (Completes n es → Completes n (e ∷ es))
      × (Completes n (e ∷ es) ⊎ Member n (after e s).pending)
unfolding complete poison stop
after-Member n (executed m) es s h = ((λ c. c), inr (Member-execute n m s h))
after-Member n (completed m (ok _)) es s h =
    (inr, elim (Member-remove n m s.pending h) [ inl e ↦ inl (inl e) | inr p ↦ inr p ])
after-Member n (completed m (err cause)) es s h =
    (inr, elim (Member-remove n m s.pending h) [ inl e ↦ inl (inl e) | inr p ↦ inr p ])
after-Member n (poisoned cause) es s h = ((λ c. c), inr h)
after-Member n stopped es s h = ((λ c. c), inr h)

-- A pending operation completes if the set becomes empty.
pending-Completes :
    (n : ℕ) (es : List Event) (s : Scope)
    → Member n s.pending
    → (history es s).pending ≡ []
    → Completes n es
pending-Completes n [] s h e = subst (λ l. Member n l) e h
pending-Completes n (x ∷ es) s h e =
    let (later, now) = after-Member n x es s h in
    elim now [ inl c ↦ c | inr p ↦ later (pending-Completes n es (after x s) p e) ]

execute-accepting : (n : ℕ) (s : Scope) → (execute n s).0.accepting ≡ s.accepting
unfolding execute
execute-accepting n s = elim (Bool-cases s.accepting) [ inl p ↦ rw p refl | inr p ↦ rw p refl ]

history-Awaited :
    (es : List Event) (s : Scope) → s.accepting ≡ true → (history es s).pending ≡ [] → Awaited es
unfolding complete poison
history-Awaited [] s a e = tt
history-Awaited (executed n ∷ es) s a e = (
  pending-Completes n es (execute n s).0 (execute-Member n s a) e,
  history-Awaited es (execute n s).0 (execute-accepting n s ∙ a) e,
)
history-Awaited (completed n (ok r) ∷ es) s a e = history-Awaited es (complete n (ok r) s) a e
history-Awaited (completed n (err c) ∷ es) s a e = history-Awaited es (complete n (err c) s) a e
history-Awaited (poisoned cause ∷ es) s a e = history-Awaited es (poison cause s) a e
history-Awaited (stopped ∷ es) s a e = tt

-- What is left in the set is not what completed.
Member-removed_head :
    (n m k : ℕ) (b : Bool) (ms left : List ℕ)
    → (k == n) ≡ b
    → (Member m left → Member m ms × ¬ (m ≡ n))
    → Member m (elim (not b) [ true ↦ k ∷ left | false ↦ left ])
    → Member m (k ∷ ms) × ¬ (m ≡ n)
Member-removed_head n m k true ms left e rest h = let (was, differs) = rest h in (inr was, differs)
Member-removed_head n m k false ms left e rest (inr h) =
    let (was, differs) = rest h in (inr was, differs)
Member-removed_head n m k false ms left e rest (inl h) =
    (inl h, λ same. cc ((==_iff k n).1 (sym h ∙ same), e))

Member-removed : (n m : ℕ) (ms : List ℕ) → Member m (remove n ms) → Member m ms × ¬ (m ≡ n)
Member-removed n m [] h = absurd h
Member-removed n m (k ∷ ms) h =
    Member-removed_head n m k (k == n) ms (remove n ms) refl (Member-removed n m ms) h

-- Only an accepting scope admits an operation.
admitted :
    (n m : ℕ) (s : Scope) (b : Bool)
    → s.accepting ≡ b
    → Member m (elim b [ true ↦ n ∷ s.pending | false ↦ s.pending ])
    → ((s.accepting ≡ true) × (m ≡ n)) ⊎ Member m s.pending
admitted n m s true e (inl h) = inl (e, h)
admitted n m s true e (inr h) = inr h
admitted n m s false e h = inr h

pending-execute :
    (n : ℕ) (s : Scope)
    → (execute n s).0.pending ≡ elim s.accepting [ true ↦ n ∷ s.pending | false ↦ s.pending ]
unfolding execute
pending-execute n s = elim (Bool-cases s.accepting) [ inl p ↦ rw p refl | inr p ↦ rw p refl ]

execute-pending :
    (n m : ℕ) (s : Scope)
    → Member m (execute n s).0.pending
    → ((s.accepting ≡ true) × (m ≡ n)) ⊎ Member m s.pending
execute-pending n m s h =
    admitted n m s s.accepting refl (subst (λ l. Member m l) (pending-execute n s) h)

no_Member : (ms : List ℕ) → ((n : ℕ) → ¬ Member n ms) → ms ≡ []
no_Member [] h = refl
no_Member (m ∷ ms) h = absurd (h m (inl refl))

other-Completes :
    (n m : ℕ) (es : List Event) → ¬ (m ≡ n) → (m ≡ n) ⊎ Completes m es → Completes m es
other-Completes n m es d (inl e) = absurd (d e)
other-Completes n m es d (inr c) = c

-- If all that is pending completes, and all that will be admitted, nothing is left.
Awaited-history :
    (es : List Event) (s : Scope)
    → (s.accepting ≡ true → Awaited es)
    → ((n : ℕ) → Member n s.pending → Completes n es)
    → (history es s).pending ≡ []
unfolding complete poison stop
Awaited-history [] s a c = no_Member s.pending c
Awaited-history (executed n ∷ es) s a c =
    Awaited-history es (execute n s).0 (λ p. (a (sym (execute-accepting n s) ∙ p)).1)
      λ m h. elim (execute-pending n m s h) [
        | inl (q, e) ↦ subst (λ k. Completes k es) (sym e) (a q).0
        | inr p ↦ c m p
      ]
Awaited-history (completed n (ok r) ∷ es) s a c = Awaited-history es (complete n (ok r) s) a λ m h.
    let (was, differs) = Member-removed n m s.pending h in other-Completes n m es differs (c m was)
Awaited-history (completed n (err f) ∷ es) s a c =
    Awaited-history es (complete n (err f) s) a λ m h.
      let (was, differs) = Member-removed n m s.pending h in
      other-Completes n m es differs (c m was)
Awaited-history (poisoned cause ∷ es) s a c = Awaited-history es (poison cause s) a c
Awaited-history (stopped ∷ es) s a c = Awaited-history es (stop s) (λ e. cc e) c

drained-verdict : (failure : Option Failure) → drained [] failure ≡ some (verdict failure)
drained-verdict none = refl
drained-verdict (some cause) = refl

-- A scope's `finish` settles exactly if every operation that was executed before the scope was
-- stopped has completed since, whatever was executed, completed, poisoned and stopped and in
-- whatever order; and then it throws the first failure that was reported, or nothing where none
-- was.
pub finished-history_iff :
    (es : List Event) (r : Result (Unit {0}))
    → (finished (history es opened) ≡ some r) ↔ (Awaited es × (r ≡ verdict (first_failure es)))
unfolding finished
finished-history_iff es r =
    let s = history es opened in
    (
      λ h.
          let (empty, e) = drained-eq s.pending s.failure r h in
          (history-Awaited es opened refl empty, e ∙ ap verdict (history-failure es opened)),
      λ h.
          let empty = Awaited-history es opened (λ _. h.0) (λ n m. absurd m) in
          ap (λ p. drained p s.failure) empty
          ∙ drained-verdict s.failure
          ∙ ap some (ap verdict (history-failure es opened) ∙ sym (h.1)),
    )
