-- ===== src/Outbox/Scope/Laws.antt =====
-- The histories of a scope, and the failure that finishing it reports.
use bettter_nest_mq.Prelude.{
  ℕ, ◌≡◌, refl, ap, ◌∙◌, or_option, Option, none, some, List, [], ◌∷◌, Failure, Result, ok, err,
  keep_first, Bool-cases, inl, inr,
}
use bettter_nest_mq.Outbox.Scope.{Scope, poison, execute, complete, stop, drained}

-- What happens to a scope.
pub data Event : Type 0 where
  executed : ℕ → Event
  completed : ℕ → Result (Unit {0}) → Event
  poisoned : Failure → Event
  stopped : Event

abbrev pub after : Event → Scope → Scope
after (executed n) s = (execute n s).0
after (completed n r) s = complete n r s
after (poisoned cause) s = poison cause s
after stopped s = stop s

abbrev pub history : List Event → Scope → Scope
history [] s = s
history (e ∷ es) s = history es (after e s)

abbrev pub reported : Event → Option Failure
reported (executed n) = none
reported (completed n (ok _)) = none
reported (completed n (err cause)) = some cause
reported (poisoned cause) = some cause
reported stopped = none

-- The first failure that the events report.
abbrev pub first_failure : List Event → Option Failure
first_failure [] = none
first_failure (e ∷ es) = or_option (reported e) (first_failure es)

or_option_assoc :
    (a b c : Option Failure) → or_option (or_option a b) c ≡ or_option a (or_option b c)
or_option_assoc none b c = refl
or_option_assoc (some a) b c = refl

keep_first-eq : (a : Option Failure) (f : Failure) → keep_first a f ≡ or_option a (some f)
keep_first-eq none f = refl
keep_first-eq (some a) f = refl

or_option-none : (a : Option Failure) → a ≡ or_option a none
or_option-none none = refl
or_option-none (some a) = refl

execute-failure : (n : ℕ) (s : Scope) → (execute n s).0.failure ≡ s.failure
unfolding execute
execute-failure n s = elim (Bool-cases s.accepting) [ inl p ↦ rw p refl | inr p ↦ rw p refl ]

after-failure : (e : Event) (s : Scope) → (after e s).failure ≡ or_option s.failure (reported e)
unfolding complete poison stop
after-failure (executed n) s = execute-failure n s ∙ or_option-none s.failure
after-failure (completed n (ok _)) s = or_option-none s.failure
after-failure (completed n (err cause)) s = keep_first-eq s.failure cause
after-failure (poisoned cause) s = keep_first-eq s.failure cause
after-failure stopped s = or_option-none s.failure

pub history-failure :
    (es : List Event) (s : Scope) → (history es s).failure ≡ or_option s.failure (first_failure es)
history-failure [] s = or_option-none s.failure
history-failure (e ∷ es) s =
    history-failure es (after e s)
    ∙ ap (λ f. or_option f (first_failure es)) (after-failure e s)
    ∙ or_option_assoc s.failure (reported e) (first_failure es)

abbrev pub verdict : Option Failure → Result (Unit {0})
verdict none = ok tt
verdict (some cause) = err cause

pub drained-eq :
    (pending : List ℕ) (failure : Option Failure) (r : Result (Unit {0}))
    → drained pending failure ≡ some r
    → (pending ≡ []) × (r ≡ verdict failure)
drained-eq [] none r h = (refl, cc h)
drained-eq [] (some cause) r h = (refl, cc h)
drained-eq (n ∷ pending) failure r h = cc h
