-- ===== src/Session/Readiness/Stores.antt =====
-- The names under which the session puts the stores that it resolved.
use mathlib.Core.List.{append-nil}
use bettter_nest_mq.Prelude.{
  ◌≡◌, refl, sym, ◌∙◌, ap, Bool, true, false, List, [], ◌∷◌, ◌++◌, map, filter, Text,
}
use bettter_nest_mq.Session.{StoreKind, jobs, events, flows, schedules, outboxes, Task, Binding}
use bettter_nest_mq.Session.Checks.{with_store_of, binding_names, task, tasks}
use bettter_nest_mq.Session.Machine.Initializing.{has_kind, found_names}

names_by : (Task → Bool) → List Task → List Text
names_by p found = map (λ t. t.name) (filter p found)

module _ (p : Task → Bool) where
  names_by-take :
      (b : Bool) (t : Task) (rest : List Task) (more : List Text)
      → map (λ t'. t'.name) (elim b [ true ↦ t ∷ rest | false ↦ rest ]) ++ more ≡ elim b [
        | true ↦ t.name ∷ (map (λ t'. t'.name) rest ++ more)
        | false ↦ map (λ t'. t'.name) rest ++ more
      ]
  names_by-take true t rest more = refl
  names_by-take false t rest more = refl

  names_by-both :
      (b : Bool) (t : Task) (rest : List Task) (more : List Text)
      → map (λ t'. t'.name) rest ≡ more
      → map (λ t'. t'.name) (elim b [ true ↦ t ∷ rest | false ↦ rest ])
        ≡ elim b [ true ↦ t.name ∷ more | false ↦ more ]
  names_by-both true t rest more e = ap (λ l. t.name ∷ l) e
  names_by-both false t rest more e = e

  names_by-append : (xs ys : List Task) → names_by p (xs ++ ys) ≡ names_by p xs ++ names_by p ys
  unfolding names_by
  names_by-append [] ys = refl
  names_by-append (t ∷ xs) ys =
      names_by-both (p t) t (filter p (xs ++ ys)) (names_by p xs ++ names_by p ys)
        (names_by-append xs ys)
      ∙ sym (names_by-take (p t) t (filter p xs) (names_by p ys))

  names_by-all :
      (f : Binding → Task) (bs : List Binding)
      → ((b : Binding) → p (f b) ≡ true)
      → names_by p (map f bs) ≡ map (λ b. (f b).name) bs
  unfolding names_by
  names_by-all f [] h = refl
  names_by-all f (b ∷ bs) h = rw (h b) (ap (λ l. (f b).name ∷ l) (names_by-all f bs h))

  names_by-none :
      (f : Binding → Task) (bs : List Binding)
      → ((b : Binding) → p (f b) ≡ false)
      → names_by p (map f bs) ≡ []
  unfolding names_by
  names_by-none f [] h = refl
  names_by-none f (b ∷ bs) h = rw (h b) (names_by-none f bs h)

  names_by-tasks :
      (bs : List Binding) {js es fs ss os : List Text}
      → names_by p (map (task jobs) bs) ≡ js
      → names_by p (map (task events) (with_store_of (λ r. r.events) bs)) ≡ es
      → names_by p (map (task flows) (with_store_of (λ r. r.flows) bs)) ≡ fs
      → names_by p (map (task schedules) (with_store_of (λ r. r.schedules) bs)) ≡ ss
      → names_by p (map (task outboxes) (with_store_of (λ r. r.outbox) bs)) ≡ os
      → names_by p (tasks bs) ≡ js ++ (es ++ (fs ++ (ss ++ os)))
  unfolding tasks
  names_by-tasks bs j e f s o =
      rw
        (
          names_by-append (map (task jobs) bs) _,
          names_by-append (map (task events) (with_store_of (λ r. r.events) bs)) _,
          names_by-append (map (task flows) (with_store_of (λ r. r.flows) bs)) _,
          names_by-append (map (task schedules) (with_store_of (λ r. r.schedules) bs)) _,
          j,
          e,
          f,
          s,
          o,
        )
        refl

every :
    (k : StoreKind) (bs : List Binding)
    → ((b : Binding) → has_kind k (task k b) ≡ true)
    → names_by (has_kind k) (map (task k) bs) ≡ binding_names bs
every k bs h = names_by-all (has_kind k) (task k) bs h

no :
    (k other : StoreKind) (bs : List Binding)
    → ((b : Binding) → has_kind k (task other b) ≡ false)
    → names_by (has_kind k) (map (task other) bs) ≡ []
no k other bs h = names_by-none (has_kind k) (task other) bs h

-- Once all stores are found, each map has the connections that have a store of its kind.
pub found_names-tasks :
    (bs : List Binding)
    → (found_names jobs (tasks bs) ≡ binding_names bs)
      × (found_names events (tasks bs) ≡ binding_names (with_store_of (λ r. r.events) bs))
      × (found_names flows (tasks bs) ≡ binding_names (with_store_of (λ r. r.flows) bs))
      × (found_names schedules (tasks bs) ≡ binding_names (with_store_of (λ r. r.schedules) bs))
      × (found_names outboxes (tasks bs) ≡ binding_names (with_store_of (λ r. r.outbox) bs))
unfolding names_by
found_names-tasks bs = (
  names_by-tasks (has_kind jobs) bs (every jobs bs (λ _. refl))
        (no jobs events (with_store_of (λ r. r.events) bs) (λ _. refl))
        (no jobs flows (with_store_of (λ r. r.flows) bs) (λ _. refl))
        (no jobs schedules (with_store_of (λ r. r.schedules) bs) (λ _. refl))
        (no jobs outboxes (with_store_of (λ r. r.outbox) bs) (λ _. refl))
      ∙ append-nil (binding_names bs),
  names_by-tasks (has_kind events) bs (no events jobs bs (λ _. refl))
        (every events (with_store_of (λ r. r.events) bs) (λ _. refl))
        (no events flows (with_store_of (λ r. r.flows) bs) (λ _. refl))
        (no events schedules (with_store_of (λ r. r.schedules) bs) (λ _. refl))
        (no events outboxes (with_store_of (λ r. r.outbox) bs) (λ _. refl))
      ∙ append-nil (binding_names (with_store_of (λ r. r.events) bs)),
  names_by-tasks (has_kind flows) bs (no flows jobs bs (λ _. refl))
        (no flows events (with_store_of (λ r. r.events) bs) (λ _. refl))
        (every flows (with_store_of (λ r. r.flows) bs) (λ _. refl))
        (no flows schedules (with_store_of (λ r. r.schedules) bs) (λ _. refl))
        (no flows outboxes (with_store_of (λ r. r.outbox) bs) (λ _. refl))
      ∙ append-nil (binding_names (with_store_of (λ r. r.flows) bs)),
  names_by-tasks (has_kind schedules) bs (no schedules jobs bs (λ _. refl))
        (no schedules events (with_store_of (λ r. r.events) bs) (λ _. refl))
        (no schedules flows (with_store_of (λ r. r.flows) bs) (λ _. refl))
        (every schedules (with_store_of (λ r. r.schedules) bs) (λ _. refl))
        (no schedules outboxes (with_store_of (λ r. r.outbox) bs) (λ _. refl))
      ∙ append-nil (binding_names (with_store_of (λ r. r.schedules) bs)),
  names_by-tasks (has_kind outboxes) bs (no outboxes jobs bs (λ _. refl))
      (no outboxes events (with_store_of (λ r. r.events) bs) (λ _. refl))
      (no outboxes flows (with_store_of (λ r. r.flows) bs) (λ _. refl))
      (no outboxes schedules (with_store_of (λ r. r.schedules) bs) (λ _. refl))
      (every outboxes (with_store_of (λ r. r.outbox) bs) (λ _. refl)),
)
