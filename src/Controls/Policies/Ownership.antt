-- ===== src/Controls/Policies/Ownership.antt =====
-- The groups by connection of queue-controls.ts.
use mathlib.Core.List.{append-nil, append_assoc}
use bettter_nest_mq.Prelude.{
  ◌≡◌, refl, ap, sym, ◌∙◌, Bool, true, false, List, [], ◌∷◌, ◌++◌, Text, text_eq, text_eq_iff,
  if◌then◌else◌, Bool-cases, inl, inr,
}
use bettter_nest_mq.Controls.Policies.{QueueDefinition, add_to_group, group_queues}

-- The queues of a connection in the groups.
abbrev pub group_of : Text → List (Text × List QueueDefinition) → List QueueDefinition
group_of connection [] = []
group_of connection ((c, group) ∷ groups) =
    let rest = group_of connection groups in if text_eq c connection then group else rest

abbrev pub of_connection : Text → List QueueDefinition → List QueueDefinition
of_connection connection [] = []
of_connection connection (q ∷ queues) =
    let rest = of_connection connection queues in
    if text_eq q.connection connection then q ∷ rest else rest

-- One more queue is at the end of its connection's group, and nowhere else.
group_of-add :
    (connection : Text) (q : QueueDefinition) (groups : List (Text × List QueueDefinition))
    → group_of connection (add_to_group q groups)
      ≡ group_of connection groups ++ (if text_eq q.connection connection then q ∷ [] else [])
unfolding add_to_group
group_of-add connection q [] = refl
group_of-add connection q ((c, group) ∷ groups) = elim (Bool-cases (text_eq c q.connection)) [
  | inl p ↦
      let same_test = ap (λ x. text_eq x connection) ((text_eq_iff c q.connection).0 p) in
      elim (Bool-cases (text_eq q.connection connection)) [
        | inl o ↦ rw (p, same_test, o) refl
        | inr o ↦ rw (p, same_test, o) (sym (append-nil (group_of connection groups)))
      ]
  | inr p ↦ elim (Bool-cases (text_eq c connection)) [
    | inl o ↦ elim (Bool-cases (text_eq q.connection connection)) [
      | inl e ↦
          let same_group =
            (text_eq_iff c connection).0 o ∙ sym ((text_eq_iff q.connection connection).0 e) in
          let clash = (text_eq_iff c q.connection).1 same_group in absurd (cc (clash, p))
      | inr e ↦ rw (p, e) (rw o (sym (append-nil group)))
    ]
    | inr o ↦ rw (p, o) (group_of-add connection q groups)
  ]
]

add_then_rest :
    (groups rest : List QueueDefinition) (q : QueueDefinition) (b : Bool)
    → groups ++ (if b then q ∷ [] else []) ++ rest ≡ groups ++ (if b then q ∷ rest else rest)
add_then_rest groups rest q true = append_assoc groups (q ∷ []) rest
add_then_rest groups rest q false = rw (append-nil groups) refl

group_of-group_queues_from :
    (connection : Text) (queues : List QueueDefinition)
    (groups : List (Text × List QueueDefinition))
    → group_of connection (group_queues queues groups)
      ≡ group_of connection groups ++ of_connection connection queues
unfolding group_queues
group_of-group_queues_from connection [] groups = sym (append-nil _)
group_of-group_queues_from connection (q ∷ queues) groups =
    group_of-group_queues_from connection queues (add_to_group q groups)
    ∙ ap (λ g. g ++ of_connection connection queues) (group_of-add connection q groups)
    ∙ add_then_rest (group_of connection groups) (of_connection connection queues) q
        (text_eq q.connection connection)

-- The group of a connection is the list of the connection's queues: every queue is in the group of
-- its own connection and in no other, and the groups keep the order of the registry.
pub group_of-group_queues :
    (connection : Text) (queues : List QueueDefinition)
    → group_of connection (group_queues queues []) ≡ of_connection connection queues
group_of-group_queues connection queues = group_of-group_queues_from connection queues []
