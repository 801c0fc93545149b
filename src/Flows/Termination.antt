-- ===== src/Flows/Termination.antt =====
-- The check for cycles of engine/flow-discovery.ts comes to its end.
use bettter_nest_mq.Prelude.{
  ℕ, zero, suc, ◌+◌, ◌≤◌, ◌<◌, ◌≡◌, ◌≢◌, ◌⊎◌, inl, inr, refl, sym, ap, ◌∙◌, Bool, true, false,
  Option, none, some, or_option, Option-cases, List, [], ◌∷◌, Text, In, length, text_eq,
  text_eq_refl, if◌then◌else◌, Result, ok, err, arith, Bool-cases,
}
use bettter_nest_mq.Flows.{
  FlowEntry, CompiledFlow, has, nested_flow, after_visit, visit_nested, visit_children, visit,
  visit_all, check_cycles,
}

-- The flows whose names are not in a path.
abbrev fresh : List CompiledFlow → List Text → ℕ
fresh [] path = 0
fresh (f ∷ flows) path = (if has f.name path then 0 else 1) + fresh flows path

fresh-le-length : (flows : List CompiledFlow) (path : List Text) → fresh flows path ≤ length flows
fresh-le-length [] path = omega arith
fresh-le-length (f ∷ flows) path = ground (arith, fresh-le-length flows path)

fresh-cons :
    (flows : List CompiledFlow) (path : List Text) (name : Text)
    → fresh flows (name ∷ path) ≤ fresh flows path
fresh-cons [] path name = omega arith
fresh-cons (f ∷ flows) path name = ground (arith, fresh-cons flows path name)

fresh-lt :
    (flows : List CompiledFlow) (path : List Text) (f : CompiledFlow)
    → In f flows
    → has f.name path ≡ false
    → fresh flows (f.name ∷ path) < fresh flows path
fresh-lt [] path f m h = absurd m
fresh-lt (g ∷ flows) path f (inl p) h =
    let same_name = ap (λ x. text_eq x.name f.name) (sym p) ∙ text_eq_refl f.name in
    let unseen = ap (λ x. has x.name path) (sym p) ∙ h in
    rw (same_name, unseen) (omega (arith, fresh-cons flows path f.name))
fresh-lt (g ∷ flows) path f (inr m) h = ground (arith, fresh-lt flows path f m h)

or_option-cases :
    (o : Option CompiledFlow) (b : Bool) (f g : CompiledFlow)
    → or_option o (if b then some f else none) ≡ some g
    → (g ≡ f) ⊎ (o ≡ some g)
or_option-cases none true f g h = inl (cc h)
or_option-cases none false f g h = cc h
or_option-cases (some x) b f g h = inr h

nested_flow-In :
    (flows : List CompiledFlow) (key : Text) (g : CompiledFlow)
    → nested_flow flows key ≡ some g
    → In g flows
unfolding nested_flow
nested_flow-In [] key g h = cc h
nested_flow-In (f ∷ flows) key g h =
    elim (or_option-cases (nested_flow flows key) (text_eq f.parent.key key) f g h) [
      | inl p ↦ inl p
      | inr p ↦ inr (nested_flow-In flows key g p)
    ]

module _ (flows : List CompiledFlow) where
  after_visit-total :
      (a b : Option (Result (Unit {0}))) → a ≢ none → b ≢ none → after_visit flows a b ≢ none
  after_visit-total none b h k = λ _. h refl
  after_visit-total (some (err e)) b h k = λ q. cc q
  after_visit-total (some (ok _)) b h k = k

  visit_nested-total :
      (v : CompiledFlow → Option (Result (Unit {0}))) (o : Option CompiledFlow)
      → ((g : CompiledFlow) → o ≡ some g → v g ≢ none)
      → visit_nested flows v o ≢ none
  visit_nested-total v none h = λ q. cc q
  visit_nested-total v (some f) h = h f refl

  visit_children-total :
      (v : CompiledFlow → Option (Result (Unit {0}))) (children : List FlowEntry)
      → ((g : CompiledFlow) → In g flows → v g ≢ none)
      → visit_children flows v children ≢ none
  unfolding visit_children
  visit_children-total v [] h = λ q. cc q
  visit_children-total v (c ∷ children) h =
      after_visit-total _ _
        (visit_nested-total v (nested_flow flows c.key)
          (λ g e. h g (nested_flow-In flows c.key g e)))
        (visit_children-total v children h)

  visit-total :
      (fuel : ℕ) (path : List Text) (f : CompiledFlow)
      → In f flows
      → fresh flows path < fuel
      → visit flows fuel path f ≢ none
  unfolding visit
  visit-total zero path f m lt = absurd (omega (arith, lt))
  visit-total (suc fuel) path f m lt = elim (Bool-cases (has f.name path)) [
    | inl p ↦ rw p (λ q. cc q)
    | inr p ↦ rw p (
        visit_children-total (visit flows fuel (f.name ∷ path)) f.children (λ g k.
          visit-total fuel (f.name ∷ path) g k (omega (arith, fresh-lt flows path f m p, lt))))
  ]

  visit_all-total :
      (fs : List CompiledFlow)
      → ((f : CompiledFlow) → In f fs → In f flows)
      → visit_all flows (suc (length flows)) fs ≢ none
  unfolding visit_all
  visit_all-total [] h = λ q. cc q
  visit_all-total (f ∷ fs) h =
      after_visit-total _ _
        (visit-total (suc (length flows)) [] f (h f (inl refl))
          (omega (arith, fresh-le-length flows [])))
        (visit_all-total fs (λ g m. h g (inr m)))

-- The check comes to its end, whatever cycles there are: the recursion is never deeper than one
-- level for each flow, and one more.
pub check_cycles_ends :
    (flows : List CompiledFlow) → (r : Result (Unit {0})) × (check_cycles flows ≡ some r)
unfolding check_cycles
check_cycles_ends flows = elim (Option-cases (visit_all flows (suc (length flows)) flows)) [
  | inl e ↦ absurd (visit_all-total flows flows (λ f m. m) e)
  | inr found ↦ found
]
