-- ===== src/Flows/Cycles.antt =====
-- What the check for cycles of engine/flow-discovery.ts means.
use bettter_nest_mq.Prelude.{
  ℕ, zero, suc, ◌≡◌, inl, inr, refl, sym, ap, ◌∙◌, Bool, true, false, Option, none, some, List, [],
  ◌∷◌, Text, In, text_eq_refl, length, Result, ok, err, arith,
}
use bettter_nest_mq.Flows.{
  FlowEntry, CompiledFlow, has, nested_flow, after_visit, visit_nested, visit_children, visit_fresh,
  visit, visit_all, check_cycles,
}

module _ (flows : List CompiledFlow) where
  -- A child of `f` is the parent job of the flow `g`.
  abbrev pub Edge : CompiledFlow → CompiledFlow → Type 0
  Edge f g = (child : FlowEntry) × In child f.children × (nested_flow flows child.key ≡ some g)

  -- One edge or more.
  pub data Reaches : CompiledFlow → CompiledFlow → Type 0 where
    direct : {f g : CompiledFlow} → Edge f g → Reaches f g
    through : {f g : CompiledFlow} (h : CompiledFlow) → Edge f h → Reaches h g → Reaches f g

  after_visit-ok :
      (a b : Option (Result (Unit {0})))
      → after_visit flows a b ≡ some (ok tt)
      → (a ≡ some (ok tt)) × (b ≡ some (ok tt))
  after_visit-ok none b h = cc h
  after_visit-ok (some (err e)) b h = cc h
  after_visit-ok (some (ok _)) b h = (refl, h)

  visit_nested-ok :
      (v : CompiledFlow → Option (Result (Unit {0}))) (o : Option CompiledFlow) (g : CompiledFlow)
      → visit_nested flows v o ≡ some (ok tt)
      → o ≡ some g
      → v g ≡ some (ok tt)
  visit_nested-ok v none g h e = cc e
  visit_nested-ok v (some f) g h e = ground (arith, h, e)

  visit_children-ok :
      (v : CompiledFlow → Option (Result (Unit {0}))) (children : List FlowEntry)
      (child : FlowEntry) (g : CompiledFlow)
      → visit_children flows v children ≡ some (ok tt)
      → In child children
      → nested_flow flows child.key ≡ some g
      → v g ≡ some (ok tt)
  unfolding visit_children
  visit_children-ok v [] child g h m e = absurd m
  visit_children-ok v (c ∷ children) child g h (inl p) e =
      visit_nested-ok v (nested_flow flows c.key) g (after_visit-ok _ _ h).0
        (ap (λ x. nested_flow flows x.key) (sym p) ∙ e)
  visit_children-ok v (c ∷ children) child g h (inr m) e =
      visit_children-ok v children child g (after_visit-ok _ _ h).1 m e

  visit_fresh-ok :
      (b : Bool) (rest : Option (Result (Unit {0})))
      → visit_fresh flows b rest ≡ some (ok tt)
      → (b ≡ false) × (rest ≡ some (ok tt))
  visit_fresh-ok true rest h = cc h
  visit_fresh-ok false rest h = (refl, h)

  has-tail :
      (name other : Text) (path : List Text)
      → has name (other ∷ path) ≡ false
      → has name path ≡ false
  has-tail name other path h = ground arith

  visit-fresh :
      (fuel : ℕ) (path : List Text) (f : CompiledFlow)
      → visit flows fuel path f ≡ some (ok tt)
      → has f.name path ≡ false
  unfolding visit
  visit-fresh zero path f h = cc h
  visit-fresh (suc fuel) path f h = (visit_fresh-ok _ _ h).0

  visit-Edge :
      (fuel : ℕ) (path : List Text) (f g : CompiledFlow)
      → visit flows (suc fuel) path f ≡ some (ok tt)
      → Edge f g
      → visit flows fuel (f.name ∷ path) g ≡ some (ok tt)
  unfolding visit
  visit-Edge fuel path f g h (child, m, e) =
      visit_children-ok (visit flows fuel (f.name ∷ path)) f.children child g
        (visit_fresh-ok _ _ h).1 m e

  visit-Reaches :
      (fuel : ℕ) (path : List Text) {f g : CompiledFlow}
      → visit flows fuel path f ≡ some (ok tt)
      → Reaches f g
      → has g.name (f.name ∷ path) ≡ false
  unfolding visit
  visit-Reaches zero path {f} {g} h r = cc (h)
  visit-Reaches (suc fuel) path {f} {g} h (direct edge) =
      visit-fresh fuel (f.name ∷ path) g (visit-Edge fuel path f g h edge)
  visit-Reaches (suc fuel) path {f} {g} h (through k edge r) =
      has-tail g.name k.name (f.name ∷ path)
        (visit-Reaches fuel (f.name ∷ path) (visit-Edge fuel path f k h edge) r)

  visit_all-ok :
      (fuel : ℕ) (fs : List CompiledFlow) (f : CompiledFlow)
      → visit_all flows fuel fs ≡ some (ok tt)
      → In f fs
      → visit flows fuel [] f ≡ some (ok tt)
  unfolding visit_all
  visit_all-ok fuel [] f h m = absurd m
  visit_all-ok fuel (g ∷ fs) f h (inl p) = rw p (after_visit-ok _ _ h).0
  visit_all-ok fuel (g ∷ fs) f h (inr m) = visit_all-ok fuel fs f (after_visit-ok _ _ h).1 m

  has_self : (f : CompiledFlow) (path : List Text) → has f.name (f.name ∷ path) ≡ true
  has_self f path = rw (text_eq_refl f.name) refl

-- Where the check passes, no flow reaches itself: there is no way from a flow's parent job through
-- the children of flows back to that job's flow, however long.
pub check_cycles_acyclic :
    (flows : List CompiledFlow) (f : CompiledFlow)
    → check_cycles flows ≡ some (ok tt)
    → In f flows
    → ¬ (Reaches flows f f)
unfolding check_cycles
check_cycles_acyclic flows f h m r =
    let fresh =
      visit-Reaches flows (suc (length flows)) []
        (visit_all-ok flows (suc (length flows)) flows f h m) r in
    cc (fresh, has_self flows f [])
