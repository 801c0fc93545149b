-- ===== src/Flows/Uniqueness.antt =====
-- What discoverFlows of engine/flow-discovery.ts guarantees of the flows that it finds.
use mathlib.Core.Path.{subst}
use bettter_nest_mq.Prelude.{
  ◌≡◌, ◌⊎◌, inl, inr, sym, ap, ◌∙◌, Bool, true, false, ◌||◌, not, Option, none, some, List, [], ◌∷◌,
  map, Text, All, Result, ok, ◌>>◌, >>=-eq-ok, >>_iff, require, reject_if, reject_if_iff, rethrow,
  if◌then◌else◌, arith, ok-injective,
}
use bettter_nest_mq.Flows.{
  FlowEntry, FlowOptions, Provider, invalid, has, Discovered, resolve_children, parent_of,
  discover_flow, discover_options, discover_provider, discover_providers, required_worker,
  single_method, methods_of, is_fan_out, is_empty, no_processes,
}

-- No two of the texts are the same.
abbrev pub Distinct : List Text → Type 0
Distinct [] = Unit
Distinct (x ∷ xs) = (has x xs ≡ false) × Distinct xs

-- The names and the parents that are kept are those of the flows, each at most once, and no parent
-- holds distributed permits.
abbrev pub IsDiscovered : Discovered → Type 0
IsDiscovered state =
    (state.names ≡ map (λ f. f.name) state.flows)
    × (state.parents ≡ map (λ f. f.parent.key) state.flows)
    × Distinct state.names
    × Distinct state.parents
    × All (λ f. f.parent.has_controls ≡ false) state.flows

neither : (a b : Bool) → (a || b) ≡ false → (a ≡ false) × (b ≡ false)
neither a b h = ground arith

module _ {Reference : Type 0} (resolve : Reference → Result FlowEntry)
    (define : Text → FlowEntry → List FlowEntry → Result (Unit {0})) where
  parent_of-fresh :
      (state : Discovered) (options : FlowOptions Reference) (parent : FlowEntry)
      → parent_of resolve define state options ≡ ok parent
      → (has options.name state.names ≡ false)
        × (has parent.key state.parents ≡ false)
        × (parent.has_controls ≡ false)
  parent_of-fresh state options parent h =
      let (p, _, rest) = >>=-eq-ok (resolve options.parent) _ h in
      let (checks, e) =
        (>>_iff
            (reject_if (has options.name state.names || has p.key state.parents) invalid
              >> reject_if p.has_controls invalid)
            (ok p) parent).0
          rest in
      let (used, held) =
        (>>_iff (reject_if (has options.name state.names || has p.key state.parents) invalid)
            (reject_if p.has_controls invalid) tt).0
          checks in
      let (name, key) = neither _ _ ((reject_if_iff _ invalid).0 used) in
      let same_parent = ok-injective e in
      (
        name,
        ap (λ x. has x.key state.parents) (sym same_parent) ∙ key,
        ap (λ x. x.has_controls) (sym same_parent) ∙ (reject_if_iff _ invalid).0 held,
      )

  discover_flow-IsDiscovered :
      (p : Provider Reference) (options : FlowOptions Reference) (state next : Discovered)
      → IsDiscovered state
      → discover_flow resolve define p options state ≡ ok next
      → IsDiscovered next
  unfolding discover_flow
  discover_flow-IsDiscovered p options state next (names, parents, n, k, c) h =
      let (worker, _, h1) = >>=-eq-ok (required_worker p.worker) _ h in
      let (_, _, h2) = >>=-eq-ok (reject_if (is_empty p.processes) invalid) _ h1 in
      let (fan_out_method, _, h3) =
        >>=-eq-ok (single_method (methods_of is_fan_out p.phases)) _ h2 in
      let (collect_method, _, h4) =
        >>=-eq-ok (single_method (methods_of (λ phase. not (is_fan_out phase)) p.phases)) _ h3 in
      let (_, _, h5) = >>=-eq-ok (require (no_processes p.phases p.processes) invalid) _ h4 in
      let (parent, found, h6) = >>=-eq-ok (parent_of resolve define state options) _ h5 in
      let (children, _, h7) =
        >>=-eq-ok (resolve_children resolve define [] options.children) _ h6 in
      let (_, _, h8) = >>=-eq-ok (rethrow invalid (define options.name parent children)) _ h7 in
      let (fresh_name, fresh_key, free) = parent_of-fresh state options parent found in
      subst IsDiscovered (ok-injective h8) (
        ap (λ xs. options.name ∷ xs) names,
        ap (λ xs. parent.key ∷ xs) parents,
        (fresh_name, n),
        (fresh_key, k),
        (free, c),
      )

  discover_provider-IsDiscovered :
      (p : Provider Reference) (options : Option (FlowOptions Reference)) (state next : Discovered)
      → IsDiscovered state
      → discover_options resolve define p options state ≡ ok next
      → IsDiscovered next
  discover_provider-IsDiscovered p none state next s h =
      let (_, _, e) = >>=-eq-ok (require (is_empty p.phases) invalid) _ h in
      subst IsDiscovered (ok-injective e) s
  discover_provider-IsDiscovered p (some options) state next s h =
      discover_flow-IsDiscovered p options state next s h

  skipped-or-discovered :
      (b : Bool) (state next : Discovered) (r : Result Discovered)
      → (if b then ok state else r) ≡ ok next
      → (state ≡ next) ⊎ (r ≡ ok next)
  skipped-or-discovered true state next r h = inl (ok-injective h)
  skipped-or-discovered false state next r h = inr h

  -- Discovery keeps the record of its flows sound: the names and the parents' keys that it
  -- remembers are those of the flows, none occurs twice, and no parent job holds distributed
  -- permits while it waits for its children.
  pub discover_providers-IsDiscovered :
      (providers : List (Provider Reference)) (state next : Discovered)
      → IsDiscovered state
      → discover_providers resolve define providers state ≡ ok next
      → IsDiscovered next
  unfolding discover_providers discover_provider
  discover_providers-IsDiscovered [] state next s h = subst IsDiscovered (ok-injective h) s
  discover_providers-IsDiscovered (p ∷ providers) state next s h =
      let (middle, first, rest) = >>=-eq-ok (discover_provider resolve define p state) _ h in
      elim (skipped-or-discovered _ state middle _ first) [
        | inl e ↦
            discover_providers-IsDiscovered providers middle next (subst IsDiscovered e s) rest
        | inr e ↦
            discover_providers-IsDiscovered providers middle next
              (discover_provider-IsDiscovered p p.options state middle s e) rest
      ]
