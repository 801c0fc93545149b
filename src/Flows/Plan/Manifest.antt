-- ===== src/Flows/Plan/Manifest.antt =====
-- The children that a flow hands to the engine: their keys.
use mathlib.Core.Path.{subst}
use bettter_nest_mq.Prelude.{
  ℕ, ◌≤◌, ◌≡◌, ap, sym, ◌∙◌, Bool, false, ◌||◌, Option, none, some, List, [], ◌∷◌, map, Text,
  length, leb, Number, ok, >>=-eq-ok, >>_iff, ok-injective, reject_if, reject_if_iff, is_some, Eq,
  arith,
}
use bettter_nest_mq.Policies.Compile.{PersistedBackoff}
use bettter_nest_mq.Schema.{Json, validate_schema, encode_schema, parsed}
use bettter_nest_mq.Flows.{invalid, has}
use bettter_nest_mq.Flows.Plan.{
  ChildEntry, ChildInput, ChildPlan, CompiledChild, check_key, compile_child, compile_items,
  compile_groups, compile_flow_children, flow_child_entry, check_backoff, option_of,
}
use bettter_nest_mq.Publication.{publication_retry, publication_metadata}

-- No key is repeated.
abbrev pub IsDistinct : List Text → Type 0
IsDistinct [] = Unit
IsDistinct (key ∷ keys) = (has key keys ≡ false) × IsDistinct keys

abbrev pub IsManifest : ℕ → List Text → Type 0
IsManifest max_children keys = IsDistinct keys × (length keys ≤ max_children)

module _ {Value : Type 0} where
  -- The keys of all items in order, put in front of others one by one.
  abbrev pub keys_onto : List Text → List (ChildInput Value) → List Text
  keys_onto keys [] = keys
  keys_onto keys (item ∷ items) = keys_onto (item.key ∷ keys) items

  abbrev pub plan_keys_onto : List Text → List (Option (ChildPlan Value)) → List Text
  plan_keys_onto keys [] = keys
  plan_keys_onto keys (none ∷ plans) = plan_keys_onto keys plans
  plan_keys_onto keys (some plan ∷ plans) = plan_keys_onto (keys_onto keys plan.items) plans

  abbrev pub keys_of : List (CompiledChild Value) → List Text
  keys_of = map (λ c. c.key)

  -- The compiled groups have the keys of the plans, in order.
  abbrev pub SameKeys : List (Option (ChildPlan Value)) → List (List (CompiledChild Value)) → Type 0
  SameKeys [] [] = Unit
  SameKeys (some plan ∷ plans) (group ∷ groups) =
      (keys_of group ≡ map (λ i. i.key) plan.items) × SameKeys plans groups
  SameKeys _ _ = ⊥

module _ {Value : Type 0} (json : Json Value) ⦃e : Eq Value⦄ (json_key : Text → Number → Text)
    (same_backoff : Option PersistedBackoff → Option PersistedBackoff → Bool) (max_children : ℕ)
    (children : List (ChildEntry Value)) where
  compile_child-key :
      (entry : ChildEntry Value) (item : ChildInput Value) (c : CompiledChild Value)
      → compile_child json json_key same_backoff entry item ≡ ok c
      → c.key ≡ item.key
  unfolding compile_child
  compile_child-key entry item c h =
      let (payload, _, h1) = >>=-eq-ok (validate_schema entry.schema item.payload) _ h in
      let (text, _, h2) = >>=-eq-ok (encode_schema json entry.schema payload) _ h1 in
      let (input, _, h3) = >>=-eq-ok (parsed json (json.parse text)) _ h2 in
      let (_, h4) =
        (>>_iff (reject_if (is_some (entry.get_dispatch_key payload)) invalid) _ c).0 h3 in
      let (_, h5) =
        (>>_iff (reject_if (is_some (entry.get_idempotency_key payload)) invalid) _ c).0 h4 in
      let (retry, _, h6) =
        >>=-eq-ok (publication_retry json_key entry.job (option_of (λ o. o.retry) item.options)) _
          h5 in
      let (metadata, _, h7) =
        >>=-eq-ok
          (publication_metadata json_key entry.job (option_of (λ o. o.metadata) item.options)) _
          h6 in
      let (_, h8) =
        (>>_iff
            (check_backoff json json_key same_backoff (option_of (λ o. o.retry) item.options) retry
              entry)
            _ c).0
          h7 in
      sym (ap (λ x. x.key) (ok-injective h8))

  check_key-IsManifest :
      (keys : List Text) (key : Text)
      → check_key json json_key same_backoff max_children keys key ≡ ok tt
      → IsManifest max_children keys
      → IsManifest max_children (key ∷ keys)
  check_key-IsManifest keys key h (distinct, bound) =
      let late = (reject_if_iff (has key keys || leb max_children (length keys)) invalid).0 h in
      ((ground arith, distinct), ground arith)

  compile_items-IsManifest :
      (entry : ChildEntry Value) (keys : List Text) (items : List (ChildInput Value))
      (seen : List Text) (group : List (CompiledChild Value))
      → compile_items json json_key same_backoff max_children children entry keys items
        ≡ ok (seen, group)
      → IsManifest max_children keys
      → IsManifest max_children seen
        × (seen ≡ keys_onto keys items)
        × (keys_of group ≡ map (λ i. i.key) items)
  unfolding compile_items
  compile_items-IsManifest entry keys [] seen group h m =
      let q = ok-injective h in
      (
        subst (IsManifest max_children) (ap (λ p. p.0) q) m,
        sym (ap (λ p. p.0) q),
        sym (ap (λ p. keys_of (p.1)) q),
      )
  compile_items-IsManifest entry keys (item ∷ items) seen group h m =
      let (fresh, h1) =
        (>>_iff (check_key json json_key same_backoff max_children keys item.key) _ (seen, group)).0
          h in
      let (child, compiled, h2) =
        >>=-eq-ok (compile_child json json_key same_backoff entry item) _ h1 in
      let ((seen', rest), others, h3) =
        >>=-eq-ok
          (compile_items json json_key same_backoff max_children children entry (item.key ∷ keys)
            items)
          _ h2 in
      let (manifest, onto, same) =
        compile_items-IsManifest entry (item.key ∷ keys) items seen' rest others
          (check_key-IsManifest keys item.key fresh m) in
      let q = ok-injective h3 in
      let first = compile_child-key entry item child compiled in
      (
        subst (IsManifest max_children) (ap (λ p. p.0) q) manifest,
        sym (ap (λ p. p.0) q) ∙ onto,
        sym (ap (λ p. keys_of (p.1)) q)
            ∙ ap (λ k. k ∷ keys_of rest) first
            ∙ ap (λ l. item.key ∷ l) same,
      )

  compile_groups-IsManifest :
      (keys : List Text) (plans : List (Option (ChildPlan Value))) (seen : List Text)
      (groups : List (List (CompiledChild Value)))
      → compile_groups json json_key same_backoff max_children children keys plans
        ≡ ok (seen, groups)
      → IsManifest max_children keys
      → IsManifest max_children seen × (seen ≡ plan_keys_onto keys plans) × SameKeys plans groups
  unfolding compile_groups
  compile_groups-IsManifest keys [] seen groups h m =
      let q = ok-injective h in
      (
        subst (IsManifest max_children) (ap (λ p. p.0) q) m,
        sym (ap (λ p. p.0) q),
        subst (SameKeys []) (ap (λ p. p.1) q) tt,
      )
  compile_groups-IsManifest keys (none ∷ plans) seen groups h m = cc h
  compile_groups-IsManifest keys (some plan ∷ plans) seen groups h m =
      let (entry, _, h1) = >>=-eq-ok (flow_child_entry children plan.job) _ h in
      let ((seen', group), first, h2) =
        >>=-eq-ok
          (compile_items json json_key same_backoff max_children children entry keys plan.items) _
          h1 in
      let ((all_seen, rest), others, h3) =
        >>=-eq-ok (compile_groups json json_key same_backoff max_children children seen' plans) _
          h2 in
      let (manifest, onto, same) =
        compile_items-IsManifest entry keys plan.items seen' group first m in
      let (manifest', onto', same') =
        compile_groups-IsManifest seen' plans all_seen rest others manifest in
      let q = ok-injective h3 in
      (
        subst (IsManifest max_children) (ap (λ p. p.0) q) manifest',
        sym (ap (λ p. p.0) q) ∙ onto' ∙ ap (λ k. plan_keys_onto k plans) onto,
        subst (SameKeys (some plan ∷ plans)) (ap (λ p. p.1) q) (same, same'),
      )

  -- Whenever the plans that a FanOut returns compile, the keys of all their items, across all groups,
  -- are distinct, there are at most as many as the flow allows, and the compiled groups are those of
  -- the plans, in order and with the same keys in order: no child is dropped and none is added.
  pub compile_flow_children-IsManifest :
      (plans : List (Option (ChildPlan Value))) (groups : List (List (CompiledChild Value)))
      → compile_flow_children json json_key same_backoff max_children children (some plans)
        ≡ ok groups
      → IsManifest max_children (plan_keys_onto [] plans) × SameKeys plans groups
  unfolding compile_flow_children
  compile_flow_children-IsManifest plans groups h =
      let ((seen, compiled), first, h1) =
        >>=-eq-ok (compile_groups json json_key same_backoff max_children children [] plans) _ h in
      let (manifest, onto, same) =
        compile_groups-IsManifest [] plans seen compiled first (tt, omega arith) in
      (subst (IsManifest max_children) onto manifest, subst (SameKeys plans) (ok-injective h1) same)
