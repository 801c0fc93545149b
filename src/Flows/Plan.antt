-- ===== src/Flows/Plan.antt =====
-- engine/flow-plan.ts: the children that a FanOut returns, and the delivery under which Collect
-- runs. A child's schema, its key factories and the parent's handlers are the application's;
-- isDeepStrictEqual on backoffs is the parameter `same_backoff`. The reader of the results and its
-- close are left out.
pub mod Manifest
use bettter_nest_mq.Prelude.{
  ℕ, Bool, true, false, ◌&&◌, ◌||◌, not, Option, none, some, List, [], ◌∷◌, map, Text, text_eq,
  find, length, leb, ◌==◌, Number, Result, ok, err, ◌>>=◌, ◌>>◌, Failure, flow, FlowReason,
  reject_if, require, is_some, Eq,
}
use bettter_nest_mq.Controls.{Effect, success, failure}
use bettter_nest_mq.Policies.{RetryOptions}
use bettter_nest_mq.Policies.Compile.{PersistedBackoff, compile_backoff}
use bettter_nest_mq.Publication.{Metadata, RegisteredJob, publication_retry, publication_metadata}
use bettter_nest_mq.Schema.{
  ValueSchema, Json, validate_schema, encode_schema, parsed, validate_domain_failure,
}
use bettter_nest_mq.Flows.{invalid, has}

pub record Reference : Type 0 where
  pub queue : Text
  pub property : Text

-- A declared child of a flow.
pub record ChildEntry (Value : Type 0) : Type 0 where
  pub reference : Reference
  pub job : RegisteredJob
  pub schema : ValueSchema Value
  pub get_dispatch_key : Value → Option Text
  pub get_idempotency_key : Value → Option Text
  pub default_backoff : Option PersistedBackoff

pub record ChildOptions : Type 0 where
  pub retry : Option RetryOptions
  pub metadata : Option Metadata
  pub priority : Option Number
  pub timeout_ms : Option Number

pub record ChildInput (Value : Type 0) : Type 0 where
  pub key : Text
  pub payload : Value
  pub options : Option ChildOptions

-- FlowChildPlan
pub record ChildPlan (Value : Type 0) : Type 0 where
  pub job : Reference
  pub items : List (ChildInput Value)

-- What a FanOut returns: no array, or an array of plans and of other values (`none`).
abbrev pub Returned : Type 0 → Type 0
Returned Value = Option (List (Option (ChildPlan Value)))

pub record CompiledChild (Value : Type 0) : Type 0 where
  pub key : Text
  pub payload : Value
  pub attempts : Number
  pub metadata : Metadata
  pub priority : Option Number
  pub timeout_ms : Option Number

-- The keys that were seen, the last one first, and what was compiled.
abbrev pub Seen : Type 0 → Type 0
Seen A = List Text × A

abbrev pub option_of : {A B : Type 0} → (A → Option B) → Option A → Option B
option_of f none = none
option_of f (some a) = f a

abbrev pub same_reference : Reference → Reference → Bool
same_reference a b = text_eq a.queue b.queue && text_eq a.property b.property

-- flowChildEntry: a reference is known by its queue and its property.
unfoldable pub flow_child_entry :
    {Value : Type 0} → List (ChildEntry Value) → Reference → Result (ChildEntry Value)
flow_child_entry [] r = err (flow FlowReason.identity)
flow_child_entry (entry ∷ entries) r = elim (same_reference entry.reference r) [
  | true ↦ ok entry
  | false ↦ flow_child_entry entries r
]

module _ {Value : Type 0} (json : Json Value) ⦃e : Eq Value⦄ (json_key : Text → Number → Text)
    (same_backoff : Option PersistedBackoff → Option PersistedBackoff → Bool) where
  -- A repeated key, or one key too many.
  abbrev pub check_key : ℕ → List Text → Text → Result (Unit {0})
  check_key max_children keys key =
      reject_if (has key keys || leb max_children (length keys)) invalid

  -- The backoff of a retry that overrides the declared one must compile to the declared one's.
  abbrev pub check_backoff :
      Option RetryOptions → RetryOptions → ChildEntry Value → Result (Unit {0})
  check_backoff none retry entry = ok tt
  check_backoff (some _) retry entry = compile_backoff retry >>= λ backoff.
      reject_if (not (same_backoff backoff entry.default_backoff)) invalid

  unfoldable pub compile_child : ChildEntry Value → ChildInput Value → Result (CompiledChild Value)
  compile_child entry item = do
    payload ← validate_schema entry.schema item.payload
    text ← encode_schema json entry.schema payload
    input ← parsed json (json.parse text)
    reject_if (is_some (entry.get_dispatch_key payload)) invalid
    reject_if (is_some (entry.get_idempotency_key payload)) invalid
    retry ← publication_retry json_key entry.job (option_of (λ o. o.retry) item.options)
    metadata ← publication_metadata json_key entry.job (option_of (λ o. o.metadata) item.options)
    check_backoff (option_of (λ o. o.retry) item.options) retry entry
    ok (record {
      key = item.key;
      payload = input;
      attempts = retry.attempts;
      metadata = metadata;
      priority = option_of (λ o. o.priority) item.options;
      timeout_ms = option_of (λ o. o.timeout_ms) item.options;
    })

  module _ (max_children : ℕ) (children : List (ChildEntry Value)) where
    unfoldable pub compile_items :
        ChildEntry Value
        → List Text
        → List (ChildInput Value)
        → Result (Seen (List (CompiledChild Value)))
    compile_items entry keys [] = ok (keys, [])
    compile_items entry keys (item ∷ items) = do
      check_key max_children keys item.key
      child ← compile_child entry item
      (seen, rest) ← compile_items entry (item.key ∷ keys) items
      ok (seen, child ∷ rest)

    unfoldable pub compile_groups :
        List Text
        → List (Option (ChildPlan Value))
        → Result (Seen (List (List (CompiledChild Value))))
    compile_groups keys [] = ok (keys, [])
    compile_groups keys (none ∷ plans) = err invalid
    compile_groups keys (some plan ∷ plans) = do
      entry ← flow_child_entry children plan.job
      (seen, group) ← compile_items entry keys plan.items
      (all_seen, groups) ← compile_groups seen plans
      ok (all_seen, group ∷ groups)

    unfoldable pub compile_flow_children :
        Returned Value → Result (List (List (CompiledChild Value)))
    compile_flow_children none = err invalid
    compile_flow_children (some plans) = compile_groups [] plans >>= λ r. ok (r.1)

-- The parent as the store has it when Collect is reached.
pub record ParentJob : Type 0 where
  pub is_active : Bool
  pub lease_owner : Option Text
  pub delivery_count : ℕ
  pub lease_expires_at : Option ℕ

pub record Delivery : Type 0 where
  pub worker_id : Text
  pub delivery : ℕ
  pub aborted : Bool

abbrev pub is_owner : Option Text → Text → Bool
is_owner none worker = false
is_owner (some owner) worker = text_eq owner worker

abbrev pub is_leased : Option ℕ → ℕ → Bool
is_leased none now = false
is_leased (some expires) now = not (leb expires now)

abbrev pub owns_lease : Delivery → ℕ → Option ParentJob → Bool
owns_lease d now none = false
owns_lease d now (some job) =
    not d.aborted
    && (job.is_active
        && (is_owner job.lease_owner d.worker_id
            && (job.delivery_count == d.delivery && is_leased job.lease_expires_at now)))

-- The check ahead of the user's Collect.
unfoldable pub check_delivery : Delivery → ℕ → Effect (Option ParentJob) → Result (Unit {0})
check_delivery d now (failure e) = err (flow FlowReason.operation)
check_delivery d now (success job) = require (owns_lease d now job) (flow FlowReason.operation)

-- How a phase of the user ends, and what the handler makes of it for the engine.
pub data PhaseEnd (Value : Type 0) : Type 0 where
  returns : Value → PhaseEnd Value
  fails : Value → PhaseEnd Value
  throws : Failure → PhaseEnd Value

pub data Handled (A Value : Type 0) : Type 0 where
  done : A → Handled A Value
  failed : Value → Handled A Value
  rejected : Failure → Handled A Value

abbrev pub handled : {A Value : Type 0} → Result A → Handled A Value
handled (ok a) = done a
handled (err e) = rejected e

abbrev pub domain_failure : {A Value : Type 0} → Result Value → Handled A Value
domain_failure (ok v) = failed v
domain_failure (err e) = rejected e

module _ {Value A : Type 0} (json : Json Value) ⦃e : Eq Value⦄
    (errors : Option (ValueSchema Value)) where
  -- The try and the catch around both phases.
  unfoldable pub handle_phase : (Value → Result A) → PhaseEnd Value → Handled A Value
  handle_phase compile (returns v) = handled (compile v)
  handle_phase compile (fails v) = domain_failure (validate_domain_failure json errors v)
  handle_phase compile (throws cause) = rejected cause

  unfoldable pub handle_collect :
      Delivery
      → ℕ
      → Effect (Option ParentJob)
      → (Value → Result A)
      → PhaseEnd Value
      → Handled A Value
  handle_collect d now current compile phase = elim (check_delivery d now current) [
    | ok _ ↦ handle_phase compile phase
    | err cause ↦ rejected cause
  ]
