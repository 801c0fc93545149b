-- ===== src/Tests/Manifests.antt =====
-- The children of a flow at concrete plans.
use bettter_nest_mq.Prelude.{
  ◌≡◌, refl, true, false, Option, none, some, List, [], ◌∷◌, Text, codes, text_is_eq, Number, nat,
  ok,
}
use bettter_nest_mq.Policies.{default_policy, evaluation}
use bettter_nest_mq.Publication.{get, retry_reference, publication_retry, publication_metadata}
use bettter_nest_mq.Schema.{value, text, Json, standard, validate_schema, json_text, encode_schema}
use bettter_nest_mq.Flows.Plan.{
  ChildEntry, ChildInput, ChildPlan, CompiledChild, Reference, flow_child_entry, compile_child,
  compile_items, compile_groups, compile_flow_children,
}
use bettter_nest_mq.Flows.Plan.Manifest.{
  IsManifest, SameKeys, plan_keys_onto, compile_flow_children-IsManifest,
}

abbrev as_text : Json Text
as_text = record { stringify = λ t. text t; parse = λ t. some t }

abbrev name_only : Text → Number → Text
name_only policy version = policy

abbrev resize : Reference
resize = record { queue = codes "images"; property = codes "resize" }

abbrev resize_entry : ChildEntry Text
resize_entry = record {
  reference = resize;
  job = record { policy = default_policy; per_key_limited = false };
  schema = standard (λ t. value t);
  get_dispatch_key = λ payload. none;
  get_idempotency_key = λ payload. none;
  default_backoff = none;
}

abbrev input : Text → ChildInput Text
input key = record { key = key; payload = codes "img"; options = none }

abbrev two_plans : List (Option (ChildPlan Text))
two_plans =
    some (record { job = resize; items = input (codes "x") ∷ input (codes "y") ∷ [] })
    ∷ some (record { job = resize; items = input (codes "z") ∷ [] })
    ∷ []

abbrev compiled : Text → CompiledChild Text
compiled key = record {
  key = key;
  payload = codes "img";
  attempts = nat 1;
  metadata = [];
  priority = none;
  timeout_ms = none;
}

abbrev two_groups : List (List (CompiledChild Text))
two_groups = (compiled (codes "x") ∷ compiled (codes "y") ∷ []) ∷ (compiled (codes "z") ∷ []) ∷ []

two_plans_compile :
    compile_flow_children as_text name_only (λ a b. true) 3 (resize_entry ∷ []) (some two_plans)
    ≡ ok two_groups
unfolding compile_flow_children compile_groups compile_items compile_child flow_child_entry
    validate_schema json_text encode_schema publication_retry publication_metadata retry_reference
    get evaluation
two_plans_compile = refl

compile_flow_children-IsManifest_example :
    IsManifest 3 (plan_keys_onto [] two_plans) × SameKeys two_plans two_groups
compile_flow_children-IsManifest_example =
    compile_flow_children-IsManifest as_text name_only (λ a b. true) 3 (resize_entry ∷ []) two_plans
      two_groups two_plans_compile
