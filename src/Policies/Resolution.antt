-- ===== src/Policies/Resolution.antt =====
-- Layering of job policies, resolveJobPolicy of contracts/policies.ts, against the specification
-- that each field is the one of the last layer that defines it.
use bettter_nest_mq.Prelude.{
  ◌≡◌, ◌↔◌, refl, Option, none, some, List, [], ◌∷◌, ok, >>=-eq-ok, or_else, or_option, All,
}
use bettter_nest_mq.Policies.{
  JobPolicy, ResolvedJobPolicy, copy_job_policy, override, default_policy, resolve_from,
  resolve_job_policy,
}
use bettter_nest_mq.Policies.Validation.{IsJobPolicy, copy_job_policy_iff}

-- The value of a field in the last layer that defines it.
abbrev pub last_defined : {A : Type 0} → (JobPolicy → Option A) → List JobPolicy → Option A
last_defined field [] = none
last_defined field (layer ∷ layers) = or_option (last_defined field layers) (field layer)

-- The resolved policy, each field by itself.
abbrev pub layered : ResolvedJobPolicy → List JobPolicy → ResolvedJobPolicy
layered base layers = record {
  retry = or_else (last_defined (λ p. p.retry) layers) base.retry;
  timeout_ms = or_option (last_defined (λ p. p.timeout_ms) layers) base.timeout_ms;
  priority = or_else (last_defined (λ p. p.priority) layers) base.priority;
  delay_ms = or_else (last_defined (λ p. p.delay_ms) layers) base.delay_ms;
}

or_else_assoc :
    {A : Type 0} (o p : Option A) (d : A) → or_else o (or_else p d) ≡ or_else (or_option o p) d
or_else_assoc none p d = refl
or_else_assoc (some a) p d = refl

or_option_assoc :
    {A : Type 0} (o p q : Option A) → or_option o (or_option p q) ≡ or_option (or_option o p) q
or_option_assoc none p q = refl
or_option_assoc (some a) p q = refl

layered-override :
    (base : ResolvedJobPolicy) (layer : JobPolicy) (layers : List JobPolicy)
    → layered (override base layer) layers ≡ layered base (layer ∷ layers)
layered-override base layer layers = λ i. record {
  retry = or_else_assoc (last_defined (λ p. p.retry) layers) layer.retry base.retry i;
  timeout_ms =
      or_option_assoc (last_defined (λ p. p.timeout_ms) layers) layer.timeout_ms base.timeout_ms i;
  priority = or_else_assoc (last_defined (λ p. p.priority) layers) layer.priority base.priority i;
  delay_ms = or_else_assoc (last_defined (λ p. p.delay_ms) layers) layer.delay_ms base.delay_ms i;
}

resolve_from_iff :
    (base p : ResolvedJobPolicy) (layers : List JobPolicy)
    → (resolve_from base layers ≡ ok p) ↔ (All IsJobPolicy layers × (layered base layers ≡ p))
unfolding resolve_from
resolve_from_iff base p [] = ((λ e. (tt, cc e)), λ h. cc (h.1))
resolve_from_iff base p (layer ∷ layers) = (
  λ e.
      let (q, copied, rest) = >>=-eq-ok (copy_job_policy layer) _ e in
      let k = (copy_job_policy_iff layer q).0 copied in
      let (valid, same) = (resolve_from_iff (override base q) p layers).0 rest in
      ((k.0, valid), cc (k.1, same, layered-override base layer layers)),
  λ h. rw ((copy_job_policy_iff layer layer).1 (h.0.0, refl)) (
      (resolve_from_iff (override base layer) p layers).1
        (h.0.1, cc (h.1, layered-override base layer layers))),
)

-- resolveJobPolicy returns a policy exactly if every layer is well-formed, and then each field is
-- that of the last layer that defines it, or the default: one attempt, no timeout, priority 0
-- and no delay. A retry policy is replaced as a whole.
pub resolve_job_policy_iff :
    (layers : List JobPolicy) (p : ResolvedJobPolicy)
    → (resolve_job_policy layers ≡ ok p)
      ↔ (All IsJobPolicy layers × (layered default_policy layers ≡ p))
unfolding resolve_job_policy
resolve_job_policy_iff layers p = resolve_from_iff default_policy p layers
