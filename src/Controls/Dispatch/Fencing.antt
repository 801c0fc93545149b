-- ===== src/Controls/Dispatch/Fencing.antt =====
-- Claims of a queue with declared controls never bypass its policy.
use bettter_nest_mq.Prelude.{ℕ, ◌≡◌, refl, Bool, true, Option, none, some, List, Text, arith}
use bettter_nest_mq.Controls.{QueueControlsRecord, Effect, success, failure}
use bettter_nest_mq.Controls.Dispatch.{Stores, contains, checked_policy, policy, dispatch, claim}

closed_dispatch :
    {World Value : Type 0} (reply : World × Effect (Option QueueControlsRecord))
    (plain plain' : World → World × Effect Value) (controlled : ℕ → World → World × Effect Value)
    → dispatch (reply.0, checked_policy true reply.1) plain controlled
      ≡ dispatch (reply.0, checked_policy true reply.1) plain' controlled
closed_dispatch (w, failure e) plain plain' controlled = refl
closed_dispatch (w, success none) plain plain' controlled = refl
closed_dispatch (w, success (some r)) plain plain' controlled = ground arith

module _ {World Claim Settled Released Cancelled Transition : Type 0}
    (stores : Stores World Claim Settled Released Cancelled Transition)
    (required registered : List Text) (valid_name : Text → Bool) where
  -- For a queue with declared controls the claim does not depend on the plain store's claim:
  -- whatever that would do, the result and the world are the same, so no claim can go round the
  -- permits and rate limits of the controlled one.
  pub claim_ignores_plain :
      (plain : Text → World → World × Effect Claim) (queue : Text) (w : World)
      → contains queue required ≡ true
      → claim (record stores { claim = plain }) required registered valid_name queue w
        ≡ claim stores required registered valid_name queue w
  unfolding claim policy
  claim_ignores_plain plain queue w c =
      rw c (closed_dispatch (stores.get_controls queue w) (plain queue) (stores.claim queue) _)
