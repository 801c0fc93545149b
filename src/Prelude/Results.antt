-- ===== src/Prelude/Results.antt =====
-- Exceptions of the library as values. A constructor stands for an exception class, its
-- argument for the `phase` that the exception carries; messages are left out.
-- `error` is any other thrown value, told apart by a number.
use Prim.Native.Nat.{ℕ}
use mathlib.Core.Path.{◌≡◌, refl}
use mathlib.Core.Logic.{◌↔◌}
use mathlib.Core.Bool.{Bool, true, false, not}

pub data OutboxOperation : Type 0 where
  configuration unavailable prepare append transaction read retry conflict : OutboxOperation

pub data ControlsReason : Type 0 where
  configuration capability ownership missing drift mode operation : ControlsReason

pub data FlowReason : Type 0 where
  definition identity unavailable operation closed : FlowReason

pub data SchedulePhase : Type 0 where
  definition unavailable identity missing drift mode operation : SchedulePhase

pub data ConnectionPhase : Type 0 where
  configuration acquire protocol probe close migrate : ConnectionPhase

pub data JobOperationName : Type 0 where
  binding enqueue enqueue_many prepare poll attempts await_result : JobOperationName
  cancel retry promote : JobOperationName

pub data Failure : Type 0 where
  contract : Failure
  outbox : OutboxOperation → Failure
  controls : ControlsReason → Failure
  flow : FlowReason → Failure
  schedule : SchedulePhase → Failure
  connection : ConnectionPhase → Failure
  job : JobOperationName → Failure
  engine_state : Failure
  schema_defect schema_encoding schema_validation : Failure
  guard_rejected aborted : Failure
  error : ℕ → Failure

pub data Result {ℓ} (Value : Type ℓ) : Type ℓ where
  ok : Value → Result Value
  err : Failure → Result Value

infixl 5 ◌>>=◌ ◌>>◌
abbrev pub ◌>>=◌ {ℓ κ} :
    {Value : Type ℓ} {Next : Type κ} → Result Value → (Value → Result Next) → Result Next
err failure >>= next = err failure
ok value >>= next = next value

-- A statement whose value is not used.
abbrev pub ◌>>◌ {ℓ} : {Next : Type ℓ} → Result (Unit {0}) → Result Next → Result Next
check >> rest = check >>= λ _. rest

-- `if (!condition) throw e`
abbrev pub require : Bool → Failure → Result (Unit {0})
require true e = ok tt
require false e = err e

-- `if (condition) throw e`
abbrev pub reject_if : Bool → Failure → Result (Unit {0})
reject_if true e = err e
reject_if false e = ok tt

-- `catch (cause) { throw e }`
abbrev pub rethrow {ℓ} : {A : Type ℓ} → Failure → Result A → Result A
rethrow e (ok a) = ok a
rethrow e (err _) = err e

pub >>=-eq-ok {ℓ κ} :
    {Value : Type ℓ} {Next : Type κ} (first : Result Value) (rest : Value → Result Next) {b : Next}
    → (first >>= rest) ≡ ok b
    → (value : Value) × (first ≡ ok value) × (rest value ≡ ok b)
>>=-eq-ok (err failure) rest h = cc
>>=-eq-ok (ok value) rest h = (value, refl, h)

-- A sequence returns a value exactly if its first step passes and the rest returns that value.
pub >>_iff {ℓ} :
    {B : Type ℓ} (m : Result (Unit {0})) (k : Result B) (c : B)
    → ((m >> k) ≡ ok c) ↔ ((m ≡ ok tt) × (k ≡ ok c))
>>_iff (ok _) k c = ((λ e. (refl, e)), λ h. h.1)
>>_iff (err e) k c = ((λ h. cc h), λ h. cc (h.0))

pub reject_if-not_iff : (b : Bool) (e : Failure) → (reject_if (not b) e ≡ ok tt) ↔ (b ≡ true)
reject_if-not_iff true e = ((λ _. refl), λ _. refl)
reject_if-not_iff false e = ((λ h. cc h), λ h. cc h)

pub reject_if_iff : (b : Bool) (e : Failure) → (reject_if b e ≡ ok tt) ↔ (b ≡ false)
reject_if_iff false e = ((λ _. refl), λ _. refl)
reject_if_iff true e = ((λ h. cc h), λ h. cc h)

pub ok-injective {ℓ} : {A : Type ℓ} {a b : A} → ok a ≡ ok b → a ≡ b
ok-injective h = cc h
