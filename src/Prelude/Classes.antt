-- ===== src/Prelude/Classes.antt =====
-- Equality of a type whose values the source only compares (isDeepStrictEqual, `===`), as an
-- interface.
use mathlib.Core.Path.{◌≡◌}
use mathlib.Core.Logic.{◌↔◌}
use mathlib.Core.Bool.{Bool, true, false}
use mathlib.Core.Option.{Option, none, some}
use native.Mathlib.Omega.{arith}
use bettter_nest_mq.Prelude.Tests.{◌==◌, ==_iff}
use bettter_nest_mq.Prelude.Texts.{Text, text_eq, text_eq_iff}
use Prim.Native.Nat.{ℕ}

pub record Eq (A : Type 0) : Type 0 where
  pub beq : A → A → Bool
  pub beq_iff : (a b : A) → (beq a b ≡ true) ↔ (a ≡ b)

abbrev pub same : {A : Type 0} ⦃e : Eq A⦄ → A → A → Bool
same ⦃e⦄ = e.beq

pub same_iff : {A : Type 0} ⦃e : Eq A⦄ (a b : A) → (same a b ≡ true) ↔ (a ≡ b)
same_iff ⦃e⦄ a b = e.beq_iff a b

instance abbrev pub nat_eq : Eq ℕ
nat_eq = record { beq = ◌==◌; beq_iff = ==_iff }

instance abbrev pub text_is_eq : Eq Text
text_is_eq = record { beq = text_eq; beq_iff = text_eq_iff }

-- IS NOT DISTINCT FROM, and `===` where a side may be undefined.
abbrev pub same_option : {A : Type 0} ⦃e : Eq A⦄ → Option A → Option A → Bool
same_option none none = true
same_option (some a) (some b) = same a b
same_option _ _ = false

pub same_option_iff : {A : Type 0} ⦃e : Eq A⦄ (a b : Option A) → (same_option a b ≡ true) ↔ (a ≡ b)
same_option_iff none none = ground arith
same_option_iff ⦃e⦄ (some a) (some b) = ground (arith, e.beq_iff a b)
same_option_iff none (some b) = ground arith
same_option_iff (some a) none = ground arith
