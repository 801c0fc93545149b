-- ===== src/Prelude/Numbers.antt =====
-- A JavaScript number, as far as the source looks into it: whole or not, its sign, and its
-- order against whole bounds. The second argument of a fraction names the part behind the point.
use Prim.Native.Nat.{ℕ, suc}
use mathlib.Core.Bool.{Bool, true, false}
use bettter_nest_mq.Prelude.Tests.{ltb, leb}

pub data Number : Type 0 where
  -- n
  nat : ℕ → Number
  -- -(n + 1)
  minus : ℕ → Number
  -- n + f and -(n + f), with 0 < f < 1
  fraction minus_fraction : ℕ → ℕ → Number
  infinity minus_infinity nan : Number

-- Number.MAX_SAFE_INTEGER
abbrev pub max_safe : ℕ
max_safe = 9007199254740991

abbrev pub safe : ℕ → Bool
safe n = leb n max_safe

-- Number.isSafeInteger
abbrev pub is_safe_integer : Number → Bool
is_safe_integer (nat n) = safe n
is_safe_integer (minus n) = safe (suc n)
is_safe_integer _ = false

-- Number.isFinite
abbrev pub is_finite : Number → Bool
is_finite infinity = false
is_finite minus_infinity = false
is_finite nan = false
is_finite _ = true

-- `value < k` for a whole bound k >= 0; false at NaN
abbrev pub less_than : Number → ℕ → Bool
less_than (nat n) k = ltb n k
less_than (minus _) k = true
less_than (fraction n _) k = ltb n k
less_than (minus_fraction _ _) k = true
less_than minus_infinity k = true
less_than _ k = false

-- `value > k` for a whole bound k >= 0; false at NaN
abbrev pub more_than : Number → ℕ → Bool
more_than (nat n) k = ltb k n
more_than (fraction n _) k = leb k n
more_than infinity k = true
more_than _ k = false
