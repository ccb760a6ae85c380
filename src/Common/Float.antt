-- ===== src/Common/Float.antt =====
-- Python's `float`. antt has no floating-point numbers, so the type and its operations are an
-- argument of the components that compute with it, and what they rely on is a record of laws. Each
-- law is a fact of IEEE 754 binary64 with rounding to nearest, infinities and NaN included: a NaN is
-- a value that is not `leb` itself.
pub mod Fixed
use multi_desk_trading.Common.Tests.{if◌then◌else◌}
use Prim.Native.Nat.{ℕ}
use mathlib.Core.Path.{◌≡◌}
use mathlib.Core.Logic.{◌⊎◌}
use mathlib.Core.Bool.{Bool, true, false, not, ◌&&◌}

pub record FloatOps : Type 1 where
  pub Float : Type 0
  -- the literals 0.0 and 1.0, and m * 10 ^ -e
  pub zero : Float
  pub one : Float
  pub scientific : ℕ → ℕ → Float
  pub neg : Float → Float
  pub abs : Float → Float
  pub add : Float → Float → Float
  pub sub : Float → Float → Float
  pub mul : Float → Float → Float
  pub div : Float → Float → Float
  -- `a <= b` and `a < b`
  pub leb : Float → Float → Bool
  pub ltb : Float → Float → Bool

-- Python's `min(a, b)`: the first argument, unless the second is less.
abbrev pub min_float : (F : FloatOps) → F.Float → F.Float → F.Float
min_float F a b = if F.ltb b a then b else a

pub record FloatLaws (F : FloatOps) : Type 0 where
  pub leb_trans : (a b c : F.Float) → F.leb a b ≡ true → F.leb b c ≡ true → F.leb a c ≡ true
  -- what compares is no NaN
  pub leb_self : (a b : F.Float) → F.leb a b ≡ true → F.leb a a ≡ true
  pub leb_self_right : (a b : F.Float) → F.leb a b ≡ true → F.leb b b ≡ true
  pub ltb_lem : (a b : F.Float) → F.ltb a b ≡ (F.leb a b && not (F.leb b a))
  -- two values that are not NaN compare
  pub leb_total :
      (a b : F.Float)
      → F.leb a a ≡ true
      → F.leb b b ≡ true
      → (F.leb a b ≡ true) ⊎ (F.leb b a ≡ true)
  pub leb_zero_zero : F.leb F.zero F.zero ≡ true
  pub leb_zero_one : F.leb F.zero F.one ≡ true
  pub abs_zero : F.abs F.zero ≡ F.zero
  pub abs-leb : (a c : F.Float) → F.leb (F.abs a) c ≡ (F.leb (F.neg c) a && F.leb a c)
  -- a magnitude that compares with anything is no NaN, and it is not negative
  pub abs_nonneg : (a c : F.Float) → F.leb (F.abs a) c ≡ true → F.leb F.zero (F.abs a) ≡ true
  -- 1.0 - l lies in [0, 1] where l does
  pub sub_unit :
      (l : F.Float)
      → F.leb F.zero l ≡ true
      → F.leb l F.one ≡ true
      → (F.leb F.zero (F.sub F.one l) ≡ true) × (F.leb (F.sub F.one l) F.one ≡ true)
  -- a factor in [0, 1] does not raise the magnitude of a value in [-1, 1]
  pub mul_shrinks :
      (a f : F.Float)
      → F.leb (F.abs a) F.one ≡ true
      → F.leb F.zero f ≡ true
      → F.leb f F.one ≡ true
      → F.leb (F.abs (F.mul a f)) (F.abs a) ≡ true
  -- a value that is at most 0.0 does not grow by adding another
  pub add_nonpos :
      (a b : F.Float) → F.leb a F.zero ≡ true → F.leb b F.zero ≡ true → F.leb (F.add a b) a ≡ true
  -- a - b is not positive where a <= b, though it may be NaN
  pub sub_nonpos : (a b : F.Float) → F.leb a b ≡ true → F.ltb F.zero (F.sub a b) ≡ false
