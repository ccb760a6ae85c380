-- ===== src/Common/Float/Fixed.antt =====
-- Fixed-point numbers with three decimals: a concrete type at which the laws of `FloatLaws` hold.
use multi_desk_trading.Common.Float.{FloatOps, FloatLaws}
use multi_desk_trading.Common.Int.{
  ℤ, pos, negsuc, ◌+ℤ◌, ◌-ℤ◌, leb_ℤ, ltb_ℤ, pos_part, neg_part, neg as neg_ℤ,
}
use Prim.Native.Nat.{ℕ, suc, ◌+◌, ◌*◌, ◌/◌, ◌^◌, ◌≤◌}
use mathlib.Core.Path.{◌≡◌, refl}
use mathlib.Core.Logic.{◌⊎◌}
use mathlib.Core.Bool.{true, false, not, ◌&&◌}
use native.Mathlib.Omega.{arith}

-- The magnitude of an integer.
abbrev magnitude : ℤ → ℕ
magnitude a = pos_part a + neg_part a

-- The product of two numbers of thousandths, rounded towards zero.
unfoldable pub mul_fixed : ℤ → ℤ → ℤ
mul_fixed (pos a) (pos b) = pos (a * b / 1000)
mul_fixed (pos a) (negsuc b) = neg_ℤ (pos (a * suc b / 1000))
mul_fixed (negsuc a) (pos b) = neg_ℤ (pos (suc a * b / 1000))
mul_fixed (negsuc a) (negsuc b) = pos (suc a * suc b / 1000)

unfoldable pub div_fixed : ℤ → ℤ → ℤ
div_fixed (pos a) (pos b) = pos (a * 1000 / b)
div_fixed (pos a) (negsuc b) = neg_ℤ (pos (a * 1000 / suc b))
div_fixed (negsuc a) (pos b) = neg_ℤ (pos (suc a * 1000 / b))
div_fixed (negsuc a) (negsuc b) = pos (suc a * 1000 / suc b)

abbrev pub fixed : FloatOps
fixed = record {
  Float = ℤ;
  zero = pos 0;
  one = pos 1000;
  scientific = λ m e. pos (m * 1000 / 10 ^ e);
  neg = neg_ℤ;
  abs = λ a. pos (magnitude a);
  add = ◌+ℤ◌;
  sub = ◌-ℤ◌;
  mul = mul_fixed;
  div = div_fixed;
  leb = leb_ℤ;
  ltb = ltb_ℤ;
}

scaled-le : (a b : ℕ) → b ≤ 1000 → a * b / 1000 ≤ a
scaled-le a b h = grind arith

mul_fixed_shrinks :
    (a f : ℤ)
    → leb_ℤ (pos (magnitude a)) (pos 1000) ≡ true
    → leb_ℤ (pos 0) f ≡ true
    → leb_ℤ f (pos 1000) ≡ true
    → leb_ℤ (pos (magnitude (mul_fixed a f))) (pos (magnitude a)) ≡ true
unfolding mul_fixed neg_ℤ
mul_fixed_shrinks (pos a) (pos f) ha hz hf = ground (arith, scaled-le a f)
mul_fixed_shrinks (negsuc a) (pos f) ha hz hf = ground (arith, scaled-le (suc a) f)
mul_fixed_shrinks (pos a) (negsuc f) ha hz hf = ground arith
mul_fixed_shrinks (negsuc a) (negsuc f) ha hz hf = ground arith

leb_ℤ_trans : (a b c : ℤ) → leb_ℤ a b ≡ true → leb_ℤ b c ≡ true → leb_ℤ a c ≡ true
leb_ℤ_trans a b c h k = ground arith

leb_ℤ_self : (a b : ℤ) → leb_ℤ a b ≡ true → leb_ℤ a a ≡ true
leb_ℤ_self a b h = ground arith

leb_ℤ_self_right : (a b : ℤ) → leb_ℤ a b ≡ true → leb_ℤ b b ≡ true
leb_ℤ_self_right a b h = ground arith

ltb_ℤ_lem : (a b : ℤ) → ltb_ℤ a b ≡ (leb_ℤ a b && not (leb_ℤ b a))
ltb_ℤ_lem a b = ground arith

leb_ℤ_total :
    (a b : ℤ) → leb_ℤ a a ≡ true → leb_ℤ b b ≡ true → (leb_ℤ a b ≡ true) ⊎ (leb_ℤ b a ≡ true)
leb_ℤ_total a b h k = ground arith

abs-leb_fixed : (a c : ℤ) → leb_ℤ (pos (magnitude a)) c ≡ (leb_ℤ (neg_ℤ c) a && leb_ℤ a c)
unfolding neg_ℤ
abs-leb_fixed (pos a) (pos c) = ground arith
abs-leb_fixed (pos a) (negsuc c) = ground arith
abs-leb_fixed (negsuc a) (pos c) = ground arith
abs-leb_fixed (negsuc a) (negsuc c) = ground arith

abs_nonneg_fixed :
    (a c : ℤ) → leb_ℤ (pos (magnitude a)) c ≡ true → leb_ℤ (pos 0) (pos (magnitude a)) ≡ true
abs_nonneg_fixed a c h = ground arith

sub_unit_fixed :
    (l : ℤ)
    → leb_ℤ (pos 0) l ≡ true
    → leb_ℤ l (pos 1000) ≡ true
    → (leb_ℤ (pos 0) (pos 1000 -ℤ l) ≡ true) × (leb_ℤ (pos 1000 -ℤ l) (pos 1000) ≡ true)
unfolding ◌-ℤ◌
sub_unit_fixed l h k = ground arith

add_nonpos_fixed :
    (a b : ℤ) → leb_ℤ a (pos 0) ≡ true → leb_ℤ b (pos 0) ≡ true → leb_ℤ (a +ℤ b) a ≡ true
unfolding ◌+ℤ◌
add_nonpos_fixed a b h k = ground arith

sub_nonpos_fixed : (a b : ℤ) → leb_ℤ a b ≡ true → ltb_ℤ (pos 0) (a -ℤ b) ≡ false
unfolding ◌-ℤ◌
sub_nonpos_fixed a b h = ground arith

pub fixed_laws : FloatLaws fixed
fixed_laws = record {
  leb_trans = leb_ℤ_trans;
  leb_self = leb_ℤ_self;
  leb_self_right = leb_ℤ_self_right;
  ltb_lem = ltb_ℤ_lem;
  leb_total = leb_ℤ_total;
  leb_zero_zero = refl;
  leb_zero_one = refl;
  abs_zero = refl;
  abs-leb = abs-leb_fixed;
  abs_nonneg = abs_nonneg_fixed;
  sub_unit = sub_unit_fixed;
  mul_shrinks = mul_fixed_shrinks;
  add_nonpos = add_nonpos_fixed;
  sub_nonpos = sub_nonpos_fixed;
}
