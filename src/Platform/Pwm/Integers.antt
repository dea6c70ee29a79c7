-- ===== src/Platform/Pwm/Integers.antt =====
-- Floats to run the interpolation with: integers, which cut off every fraction.
use native.Mathlib.Nat.{mul-le-mul_right, div-add-mod}
use mymouse.Base.{ℕ, suc, ◌+◌, ◌*◌, ◌/◌, ◌%◌, ◌^◌, ◌≤◌, ◌<◌, refl, arith}
use mymouse.Base.Int.{ℤ, pos, negsuc, pos_part, neg_part, quot, ◌*ℤ◌, ◌+ℤ◌, ◌≤ℤ◌, int_laws}
use mymouse.Platform.Pwm.{Float}
use mymouse.Platform.Pwm.Interpolation.{IsIeee}

abbrev pub integers : Float
integers = record {
  F = ℤ;
  of_int = λ a. a;
  div = λ a b. quot a (pos_part b);
  mul = ◌*ℤ◌;
  add = ◌+ℤ◌;
  to_uint16 = λ a. pos_part a % 2 ^ 16;
  Le = ◌≤ℤ◌;
}

zero_mul_int :
    (a : ℤ) → pos_part a + neg_part a < 2 ^ 24 → (pos 0 *ℤ a ≤ℤ pos 0) × (pos 0 ≤ℤ pos 0 *ℤ a)
unfolding ◌*ℤ◌
zero_mul_int a h = ground arith

one_mul_int : (a : ℤ) → pos_part a + neg_part a < 2 ^ 24 → (pos 1 *ℤ a ≤ℤ a) × (a ≤ℤ pos 1 *ℤ a)
unfolding ◌*ℤ◌
one_mul_int a h = ground arith

mul_le_mul_int : (x y : ℤ) (n : ℕ) → x ≤ℤ y → x *ℤ pos n ≤ℤ y *ℤ pos n
unfolding ◌*ℤ◌
mul_le_mul_int x y n h =
    let k : (pos_part x + neg_part y) * n ≤ (pos_part y + neg_part x) * n = mul-le-mul_right n h in
    grind (arith, k)

mul_le_mul_neg_int : (x y : ℤ) (n : ℕ) → x ≤ℤ y → y *ℤ negsuc n ≤ℤ x *ℤ negsuc n
unfolding ◌*ℤ◌
mul_le_mul_neg_int x y n h =
    let k : (pos_part x + neg_part y) * suc n ≤ (pos_part y + neg_part x) * suc n =
      mul-le-mul_right (suc n) h in
    grind (arith, k)

pos_div_le_one : (i n : ℕ) → i ≤ n → 0 < n → i / n ≤ 1
pos_div_le_one i n h l = grind (arith, h, l, div-add-mod i n)

one_le_div : (n : ℕ) → 0 < n → 1 ≤ n / n
one_le_div n h = grind (arith, h, div-add-mod n n)

pub integers-IsIeee : IsIeee integers
unfolding quot
integers-IsIeee = record {
  le_refl = λ x. omega arith;
  le_trans = λ x y z h l. omega (arith, h, l);
  zero_div = λ n h l. omega arith;
  div_nonneg = λ i n h l m. omega arith;
  div_le_one = λ i n h l m. omega (arith, pos_div_le_one i n h l);
  div_self = λ n h l. omega (arith, one_le_div n h);
  zero_mul = zero_mul_int;
  one_mul = one_mul_int;
  mul_le_mul = λ x y n h l. mul_le_mul_int x y n h;
  mul_le_mul_neg = λ x y n h l. mul_le_mul_neg_int x y n h;
  add_le_add = λ x y z h. omega (int_laws, h);
  add_exact = λ a b h l m. refl;
  to_uint16_between = λ x a b h l m. ground (arith, h, l, m);
}
