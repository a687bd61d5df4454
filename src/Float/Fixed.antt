-- ===== src/Float/Fixed.antt =====
-- Numbers that meet the laws of `Float`: whole millionths, products and quotients cut toward zero.
use native.Mathlib.Nat.{
  div-mul-le_self, le-div_iff_mul-le, mul-div-mul_right, mul-le-mul, one-le-pow, le_refl, mul_comm,
  zero-div,
}
use investwise_pro.Prelude.{ℕ, ◌+◌, ◌-◌, ◌*◌, ◌/◌, ◌^◌, ◌≤◌, ◌<◌, ◌≡◌, ap, true, arith, ◌==◌}
use investwise_pro.Prelude.Int.{ℤ, pos, negsuc, pos_part, neg_part, sub_ℕ, ◌+ℤ◌, ◌-ℤ◌, leb_ℤ, ltb_ℤ}
use investwise_pro.Float.{Float, IsOrdered, IsRounded}

abbrev pub Fixed : Type 0
Fixed = ℤ

abbrev unit : ℕ
unit = 1_000_000

unfoldable pub mul_fixed : Fixed → Fixed → Fixed
mul_fixed a b =
    sub_ℕ ((pos_part a * pos_part b + neg_part a * neg_part b) / unit)
      ((pos_part a * neg_part b + neg_part a * pos_part b) / unit)

unfoldable pub div_fixed : Fixed → Fixed → Fixed
div_fixed a (pos d) = sub_ℕ (pos_part a * unit / d) (neg_part a * unit / d)
div_fixed a (negsuc d) = sub_ℕ (neg_part a * unit / (d + 1)) (pos_part a * unit / (d + 1))

unfoldable pub round_fixed : Fixed → ℕ → Fixed
round_fixed a n =
    let step = 10 ^ (6 - n) in
    sub_ℕ ((pos_part a + step / 2) / step * step) ((neg_part a + step / 2) / step * step)

instance abbrev pub fixed_float : Float Fixed
fixed_float = record {
  dec = λ m k. pos (m * unit / 10 ^ k);
  add = ◌+ℤ◌;
  sub = ◌-ℤ◌;
  mul = mul_fixed;
  div = div_fixed;
  abs = λ a. pos (pos_part a + neg_part a);
  le = leb_ℤ;
  lt = ltb_ℤ;
  eq = λ a b. pos_part a + neg_part b == pos_part b + neg_part a;
  round = round_fixed;
  trunc = λ a. pos_part a / unit;
  floordiv = λ a b. pos_part a / pos_part b;
  format = λ spec x. spec;
}

pub div-le-div : (a b : ℕ) {d : ℕ} → 0 < d → a ≤ b → a / d ≤ b / d
div-le-div a b {d} p h = (le-div_iff_mul-le p).1 (omega (arith, div-mul-le_self a d))

one-le-mul : (p q : ℕ) → 0 < p → 0 < q → 0 < p * q
one-le-mul p q h k = omega (arith, mul-le-mul h k)

dec_mono_fixed : (m k n j : ℕ) → m * 10 ^ j ≤ n * 10 ^ k → m * unit / 10 ^ k ≤ n * unit / 10 ^ j
dec_mono_fixed m k n j h =
    let p = 10 ^ k in
    let q = 10 ^ j in
    let p-pos : 0 < p = one-le-pow k 10 (omega arith) in
    let q-pos : 0 < q = one-le-pow j 10 (omega arith) in
    omega (
      arith,
      mul-div-mul_right (m * unit) p q-pos,
      mul-div-mul_right (n * unit) q p-pos,
      ap (λ (t : ℕ). n * unit * p / t) (mul_comm q p),
      div-le-div (m * unit * q) (n * unit * p) (one-le-mul p q p-pos q-pos) (omega arith),
    )

div-mul_mono : (a b c : ℕ) → a ≤ b → c * a / unit ≤ c * b / unit
div-mul_mono a b c h = div-le-div (c * a) (c * b) (omega arith) (mul-le-mul (le_refl c) h)

pub Fixed-IsOrdered : IsOrdered Fixed
Fixed-IsOrdered = record {
  dec_mono = λ m k n j h. ground (arith, dec_mono_fixed m k n j h);
  refl_of_le = ground arith;
  refl_of_lt = ground arith;
  le_trans = ground arith;
  le_total = ground arith;
  lt-eq-not-le = ground arith;
  eq-eq-le = ground arith;
}

mul_mono_fixed :
    (x y z : Fixed)
    → leb_ℤ x y ≡ true
    → leb_ℤ (pos 0) z ≡ true
    → leb_ℤ (mul_fixed z x) (mul_fixed z y) ≡ true
unfolding mul_fixed
mul_mono_fixed (pos a) (pos b) (pos c) h k = ground (arith, div-mul_mono a b c)
mul_mono_fixed (pos a) (negsuc b) (pos c) h k = ground arith
mul_mono_fixed (negsuc a) (pos b) (pos c) h k = ground arith
mul_mono_fixed (negsuc a) (negsuc b) (pos c) h k = ground (arith, div-mul_mono (b + 1) (a + 1) c)
mul_mono_fixed x y (negsuc c) h k = ground arith

pub Fixed-IsRounded : IsRounded Fixed
unfolding ◌+ℤ◌ ◌-ℤ◌ mul_fixed
Fixed-IsRounded = record {
  ordered = Fixed-IsOrdered;
  nan_add = λ x y h. ground arith;
  nan_sub = λ x y h. ground arith;
  nan_mul = λ x y h. ground arith;
  add_mono = λ x y z w h k _ _. ground arith;
  sub_mono = λ x y z w h k _ _. ground arith;
  mul_mono = λ x y z h k _ _. mul_mono_fixed x y z h k;
  add_zero = λ x h. ground arith;
  sub_zero = λ x h. ground arith;
  mul_nonpos = λ x y h k _. ground (arith, zero-div unit);
  mul_nonneg = λ x y h k _. ground (arith, zero-div unit);
  sub_nonneg = λ x y h k. ground arith;
  sub_nonpos = λ x y h k. ground arith;
}

-- to four digits, rounding again changes nothing
pub round_fixed_again : (x : Fixed) → round_fixed (round_fixed x 4) 4 ≡ round_fixed x 4
unfolding round_fixed
round_fixed_again (pos a) = ground arith
round_fixed_again (negsuc a) = ground arith
