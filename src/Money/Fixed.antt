-- ===== src/Money/Fixed.antt =====
-- Amounts in whole millionths, as floats and as decimals, that meet the laws of `IsMoney`.
use investwise_pro.Prelude.{ℕ, ◌+◌, ◌*◌, ◌/◌, ◌≤◌, ◌≡◌, true, arith}
use investwise_pro.Prelude.Int.{pos, negsuc, leb_ℤ}
use investwise_pro.Float.Fixed.{
  Fixed, fixed_float, Fixed-IsOrdered, Fixed-IsRounded, round_fixed, div-le-div,
}
use investwise_pro.Money.{Decimals, IsMoney, money}

instance abbrev pub fixed_decimals : Decimals Fixed Fixed
fixed_decimals = record { decimal = λ x. x; quantize = λ x. round_fixed x 2; to_float = λ x. x }

cents_mono : (a b : ℕ) → a ≤ b → (a + 5_000) / 10_000 * 10_000 ≤ (b + 5_000) / 10_000 * 10_000
cents_mono a b h =
    omega (arith, div-le-div (a + 5_000) (b + 5_000) {d = 10_000} (omega arith) (omega arith))

round_mono : (x y : Fixed) → leb_ℤ x y ≡ true → leb_ℤ (round_fixed x 2) (round_fixed y 2) ≡ true
unfolding round_fixed
round_mono (pos a) (pos b) h = ground (arith, cents_mono a b)
round_mono (pos a) (negsuc b) h = ground arith
round_mono (negsuc a) (pos b) h = ground arith
round_mono (negsuc a) (negsuc b) h = ground (arith, cents_mono (b + 1) (a + 1))

pub Fixed-IsMoney : IsMoney Fixed Fixed
unfolding money round_fixed
Fixed-IsMoney = record {
  ordered = Fixed-IsOrdered;
  rounded = Fixed-IsRounded;
  number = λ x. ground arith;
  decimal_mono = λ x y h. h;
  decimal_zero = ground arith;
  money_mono = λ x y h. unfold round_fixed in round_mono x y h;
  money_zero = ground arith;
}
