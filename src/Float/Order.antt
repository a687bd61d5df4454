-- ===== src/Float/Order.antt =====
-- What the order laws give for the comparisons, `max` and `min` that the program writes.
use investwise_pro.Prelude.{ℕ, ◌≡◌, true, false, arith}
use investwise_pro.Float.{Float, ◌≼◌, max, min, IsOrdered}

module _ {F : Type 0} ⦃num : Float F⦄ (laws : IsOrdered F) where
  open num use {dec, le, lt}
  open laws use {dec_mono, refl_of_le, refl_of_lt, le_trans, le_total, lt-eq-not-le}

  pub dec_refl : (m k : ℕ) → dec m k ≼ dec m k
  dec_refl m k = dec_mono m k m k (omega arith)

  pub le_of_lt : (x y : F) → lt x y ≡ true → x ≼ y
  le_of_lt x y h =
      let (a, b) = refl_of_lt x y h in ground (arith, lt-eq-not-le x y a b, le_total x y a b)

  -- Between two numbers, one that is not below the other is at least it.
  pub le_of_not-lt : (x y : F) → x ≼ x → y ≼ y → lt x y ≡ false → y ≼ x
  le_of_not-lt x y a b h = ground (arith, lt-eq-not-le x y a b)

  -- `max` from a number is at least it, also where the other argument is NaN.
  pub le-max_left : (x y : F) → x ≼ x → x ≼ max x y
  le-max_left x y a = ground (arith, le_of_lt x y)

  pub le-max_right : (x y : F) → x ≼ x → y ≼ y → y ≼ max x y
  le-max_right x y a b = ground (arith, le_of_not-lt x y a b)

  pub min-le_left : (x y : F) → x ≼ x → min x y ≼ x
  min-le_left x y a = ground (arith, le_of_lt y x)

  pub min-le_right : (x y : F) → x ≼ x → y ≼ y → min x y ≼ y
  min-le_right x y a b = ground (arith, le_of_not-lt y x b a)

  pub max-le : (x y z : F) → x ≼ z → y ≼ z → max x y ≼ z
  max-le x y z a b = ground arith

  pub le-min : (x y z : F) → z ≼ x → z ≼ y → z ≼ min x y
  le-min x y z a b = ground arith
