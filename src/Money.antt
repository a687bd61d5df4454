-- ===== src/Money.antt =====
-- app/core/money.py: money runs in `Decimal`, and leaves as a float of whole cents.
pub mod Fixed
use investwise_pro.Prelude.{◌≡◌, true}
use investwise_pro.Float.{Float, ◌≼◌, IsOrdered, IsRounded}

-- What the code uses of `decimal`: `Decimal(str(x))`, `quantize` to cents with ROUND_HALF_UP, and
-- `float(d)`.
pub record Decimals (F D : Type 0) : Type 0 where
  pub decimal : F → D
  pub quantize : D → D
  pub to_float : D → F

module _ {F D : Type 0} ⦃conv : Decimals F D⦄ where
  -- `money` of a `Decimal`, which `D` leaves as it is
  unfoldable pub money : D → F
  money x = conv.to_float (conv.quantize x)

-- Decimals of finite inputs are never NaN, and conversions and quantizing keep the order and the sign.
pub record IsMoney (F D : Type 0) ⦃float : Float F⦄ ⦃num : Float D⦄ ⦃conv : Decimals F D⦄
    : Type 0 where
  pub ordered : IsOrdered F
  pub rounded : IsRounded D
  pub number : (x : D) → x ≼ x
  pub decimal_mono : (x y : F) → x ≼ y → conv.decimal x ≼ conv.decimal y
  pub decimal_zero :
      (conv.decimal (float.dec 0 0) ≼ num.dec 0 0) × (num.dec 0 0 ≼ conv.decimal (float.dec 0 0))
  pub money_mono : (x y : D) → x ≼ y → money {F = F} x ≼ money y
  pub money_zero :
      (money {F = F} (num.dec 0 0) ≼ float.dec 0 0) × (float.dec 0 0 ≼ money {F = F} (num.dec 0 0))
