-- ===== src/Lifecycle/Tax/Relief.antt =====
-- When no tax is due: losses that cover the gain, and the surtax below its threshold.
use investwise_pro.Prelude.{◌≡◌, false, arith, inl, inr, Bool-cases}
use investwise_pro.Float.{Float, ◌≼◌, max, min}
use investwise_pro.Float.Order.{max-le, le-max_left, le-max_right}
use investwise_pro.Float.Rounding.{add-le, add_nonpos}
use investwise_pro.Money.{Decimals, IsMoney}
use investwise_pro.Settings.{Settings}
use investwise_pro.Lifecycle.Tax.{losses_used, tax_on, compute_gain, compute}

module _ {F D : Type 0} ⦃float : Float F⦄ ⦃num : Float D⦄ ⦃conv : Decimals F D⦄ (laws : IsMoney F D)
    (s : Settings F) where
  open num use {dec, add, sub, mul}
  open conv use {decimal}
  open laws use {rounded, number}
  open rounded use {ordered, le_trans, add_mono, sub_mono, mul_nonpos, sub_nonpos, lt-eq-not-le}

  abbrev zero_dec : D
  zero_dec = dec 0 0

  max_zero : (x : D) → x ≼ zero_dec → max zero_dec x ≼ zero_dec
  max_zero x h = max-le ordered zero_dec x zero_dec (number zero_dec) h

  not-lt_zero : (x : D) → x ≼ zero_dec → num.lt zero_dec x ≡ false
  not-lt_zero x h = ground (arith, lt-eq-not-le zero_dec x (number zero_dec) (number x))

  cover-sub : (losses gross : D) → gross ≼ losses → sub gross (losses_used losses gross) ≼ zero_dec
  unfolding losses_used
  cover-sub losses gross h =
      let enough =
        le_trans gross losses _ h
          (le-max_right ordered zero_dec losses (number zero_dec) (number losses)) in
      sub_nonpos gross (min (max zero_dec losses) gross) (ground (arith, number gross)) (number _)

  module _ (cgt_nonneg : zero_dec ≼ decimal s.cgt_rate)
      (surtax_nonneg : zero_dec ≼ decimal s.surtax_rate) where
    surtax_below :
        (x pi : D) → add pi x ≼ decimal s.surtax_threshold_ils → (tax_on D s x pi).1 ≼ zero_dec
    unfolding tax_on
    surtax_below x pi h =
        mul_nonpos _ _ surtax_nonneg
          (sub_nonpos _ _
            (le_trans _ zero_dec _ (max_zero _ (sub_nonpos _ _ h (number _)))
              (le-max_left ordered zero_dec _ (number zero_dec)))
            (number _))
          (number _)

    surtax_of_nothing : (x pi : D) → x ≼ zero_dec → (tax_on D s x pi).1 ≼ zero_dec
    unfolding tax_on
    surtax_of_nothing x pi h =
        mul_nonpos _ _ surtax_nonneg
          (sub_nonpos _ _
            (max-le ordered zero_dec _ _ (le-max_left ordered zero_dec _ (number zero_dec)) (
              le_trans _ (sub pi (decimal s.surtax_threshold_ils)) _
                (sub_mono _ _ _ _ (add-le rounded pi x (number pi) h (number _)) (number _)
                  (number _) (number _))
                (le-max_right ordered zero_dec _ (number zero_dec) (number _))))
            (number _))
          (number _)

    tax_of_nothing :
        (x pi : D) → x ≼ zero_dec → add (tax_on D s x pi).0 (tax_on D s x pi).1 ≼ zero_dec
    unfolding tax_on
    tax_of_nothing x pi h =
        add_nonpos rounded _ _ (mul_nonpos _ _ cgt_nonneg h (number _))
          (unfold tax_on in surtax_of_nothing x pi h) (number _)

    -- With rates that are not negative, a gain above zero that the carried losses reach owes no tax,
    -- and no surtax applies.
    pub relief :
        (gain prior losses : F)
        → num.le (decimal gain) zero_dec ≡ false
        → decimal gain ≼ decimal losses
        → ((compute D s gain prior losses).total_tax ≼ float.dec 0 0)
          × ((compute D s gain prior losses).surtax_applies ≡ false)
    unfolding compute compute_gain
    relief gain prior losses rise cover =
        let none_left = cover-sub (decimal losses) (decimal gain) cover in
        rw rise (
          laws.ordered.le_trans _ _ _
              (laws.money_mono _ zero_dec (tax_of_nothing _ (decimal prior) none_left))
              laws.money_zero.0,
          not-lt_zero _ (surtax_of_nothing _ (decimal prior) none_left),
        )

    -- With a surtax rate that is not negative, no surtax applies where the income and the taxable gain
    -- together stay within the threshold.
    pub no_surtax :
        (gain prior losses : F)
        → (let gross = decimal gain in
            add (decimal prior) (sub gross (losses_used (decimal losses) gross)))
          ≼ decimal s.surtax_threshold_ils
        → (compute D s gain prior losses).surtax_applies ≡ false
    unfolding compute compute_gain
    no_surtax gain prior losses h = elim (Bool-cases (num.le (decimal gain) zero_dec)) [
      | inl loss ↦ rw loss
      | inr rise ↦ rw rise (not-lt_zero _ (surtax_below _ (decimal prior) h))
    ]
