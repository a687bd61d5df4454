-- ===== src/Lifecycle/Tax/Laws.antt =====
-- The tax is not negative, grows with the gain, and never makes the net exceed the gross.
use investwise_pro.Prelude.{◌≡◌, false, arith, inl, inr, Bool-cases}
use investwise_pro.Float.{Float, ◌≼◌, max}
use investwise_pro.Float.Order.{dec_refl, le-max_left, le-max_right, max-le, min-le_right, le-min}
use investwise_pro.Float.Rounding.{le-add, add_nonneg, sub-le}
use investwise_pro.Money.{Decimals, money, IsMoney}
use investwise_pro.Settings.{Settings}
use investwise_pro.Lifecycle.Tax.{
  losses_used, tax_on, tax_total, compute_gain, compute, TaxBreakdown,
}

module _ {F D : Type 0} ⦃float : Float F⦄ ⦃num : Float D⦄ ⦃conv : Decimals F D⦄ (laws : IsMoney F D)
    (s : Settings F) where
  open num use {dec, add, sub, mul}
  open conv use {decimal}
  open laws use {rounded, number}
  open rounded use {ordered, le_trans, add_mono, sub_mono, mul_mono, mul_nonneg, sub_nonneg}

  abbrev zero_dec : D
  zero_dec = dec 0 0

  above : (x : D) → num.le x zero_dec ≡ false → zero_dec ≼ x
  above x h = ground (arith, ordered.le_total x zero_dec (number x) (number zero_dec))

  losses_used_bounds :
      (losses gross : D)
      → zero_dec ≼ gross
      → (zero_dec ≼ losses_used losses gross) × (losses_used losses gross ≼ gross)
  unfolding losses_used
  losses_used_bounds losses gross h = (
    le-min ordered (max zero_dec losses) gross zero_dec
        (le-max_left ordered zero_dec losses (number zero_dec)) h,
    min-le_right ordered (max zero_dec losses) gross (number _) (number gross),
  )

  max_mono : (x y : D) → x ≼ y → max zero_dec x ≼ max zero_dec y
  max_mono x y h =
      max-le ordered zero_dec x (max zero_dec y) (le-max_left ordered zero_dec y (number zero_dec))
        (le_trans x y _ h (le-max_right ordered zero_dec y (number zero_dec) (number y)))

  module _ (cgt_nonneg : zero_dec ≼ decimal s.cgt_rate)
      (surtax_nonneg : zero_dec ≼ decimal s.surtax_rate) where
    tax_total_mono : (x y pi : D) → x ≼ y → tax_total D s x pi ≼ tax_total D s y pi
    unfolding tax_total tax_on
    tax_total_mono x y pi h =
        add_mono _ _ _ _ (mul_mono x y _ h cgt_nonneg (number _) (number _))
          (mul_mono _ _ _
            (sub_mono _ _ _ _
              (max_mono _ _ (
                sub_mono _ _ _ _ (add_mono _ _ _ _ (number pi) h (number _) (number _)) (number _)
                  (number _) (number _)))
              (number _) (number _) (number _))
            surtax_nonneg (number _) (number _))
          (number _) (number _)

    surtax_nonneg_lem : (x pi : D) → zero_dec ≼ x → zero_dec ≼ (tax_on D s x pi).1
    unfolding tax_on
    surtax_nonneg_lem x pi h =
        mul_nonneg _ _ surtax_nonneg
          (sub_nonneg _ _
            (max_mono _ _ (
              sub_mono _ _ _ _ (le-add rounded pi x (number pi) h (number _)) (number _) (number _)
                (number _)))
            (number _))
          (number _)

    tax_total_nonneg : (x pi : D) → zero_dec ≼ x → zero_dec ≼ tax_total D s x pi
    unfolding tax_total tax_on
    tax_total_nonneg x pi h =
        add_nonneg rounded _ _ (mul_nonneg _ _ cgt_nonneg h (number _))
          (unfold tax_on in surtax_nonneg_lem x pi h) (number _)

  -- What a breakdown owes its reader, whatever the inputs.
  pub record IsBounded (b : TaxBreakdown F) : Type 0 where
    pub tax_nonneg : float.dec 0 0 ≼ b.total_tax
    pub net_le : b.net_gain ≼ b.gross_gain
    pub saved_nonneg : float.dec 0 0 ≼ b.tax_saved
    pub losses_nonneg : float.dec 0 0 ≼ b.losses_applied
    pub taxable_nonneg : float.dec 0 0 ≼ b.taxable_gain

  money_nonneg : (x : D) → zero_dec ≼ x → float.dec 0 0 ≼ money {F = F} x
  money_nonneg x h = laws.ordered.le_trans _ _ _ laws.money_zero.1 (laws.money_mono zero_dec x h)

  float_zero : float.dec 0 0 ≼ float.dec 0 0
  float_zero = dec_refl laws.ordered 0 0

  module _ (cgt_nonneg : zero_dec ≼ decimal s.cgt_rate)
      (surtax_nonneg : zero_dec ≼ decimal s.surtax_rate) where
    compute_gain-IsBounded :
        (gross prior losses : D)
        → zero_dec ≼ gross
        → IsBounded (compute_gain D s gross prior losses)
    unfolding compute_gain tax_total
    compute_gain-IsBounded gross prior losses h =
        let applied = losses_used losses gross in
        let (low, high) = losses_used_bounds losses gross h in
        let taxable = sub gross applied in
        let left : zero_dec ≼ taxable = sub_nonneg gross applied high (number _) in
        let total = tax_total D s taxable prior in
        let owed : zero_dec ≼ total =
          tax_total_nonneg cgt_nonneg surtax_nonneg taxable prior left in
        record {
          tax_nonneg = money_nonneg total owed;
          net_le =
              laws.money_mono (sub gross total) gross
                (sub-le rounded gross total (number gross) owed (number _));
          saved_nonneg = money_nonneg (sub (tax_total D s gross prior) total) (
              sub_nonneg (tax_total D s gross prior) total
                (tax_total_mono cgt_nonneg surtax_nonneg taxable gross prior
                  (sub-le rounded gross applied (number gross) low (number _)))
                (number _));
          losses_nonneg = money_nonneg applied low;
          taxable_nonneg = money_nonneg taxable left;
        }

    -- For rates that are not negative, whatever the gain, the income and the losses: the tax, the
    -- losses applied, the taxable gain and the tax saved are not negative, and the net gain never
    -- exceeds the gross gain that is reported with it.
    pub compute-IsBounded : (gain prior losses : F) → IsBounded (compute D s gain prior losses)
    unfolding compute
    compute-IsBounded gain prior losses = elim (Bool-cases (num.le (decimal gain) zero_dec)) [
      | inl loss ↦ rw loss (record {
        tax_nonneg = float_zero;
        net_le = laws.money_mono _ _ (number (decimal gain));
        saved_nonneg = float_zero;
        losses_nonneg = float_zero;
        taxable_nonneg = float_zero;
      })
      | inr rise ↦ rw rise (
          compute_gain-IsBounded (decimal gain) (decimal prior) (decimal losses)
            (above (decimal gain) rise))
    ]
