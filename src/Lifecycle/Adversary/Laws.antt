-- ===== src/Lifecycle/Adversary/Laws.antt =====
-- What the adversary's examination of an optimized signal may conclude from the tax engine's numbers.
use investwise_pro.Prelude.{
  ◌≡◌, false, none, some, arith, inl, inr, Bool-cases, Option-cases, ◌⊎◌, ◌||◌,
}
use investwise_pro.Float.{Float, ◌≼◌, IsRounded}
use investwise_pro.Money.{Decimals, IsMoney}
use investwise_pro.Settings.{Settings}
use investwise_pro.Lifecycle.Signals.{VettedSignal, OptimizedSignal, ok, optimized_signal}
use investwise_pro.Lifecycle.Tax.{compute, optimize, with_breakdown}
use investwise_pro.Lifecycle.Tax.Laws.{compute-IsBounded}
use investwise_pro.Lifecycle.Adversary.{
  note, blocks, net_exceeds, saved_negative, examine_optimized,
}

module _ {F : Type 0} ⦃float : Float F⦄ where
  open float use {dec, sub, lt, le}

  not-lt_below_zero :
      (laws : IsRounded F) (x : F) → dec 0 0 ≼ x → lt x (sub (dec 0 0) (dec 1 6)) ≡ false
  not-lt_below_zero laws x h =
      let low = sub (dec 0 0) (dec 1 6) in
      elim (Bool-cases (lt x low)) [
        | inr not_below ↦ not_below
        | inl below_it ↦
            let (nx, nl) = laws.refl_of_lt x low below_it in
            let below =
              laws.sub_nonpos (dec 0 0) (dec 1 6) (laws.dec_mono 0 0 1 6 (omega arith)) nl in
            ground (
              arith,
              below_it,
              laws.lt-eq-not-le x low nx nl,
              laws.le_trans low (dec 0 0) x below h,
            )
      ]

  -- The note on an optimized signal blocks exactly where the net is above the gross or the tax saved
  -- is negative; tax both realized and deferred alone only warns.
  pub blocks-examine_optimized :
      (o : OptimizedSignal F)
      → blocks (examine_optimized o) ≡ (
          net_exceeds o.net_gain_delta o.source.source.gross_gain_ils || saved_negative o.tax_saved)
  unfolding blocks examine_optimized note
  blocks-examine_optimized o = ground arith

module _ {F D : Type 0} ⦃float : Float F⦄ ⦃num : Float D⦄ ⦃conv : Decimals F D⦄ (laws : IsMoney F D)
    (float_laws : IsRounded F) (s : Settings F) (cgt_nonneg : num.dec 0 0 ≼ conv.decimal s.cgt_rate)
    (surtax_nonneg : num.dec 0 0 ≼ conv.decimal s.surtax_rate) where
  optimize_with :
      (v : VettedSignal F) (o : OptimizedSignal F)
      → optimize D s v ≡ ok o
      → (o.source ≡ v)
        × ((o.tax_saved ≡ none)
            ⊎ ((gain : F) × (o.tax_saved
                  ≡ some
                      (compute D s gain v.source.prior_taxable_income_ils
                        v.source.loss_carry_forward_ils).tax_saved)))
  unfolding optimize optimized_signal with_breakdown
  optimize_with v o h = elim (Option-cases v.source.gross_gain_ils) [
    | inl missing ↦ (ground (arith, missing), inl (ground (arith, missing)))
    | inr (gain, given) ↦ (ground (arith, given), inr (gain, ground (arith, given)))
  ]

  -- With rates that are not negative, no signal that the tax engine optimized is blocked for the tax
  -- that it saves: the adversary blocks it only for a net above its gross gain.
  pub blocks-optimize :
      (v : VettedSignal F) (o : OptimizedSignal F)
      → optimize D s v ≡ ok o
      → blocks (examine_optimized o) ≡ net_exceeds o.net_gain_delta v.source.gross_gain_ils
  unfolding saved_negative
  blocks-optimize v o h =
      let known = blocks-examine_optimized o in
      let (same, known_gain) = optimize_with v o h in
      elim known_gain [
        | inl missing ↦ ground (arith, known, same, missing)
        | inr (gain, saved) ↦
            let detected = v.source in
            let bounds =
              compute-IsBounded laws s cgt_nonneg surtax_nonneg gain
                detected.prior_taxable_income_ils detected.loss_carry_forward_ils in
            ground (arith, known, same, saved, not-lt_below_zero float_laws _ bounds.saved_nonneg)
      ]
