-- ===== src/Lifecycle/Tax.antt =====
-- app/engines/tax_engine.py, and the result record of app/schemas/tax.py.
pub mod Laws
pub mod Relief
use investwise_pro.Prelude.{
  Bool, true, false, Option, none, some, String, List, [], ◌∷◌, if◌then◌else◌,
}
use investwise_pro.Float.{Float, max, min}
use investwise_pro.Money.{Decimals, money}
use investwise_pro.Settings.{Settings}
use investwise_pro.Lifecycle.Signals.{
  ActionType, DetectedSignal, VettedSignal, OptimizedSignal, Result, optimized_signal,
}

pub record TaxBreakdown (F : Type 0) : Type 0 where
  pub gross_gain : F
  pub losses_applied : F
  pub taxable_gain : F
  pub cgt : F
  pub surtax : F
  pub total_tax : F
  pub net_gain : F
  pub tax_saved : F
  pub effective_rate : F
  pub surtax_applies : Bool
  pub notes : String

-- `min(max(_Z, D(loss_carry_forward)), gross)`
unfoldable pub losses_used : {D : Type 0} ⦃num : Float D⦄ → D → D → D
losses_used ⦃num⦄ losses gross = min (max (num.dec 0 0) losses) gross

abbrev pub is_sell : ActionType → Bool
is_sell ActionType.sell = true
is_sell _ = false

-- `optimize`, once the gain is known
unfoldable pub with_breakdown :
    {F : Type 0} ⦃float : Float F⦄ → VettedSignal F → TaxBreakdown F → OptimizedSignal F
with_breakdown ⦃float⦄ signal b =
    let sell = is_sell signal.source.action_type in
    record {
      source = signal;
      net_gain_delta = some b.net_gain;
      actual_tax_cost = some (if sell then b.total_tax else float.dec 0 0);
      tax_saved = some b.tax_saved;
      tax_deferred = some (if sell then float.dec 0 0 else b.total_tax);
    }

module _ {F : Type 0} (D : Type 0) ⦃float : Float F⦄ ⦃num : Float D⦄ ⦃conv : Decimals F D⦄
    (s : Settings F) where
  open num use {dec, add, sub, mul, div, le, lt}
  open conv use {decimal, to_float}

  -- `_tax_on`: the capital gains tax and the surtax on what the gain lifts above the threshold
  unfoldable pub tax_on : D → D → D × D
  tax_on tg pi =
      let thr = decimal s.surtax_threshold_ils in
      let cgt = mul (decimal s.cgt_rate) tg in
      let base_above = max (dec 0 0) (sub (add pi tg) thr) in
      let prior_above = max (dec 0 0) (sub pi thr) in
      (cgt, mul (decimal s.surtax_rate) (sub base_above prior_above))

  -- `cgt + surtax`
  unfoldable pub tax_total : D → D → D
  tax_total tg pi = let (cgt, surtax) = tax_on tg pi in add cgt surtax

  -- The breakdown of a gain that is above zero.
  unfoldable pub compute_gain : D → D → D → TaxBreakdown F
  compute_gain gross prior losses =
      let applied = losses_used losses gross in
      let taxable = sub gross applied in
      let (cgt, surtax) = tax_on taxable prior in
      let total = add cgt surtax in
      let eff = if lt (dec 0 0) gross then to_float (div total gross) else float.dec 0 0 in
      record {
        gross_gain = money gross;
        losses_applied = money applied;
        taxable_gain = money taxable;
        cgt = money cgt;
        surtax = money surtax;
        total_tax = money total;
        net_gain = money (sub gross total);
        tax_saved = money (sub (tax_total gross prior) total);
        effective_rate = float.round eff 6;
        surtax_applies = lt (dec 0 0) surtax;
        notes = "";
      }

  unfoldable pub compute : F → F → F → TaxBreakdown F
  compute gross_gain prior_taxable_income loss_carry_forward =
      let gross = decimal gross_gain in
      if le gross (dec 0 0)
      then record {
        gross_gain = money gross;
        losses_applied = float.dec 0 0;
        taxable_gain = float.dec 0 0;
        cgt = float.dec 0 0;
        surtax = float.dec 0 0;
        total_tax = float.dec 0 0;
        net_gain = money gross;
        tax_saved = float.dec 0 0;
        effective_rate = float.dec 0 0;
        surtax_applies = false;
        notes = "Realized loss - no CGT; adds to loss carry-forward.";
      }
      else compute_gain gross (decimal prior_taxable_income) (decimal loss_carry_forward)

  unfoldable pub optimize : VettedSignal F → Result (OptimizedSignal F)
  optimize signal =
      let detected = signal.source in
      elim detected.gross_gain_ils [
        | none ↦ optimized_signal (record {
          source = signal;
          net_gain_delta = none;
          actual_tax_cost = none;
          tax_saved = none;
          tax_deferred = none;
        })
        | some gross ↦ optimized_signal (
            with_breakdown signal
              (compute gross detected.prior_taxable_income_ils detected.loss_carry_forward_ils))
      ]
