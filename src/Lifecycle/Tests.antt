-- ===== src/Lifecycle/Tests.antt =====
-- The machine of app/engines/state_machine.py over the engines of the repository, run on concrete signals.
use investwise_pro.Prelude.{ℕ, ◌*◌, ◌≡◌, refl, true, false, ◌||◌, none, some, String, [], any}
use investwise_pro.Prelude.Int.{pos, ◌+ℤ◌, ◌-ℤ◌}
use investwise_pro.Float.{◌≼◌}
use investwise_pro.Float.Fixed.{
  Fixed, fixed_float, Fixed-IsRounded, mul_fixed, div_fixed, round_fixed,
}
use investwise_pro.Money.{money}
use investwise_pro.Money.Fixed.{fixed_decimals, Fixed-IsMoney}
use investwise_pro.Settings.{Settings, default_settings}
use investwise_pro.Lifecycle.Signals.{
  Market, ActionType, DetectedSignal, VettedSignal, OptimizedSignal, DisplayedItem,
  ConfidenceBreakdown, Result, ok, err, vetted_signal, optimized_signal, ranked_signal,
}
use investwise_pro.Lifecycle.Scoring.{
  compute_confidence, compute_impact, clamp_score, complexity_factor,
}
use investwise_pro.Lifecycle.Scoring.Bounds.{compute_confidence_mono}
use investwise_pro.Lifecycle.Tax as Tax
use investwise_pro.Lifecycle.Tax.Laws.{IsBounded, compute-IsBounded}
use investwise_pro.Lifecycle.Tax.Relief.{relief}
use investwise_pro.Lifecycle.Risk as Risk
use investwise_pro.Lifecycle.Risk.{RiskAssessment}
use investwise_pro.Lifecycle.Risk.Veto.{veto_iff}
use investwise_pro.Lifecycle.Decision as Decision
use investwise_pro.Lifecycle.Adversary.{
  blocks, note, return_findings, ruin_findings, saved_negative, examine_detected, examine_vetted,
  examine_optimized, examine_ranked, net_exceeds,
}
use investwise_pro.Lifecycle.Adversary.Laws.{blocks-optimize}
use investwise_pro.Lifecycle.Machine.{
  Outcome, displayed, vetoed, no_action, ExaminationResult, StateMachine, cross_examine, run, vet,
  optimize, rank, gate, display, adv_veto, from_detected, from_vetted, from_optimized,
}
use investwise_pro.Lifecycle.Machine.Gates.{Passed, displayed-Passed}
use investwise_pro.Lifecycle.Machine.Vetoes.{is_vetoed, blocks-IsVeto}
use investwise_pro.Lifecycle.Machine.Advice.{muted, advisory_run}

abbrev units : ℕ → Fixed
units n = pos (n * 1_000_000)

abbrev settings : Settings Fixed
settings = default_settings

-- a simulation that answers the same whatever its drift and volatility
abbrev simulated : Fixed → Fixed → Fixed → RiskAssessment Fixed
simulated ruin mu sigma = record {
  runs = 1_000;
  horizon_years = units 1;
  expected_return = mu;
  volatility = sigma;
  probability_of_ruin = ruin;
  median_max_drawdown = pos 80_000;
  worst_case_drawdown_p95 = pos 150_000;
  expected_terminal_return = mu;
  terminal_return_volatility = sigma;
  distribution = "GBM";
}

abbrev unstripped : String → String
unstripped s = s

abbrev machine : Fixed → StateMachine Fixed
machine ruin = record {
  settings = settings;
  risk_vet = Risk.vet settings unstripped (simulated ruin);
  tax_optimize = Tax.optimize Fixed settings;
  decision_rank = Decision.rank settings (units 60);
}

-- a sale with a gain of so many millionths and losses carried forward
abbrev sale : ℕ → ℕ → DetectedSignal Fixed
sale gain losses = record {
  ticker = "TEVA";
  market = Market.tase;
  action_type = ActionType.sell;
  trigger = "lag";
  depth = 3;
  divergence_pct = units 4;
  notes = "";
  gross_gain_ils = some (pos gain);
  prior_taxable_income_ils = units 300_000;
  loss_carry_forward_ils = pos losses;
  expected_return_pct = some (units 12);
  volatility_pct = some (units 10);
  liquidity_score = some (units 90);
}

abbrev outcome_name : Result (Outcome Fixed) → String
outcome_name (err e) = "error"
outcome_name (ok (displayed item)) = item.title
outcome_name (ok (vetoed v)) = v.reason
outcome_name (ok no_action) = "no action"

abbrev low_risk : StateMachine Fixed
low_risk = machine (pos 50_000)

abbrev high_risk : StateMachine Fixed
high_risk = machine (pos 350_000)

-- a gain of 100 with no losses
abbrev plain_sale : DetectedSignal Fixed
plain_sale = sale 100_000_000 0

-- a gain of 100.005 that the losses cover, whose net of no tax is rounded to 100.01
abbrev covered_sale : DetectedSignal Fixed
covered_sale = sale 100_005_000 200_000_000

-- what an examination leaves, if it raises nothing
abbrev examined : Result (ExaminationResult Fixed) → ExaminationResult Fixed
examined (ok r) = r
examined (err e) = record { outcome = no_action; notes = [] }

covered_sale_vetoed :
    outcome_name (run unstripped low_risk covered_sale)
    ≡ "ADVERSARY Optimized: net-after-tax (,.0f) exceeds gross gain (,.0f) - tax math is wrong."
unfolding run cross_examine blocks examine_detected note return_findings div_fixed mul_fixed
    round_fixed from_detected vet Risk.vet vetted_signal Risk.assess Risk.reasons ◌-ℤ◌ ◌+ℤ◌
    examine_vetted ruin_findings from_vetted optimize Tax.optimize Tax.compute Tax.compute_gain
    Tax.tax_on Tax.tax_total Tax.losses_used Tax.with_breakdown optimized_signal money
    examine_optimized net_exceeds saved_negative from_optimized rank Decision.rank
    Decision.impact_scores Decision.return_score Decision.conviction_score Decision.tax_score
    Decision.tax_share Decision.weight_sum Decision.score_sum Decision.confidence_breakdown
    Decision.urgency_of compute_impact compute_confidence complexity_factor clamp_score
    ranked_signal examine_ranked gate display adv_veto
covered_sale_vetoed = refl

plain_sale_displayed : outcome_name (run unstripped low_risk plain_sale) ≡ "Sell TEVA (TASE)"
unfolding run cross_examine blocks examine_detected note return_findings div_fixed mul_fixed
    round_fixed from_detected vet Risk.vet vetted_signal Risk.assess Risk.reasons ◌-ℤ◌ ◌+ℤ◌
    examine_vetted ruin_findings from_vetted optimize Tax.optimize Tax.compute Tax.compute_gain
    Tax.tax_on Tax.tax_total Tax.losses_used Tax.with_breakdown optimized_signal money
    examine_optimized net_exceeds saved_negative from_optimized rank Decision.rank
    Decision.impact_scores Decision.return_score Decision.conviction_score Decision.tax_score
    Decision.tax_share Decision.weight_sum Decision.score_sum Decision.confidence_breakdown
    Decision.urgency_of compute_impact compute_confidence complexity_factor clamp_score
    ranked_signal examine_ranked gate display adv_veto
plain_sale_displayed = refl

-- The two examinations, and what they come to.
plain_examined :
    (r : ExaminationResult Fixed) × (d : DisplayedItem Fixed) × (cross_examine unstripped low_risk
        plain_sale
      ≡ ok r)
    × (r.outcome ≡ displayed d)
unfolding run cross_examine blocks examine_detected note return_findings div_fixed mul_fixed
    round_fixed from_detected vet Risk.vet vetted_signal Risk.assess Risk.reasons ◌-ℤ◌ ◌+ℤ◌
    examine_vetted ruin_findings from_vetted optimize Tax.optimize Tax.compute Tax.compute_gain
    Tax.tax_on Tax.tax_total Tax.losses_used Tax.with_breakdown optimized_signal money
    examine_optimized net_exceeds saved_negative from_optimized rank Decision.rank
    Decision.impact_scores Decision.return_score Decision.conviction_score Decision.tax_score
    Decision.tax_share Decision.weight_sum Decision.score_sum Decision.confidence_breakdown
    Decision.urgency_of compute_impact compute_confidence complexity_factor clamp_score
    ranked_signal examine_ranked gate display adv_veto
plain_examined = (_, _, refl, refl)

covered_examined :
    (r : ExaminationResult Fixed) × (cross_examine unstripped low_risk covered_sale ≡ ok r)
    × (any blocks r.notes ≡ true)
unfolding run cross_examine blocks examine_detected note return_findings div_fixed mul_fixed
    round_fixed from_detected vet Risk.vet vetted_signal Risk.assess Risk.reasons ◌-ℤ◌ ◌+ℤ◌
    examine_vetted ruin_findings from_vetted optimize Tax.optimize Tax.compute Tax.compute_gain
    Tax.tax_on Tax.tax_total Tax.losses_used Tax.with_breakdown optimized_signal money
    examine_optimized net_exceeds saved_negative from_optimized rank Decision.rank
    Decision.impact_scores Decision.return_score Decision.conviction_score Decision.tax_score
    Decision.tax_share Decision.weight_sum Decision.score_sum Decision.confidence_breakdown
    Decision.urgency_of compute_impact compute_confidence complexity_factor clamp_score
    ranked_signal examine_ranked gate display adv_veto
covered_examined = (_, refl, refl)

risk_vetted :
    (v : VettedSignal Fixed) × (Risk.vet settings unstripped (simulated (pos 350_000)) plain_sale
      ≡ ok v)
    × (v.veto_flag ≡ true)
unfolding run cross_examine blocks examine_detected note return_findings div_fixed mul_fixed
    round_fixed from_detected vet Risk.vet vetted_signal Risk.assess Risk.reasons ◌-ℤ◌ ◌+ℤ◌
    examine_vetted ruin_findings from_vetted optimize Tax.optimize Tax.compute Tax.compute_gain
    Tax.tax_on Tax.tax_total Tax.losses_used Tax.with_breakdown optimized_signal money
    examine_optimized net_exceeds saved_negative from_optimized rank Decision.rank
    Decision.impact_scores Decision.return_score Decision.conviction_score Decision.tax_score
    Decision.tax_share Decision.weight_sum Decision.score_sum Decision.confidence_breakdown
    Decision.urgency_of compute_impact compute_confidence complexity_factor clamp_score
    ranked_signal examine_ranked gate display adv_veto
risk_vetted = (_, refl, refl)

optimized_sale :
    (v : VettedSignal Fixed) × (o : OptimizedSignal Fixed) × (Tax.optimize Fixed settings v ≡ ok o)
unfolding run cross_examine blocks examine_detected note return_findings div_fixed mul_fixed
    round_fixed from_detected vet Risk.vet vetted_signal Risk.assess Risk.reasons ◌-ℤ◌ ◌+ℤ◌
    examine_vetted ruin_findings from_vetted optimize Tax.optimize Tax.compute Tax.compute_gain
    Tax.tax_on Tax.tax_total Tax.losses_used Tax.with_breakdown optimized_signal money
    examine_optimized net_exceeds saved_negative from_optimized rank Decision.rank
    Decision.impact_scores Decision.return_score Decision.conviction_score Decision.tax_score
    Decision.tax_share Decision.weight_sum Decision.score_sum Decision.confidence_breakdown
    Decision.urgency_of compute_impact compute_confidence complexity_factor clamp_score
    ranked_signal examine_ranked gate display adv_veto
optimized_sale = (
  record {
    source = plain_sale;
    probability_of_ruin = none;
    max_drawdown = none;
    volatility = none;
    veto_flag = false;
    risk_critique = "";
  },
  _,
  refl,
)

blocks-IsVeto_example : is_vetoed covered_examined.0.outcome ≡ true
blocks-IsVeto_example =
    blocks-IsVeto unstripped low_risk refl refl covered_sale covered_examined.0 covered_examined.1
      covered_examined.2

displayed-Passed_example : Passed unstripped low_risk plain_sale plain_examined.1
displayed-Passed_example =
    displayed-Passed unstripped low_risk plain_sale plain_examined.0 plain_examined.1
      plain_examined.2 plain_examined.3

-- the adversary's veto not enforced
abbrev advisory : StateMachine Fixed
advisory = record low_risk { settings = record settings { adversary_enforce_veto = false } }

advisory_run_example :
    run unstripped advisory covered_sale ≡ run unstripped (muted advisory) covered_sale
advisory_run_example = advisory_run unstripped advisory refl covered_sale

veto_iff_example :
    (risk_vetted.0.veto_flag ≡ (
      fixed_float.lt (pos 150_000) (div_fixed (units 10) (units 100))
      || fixed_float.lt (pos 200_000) (pos 350_000)))
    × (risk_vetted.0.source ≡ plain_sale)
veto_iff_example =
    veto_iff settings unstripped (simulated (pos 350_000)) plain_sale (units 10) risk_vetted.0 refl
      risk_vetted.1

compute-IsBounded_example :
    IsBounded Fixed-IsMoney settings
      (Tax.compute Fixed settings (units 900_000) (units 300_000) (units 50_000))
compute-IsBounded_example =
    compute-IsBounded Fixed-IsMoney settings refl refl (units 900_000) (units 300_000)
      (units 50_000)

relief_example :
    ((Tax.compute Fixed settings (units 100) (units 800_000) (units 200)).total_tax ≼ units 0)
    × ((Tax.compute Fixed settings (units 100) (units 800_000) (units 200)).surtax_applies ≡ false)
relief_example =
    relief Fixed-IsMoney settings refl refl (units 100) (units 800_000) (units 200) refl refl

blocks-optimize_example :
    blocks (examine_optimized optimized_sale.1)
    ≡ net_exceeds optimized_sale.1.net_gain_delta optimized_sale.0.source.gross_gain_ils
blocks-optimize_example =
    blocks-optimize Fixed-IsMoney Fixed-IsRounded settings refl refl optimized_sale.0
      optimized_sale.1 optimized_sale.2

abbrev breakdown : ℕ → ConfidenceBreakdown Fixed
breakdown quality = record {
  data_quality = units quality;
  model_agreement = units 80;
  historical_accuracy = units 60;
  market_stability = units 70;
}

compute_confidence_mono_example :
    compute_confidence (breakdown 60) ≼ compute_confidence (breakdown 80)
unfolding compute_confidence clamp_score ◌+ℤ◌ mul_fixed
compute_confidence_mono_example =
    compute_confidence_mono Fixed-IsRounded (breakdown 60) (breakdown 80) refl refl refl refl refl
      refl
