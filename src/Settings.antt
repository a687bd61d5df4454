-- ===== src/Settings.antt =====
-- `class Settings` of app/core/config.py: the fields that the modelled engines read.
use investwise_pro.Prelude.{ℕ, Bool, true, Option, none}
use investwise_pro.Float.{Float}

pub record Settings (F : Type 0) : Type 0 where
  pub cgt_rate : F
  pub surtax_rate : F
  pub surtax_threshold_ils : F
  pub max_drawdown_cap : F
  pub volatility_cap : F
  pub ruin_probability_cap : F
  pub lag_min_divergence_pct : F
  pub concentration_cap : F
  pub min_liquidity_ratio : F
  pub allocation_drift_threshold : F
  pub rebalance_txn_cost_bps : F
  pub rebalance_slippage_bps : F
  pub rebalance_assumed_gain_ratio : F
  pub fee_high_threshold_pct : F
  pub adversary_enabled : Bool
  pub adversary_enforce_veto : Bool
  pub min_impact_score : F
  pub min_confidence : F
  pub decision_return_scale : F
  pub preferred_depth : Option ℕ
  pub confidence_dq_base : F
  pub confidence_dq_bonus : F
  pub confidence_model_agreement : F
  pub confidence_conflict_agreement : F

module _ {F : Type 0} ⦃num : Float F⦄ where
  open num use {dec}

  abbrev pub default_settings : Settings F
  default_settings = record {
    cgt_rate = dec 25 2;
    surtax_rate = dec 5 2;
    surtax_threshold_ils = dec 721_000 0;
    max_drawdown_cap = dec 20 2;
    volatility_cap = dec 15 2;
    ruin_probability_cap = dec 20 2;
    lag_min_divergence_pct = dec 2 0;
    concentration_cap = dec 25 2;
    min_liquidity_ratio = dec 5 2;
    allocation_drift_threshold = dec 3 2;
    rebalance_txn_cost_bps = dec 10 0;
    rebalance_slippage_bps = dec 5 0;
    rebalance_assumed_gain_ratio = dec 30 2;
    fee_high_threshold_pct = dec 50 2;
    adversary_enabled = true;
    adversary_enforce_veto = true;
    min_impact_score = dec 20 0;
    min_confidence = dec 60 0;
    decision_return_scale = dec 5 0;
    preferred_depth = none;
    confidence_dq_base = dec 60 0;
    confidence_dq_bonus = dec 20 0;
    confidence_model_agreement = dec 80 0;
    confidence_conflict_agreement = dec 55 0;
  }
