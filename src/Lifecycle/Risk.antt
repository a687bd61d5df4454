-- ===== src/Lifecycle/Risk.antt =====
-- app/engines/risk_engine.py: the caps and the veto. The simulation of price paths, numpy's random
-- numbers and statistics, is the parameter `monte_carlo` of the drift and the volatility.
pub mod Veto
use investwise_pro.Prelude.{
  ℕ, Bool, true, false, Option, none, some, String, List, [], ◌∷◌, ◌++◌, is_empty, or_else, fstring,
  join, if◌then◌else◌,
}
use investwise_pro.Float.{Float}
use investwise_pro.Settings.{Settings}
use investwise_pro.Lifecycle.Signals.{DetectedSignal, VettedSignal, Result, vetted_signal}

pub record RiskAssessment (F : Type 0) : Type 0 where
  pub runs : ℕ
  pub horizon_years : F
  pub expected_return : F
  pub volatility : F
  pub probability_of_ruin : F
  pub median_max_drawdown : F
  pub worst_case_drawdown_p95 : F
  pub expected_terminal_return : F
  pub terminal_return_volatility : F
  pub distribution : String

module _ {F : Type 0} ⦃num : Float F⦄ (s : Settings F) where
  open num use {dec, div, lt, format}

  -- the list `reasons`
  unfoldable pub reasons : F → RiskAssessment F → List String
  reasons sigma a =
      (if lt s.volatility_cap sigma
        then fstring (
            "volatility "
            ∷ format ".0%" sigma
            ∷ " exceeds the "
            ∷ format ".0%" s.volatility_cap
            ∷ " cap"
            ∷ [])
          ∷ []
        else [])
      ++ (if lt s.ruin_probability_cap a.probability_of_ruin
          then fstring (
              "probability of ruin "
              ∷ format ".0%" a.probability_of_ruin
              ∷ " exceeds the "
              ∷ format ".0%" s.ruin_probability_cap
              ∷ " cap (paths breaching a "
              ∷ format ".0%" s.max_drawdown_cap
              ∷ " drawdown)"
              ∷ [])
            ∷ []
          else [])

  unfoldable pub assess : (F → F → RiskAssessment F) → F → F → RiskAssessment F × Bool × String
  assess monte_carlo expected_return_pct volatility_pct =
      let mu = div expected_return_pct (dec 1000 1) in
      let sigma = div volatility_pct (dec 1000 1) in
      let a = monte_carlo mu sigma in
      let found = reasons sigma a in
      if is_empty found
      then (
        a,
        false,
        fstring (
            "Within risk limits - vol "
            ∷ format ".0%" sigma
            ∷ ", P(ruin) "
            ∷ format ".0%" a.probability_of_ruin
            ∷ ", median max drawdown "
            ∷ format ".0%" a.median_max_drawdown
            ∷ "."
            ∷ []),
      )
      else (a, true, fstring ("VETO: " ∷ join "; " found ∷ "." ∷ []))

  unfoldable pub vet :
      (String → String) → (F → F → RiskAssessment F) → DetectedSignal F → Result (VettedSignal F)
  vet strip monte_carlo signal = elim signal.volatility_pct [
    | none ↦ vetted_signal strip (record {
      source = signal;
      probability_of_ruin = none;
      max_drawdown = none;
      volatility = none;
      veto_flag = false;
      risk_critique = "Awaiting Data - no volatility input for Monte Carlo.";
    })
    | some volatility_pct ↦
        let mu_pct = or_else signal.expected_return_pct (dec 0 1) in
        let (assessment, veto, critique) = assess monte_carlo mu_pct volatility_pct in
        vetted_signal strip (record {
          source = signal;
          probability_of_ruin = some assessment.probability_of_ruin;
          max_drawdown = some assessment.median_max_drawdown;
          volatility = some assessment.volatility;
          veto_flag = veto;
          risk_critique = critique;
        })
  ]
