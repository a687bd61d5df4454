-- ===== src/Lifecycle/Scoring.antt =====
-- app/engines/scoring.py and the tables of app/schemas/scoring.py.
pub mod Bounds
use investwise_pro.Prelude.{String, if◌then◌else◌}
use investwise_pro.Float.{Float, max, min}
use investwise_pro.Lifecycle.Signals.{
  ImpactScores, ConfidenceBreakdown, Result, ok, err, bad_factor,
}

pub data Complexity : Type 0 where
  trivial easy moderate difficult complex : Complexity

abbrev pub complexity_value : Complexity → String
complexity_value trivial = "Trivial"
complexity_value easy = "Easy"
complexity_value moderate = "Moderate"
complexity_value difficult = "Difficult"
complexity_value complex = "Complex"

module _ {F : Type 0} ⦃num : Float F⦄ where
  open num use {dec, add, mul, div, le}

  -- `COMPLEXITY_FACTOR`
  unfoldable pub complexity_factor : Complexity → F
  complexity_factor trivial = dec 10 1
  complexity_factor easy = dec 125 2
  complexity_factor moderate = dec 150 2
  complexity_factor difficult = dec 175 2
  complexity_factor complex = dec 20 1

  unfoldable pub clamp_score : F → F
  clamp_score x = max (dec 0 0) (min (dec 100 0) x)

  -- The sum of the five weighted sub-scores, in the order of the source.
  abbrev pub weighted : F → F → F → F → F → F
  weighted ret tax risk liquidity conviction =
      add
        (add (add (add (mul (dec 30 2) ret) (mul (dec 25 2) tax)) (mul (dec 25 2) risk))
          (mul (dec 10 2) liquidity))
        (mul (dec 10 2) conviction)

  unfoldable pub compute_impact : ImpactScores F → F → Result F
  compute_impact scores complexity_factor =
      if le complexity_factor (dec 0 0)
      then err bad_factor
      else ok (
          div
            (weighted (clamp_score scores.ret) (clamp_score scores.tax) (clamp_score scores.risk)
              (clamp_score scores.liquidity) (clamp_score scores.conviction))
            complexity_factor)

  unfoldable pub compute_confidence : ConfidenceBreakdown F → F
  compute_confidence b =
      add
        (add
          (add (mul (dec 40 2) (clamp_score b.data_quality))
            (mul (dec 30 2) (clamp_score b.model_agreement)))
          (mul (dec 20 2) (clamp_score b.historical_accuracy)))
        (mul (dec 10 2) (clamp_score b.market_stability))
