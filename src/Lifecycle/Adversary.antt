-- ===== src/Lifecycle/Adversary.antt =====
-- app/agents/adversary.py: the examiners of the four stages. The optional narrative of a language
-- model is not on this path.
pub mod Laws
use investwise_pro.Prelude.{
  ◌*◌, Bool, true, false, not, ◌&&◌, ◌||◌, Option, none, some, String, List, [], ◌∷◌, ◌++◌, is_some,
  is_empty, fstring, join, if◌then◌else◌,
}
use investwise_pro.Float.{Float}
use investwise_pro.Settings.{Settings}
use investwise_pro.Lifecycle.Signals.{DetectedSignal, VettedSignal, OptimizedSignal, RankedSignal}
use investwise_pro.Lifecycle.Scoring.{weighted}

pub data Severity : Type 0 where
  fine warn block : Severity

pub record AdversaryNote : Type 0 where
  pub stage : String
  pub severity : Severity
  pub findings : List String
  pub critique : String

-- the property `blocks`
abbrev pub is_block : Severity → Bool
is_block block = true
is_block fine = false
is_block warn = false

unfoldable pub blocks : AdversaryNote → Bool
blocks n = is_block n.severity

unfoldable pub note : String → List String → Bool → AdversaryNote
note stage findings blocking =
    if is_empty findings
    then record {
      stage = stage;
      severity = fine;
      findings = [];
      critique = fstring (stage ∷ ": no blind spots found." ∷ []);
    }
    else record {
      stage = stage;
      severity = if blocking then block else warn;
      findings = findings;
      critique = fstring (stage ∷ ": " ∷ join "; " findings ∷ "." ∷ []);
    }

-- a finding that is appended if its test holds
abbrev pub when : Bool → List String → List String
when test parts = if test then fstring parts ∷ [] else []

module _ {F : Type 0} ⦃num : Float F⦄ where
  open num use {dec, add, sub, mul, div, abs, le, lt, eq, format}

  -- a test on a number that may be missing
  abbrev pub given : (F → Bool) → Option F → Bool
  given p none = false
  given p (some x) = p x

  -- the findings on an expected return and a volatility, where both are known
  unfoldable pub return_findings : Option F → Option F → List String
  return_findings (some er) (some vol) =
      if eq vol (dec 0 1) && lt (dec 0 0) er
      then "a positive expected return with zero volatility implies risk-free arbitrage - suspect the input data"
        ∷ []
      else when (lt (dec 0 0) vol && lt (dec 30 1) (div er vol)) (
          "return/volatility ratio "
          ∷ format ".1f" (div er vol)
          ∷ " (>3) is implausibly high - verify the return assumption isn't overstated"
          ∷ [])
  return_findings _ _ = []

  unfoldable pub examine_detected : DetectedSignal F → AdversaryNote
  examine_detected det =
      note "Detected"
        (return_findings det.expected_return_pct det.volatility_pct
          ++ when
              (given
                (λ gross. lt (dec 0 0) gross && lt (mul (dec 5 0) gross) det.loss_carry_forward_ils)
                det.gross_gain_ils)
              ("loss carry-forward dwarfs the gain - confirm it isn't double-counted" ∷ []))
        false

  -- a ruin probability above its cap, in a signal that was not vetoed
  unfoldable pub ruin_findings : Settings F → Bool → Option F → List String
  ruin_findings s veto none = []
  ruin_findings s veto (some p) = when (not veto && lt s.ruin_probability_cap p) (
      "ruin probability "
      ∷ format ".0%" p
      ∷ " exceeds the "
      ∷ format ".0%" s.ruin_probability_cap
      ∷ " cap yet was not vetoed"
      ∷ [])

  unfoldable pub examine_vetted : Settings F → VettedSignal F → AdversaryNote
  examine_vetted s v =
      note "Vetted"
        (when (is_some v.probability_of_ruin && not (is_some v.max_drawdown)) (
            "probability of ruin computed but max drawdown is missing - inconsistent risk output"
            ∷ [])
          ++ (when (not (is_some v.probability_of_ruin) && is_some v.volatility)
                ("volatility present but ruin probability not computed" ∷ [])
              ++ ruin_findings s v.veto_flag v.probability_of_ruin))
        false

  -- `o.net_gain_delta > gross + 1e-6`, where both are known and the gross gain is above zero
  unfoldable pub net_exceeds : Option F → Option F → Bool
  net_exceeds (some net) (some gross) = lt (dec 0 0) gross && lt (add gross (dec 1 6)) net
  net_exceeds _ _ = false

  -- `o.tax_saved < -1e-6`
  unfoldable pub saved_negative : Option F → Bool
  saved_negative = given (λ saved. lt saved (sub (dec 0 0) (dec 1 6)))

  abbrev pub shown : Option F → String
  shown none = ""
  shown (some x) = format ",.0f" x

  unfoldable pub examine_optimized : OptimizedSignal F → AdversaryNote
  examine_optimized o =
      let gross = o.source.source.gross_gain_ils in
      let exceeds = net_exceeds o.net_gain_delta gross in
      let negative = saved_negative o.tax_saved in
      note "Optimized"
        (when exceeds (
            "net-after-tax ("
            ∷ shown o.net_gain_delta
            ∷ ") exceeds gross gain ("
            ∷ shown gross
            ∷ ") - tax math is wrong"
            ∷ [])
          ++ (when negative ("negative tax saved (" ∷ shown o.tax_saved ∷ ") is impossible" ∷ [])
              ++ when
                  (given (lt (dec 0 0)) o.actual_tax_cost && given (lt (dec 0 0)) o.tax_deferred)
                  ("tax is reported as both realized now and deferred - ambiguous" ∷ [])))
        (exceeds || negative)

  unfoldable pub examine_ranked : RankedSignal F → AdversaryNote
  examine_ranked r =
      let s = r.scores in
      let recomputed =
        div (weighted s.ret s.tax s.risk s.liquidity s.conviction) r.complexity_factor in
      note "Ranked"
        (when (lt (dec 5 1) (abs (sub recomputed r.impact_score))) (
            "impact_score "
            ∷ format ".1f" r.impact_score
            ∷ " disagrees with the weighted sub-score recomputation "
            ∷ format ".1f" recomputed
            ∷ " - scoring drift"
            ∷ [])
          ++ when (le (dec 80 0) r.impact_score && lt r.confidence (dec 40 0)) (
              "high impact ("
              ∷ format ".0f" r.impact_score
              ∷ ") at low confidence ("
              ∷ format ".0f" r.confidence
              ∷ "%) - challenge the conviction"
              ∷ []))
        false
