-- ===== src/Lifecycle/Decision.antt =====
-- app/engines/decision_engine.py.
use investwise_pro.Prelude.{
  ℕ, zero, suc, Bool, false, ◌&&◌, Option, none, some, List, [], ◌∷◌, ◌++◌, is_some, or_else, ◌==◌,
  if◌then◌else◌,
}
use investwise_pro.Float.{Float, max, min, truthy}
use investwise_pro.Settings.{Settings}
use investwise_pro.Lifecycle.Signals.{
  ActionType, DetectedSignal, OptimizedSignal, ImpactScores, ConfidenceBreakdown, RankedSignal,
  Result, ◌>>=◌, ranked_signal,
}
use investwise_pro.Lifecycle.Scoring.{
  Complexity, complexity_value, complexity_factor, clamp_score, compute_impact, compute_confidence,
}

-- `COMPLEXITY_BY_ACTION`
abbrev pub complexity_by_action : ActionType → Complexity
complexity_by_action ActionType.buy = Complexity.easy
complexity_by_action ActionType.sell = Complexity.moderate
complexity_by_action ActionType.rebalance = Complexity.moderate
complexity_by_action ActionType.tax = Complexity.difficult
complexity_by_action ActionType.risk = Complexity.moderate

-- `if self.settings.preferred_depth and detected.depth == self.settings.preferred_depth`
abbrev pub prefers : Option ℕ → ℕ → Bool
prefers none depth = false
prefers (some zero) depth = false
prefers (some (suc d)) depth = depth == suc d

-- the weight and the score of each known dimension, in the order of the dict
abbrev pub Known : Type 0 → Type 0
Known F = List (F × F)

abbrev pub known_if : {F : Type 0} → F → Option F → Known F
known_if weight none = []
known_if weight (some v) = (weight, v) ∷ []

module _ {F : Type 0} ⦃num : Float F⦄ where
  open num use {dec, add, sub, mul, div, abs, le, lt, round, trunc}

  -- `sum(IMPACT_WEIGHTS[k] for k in known)`, from the left
  unfoldable pub weight_sum : F → Known F → F
  weight_sum acc [] = acc
  weight_sum acc ((w, v) ∷ known) = weight_sum (add acc w) known

  unfoldable pub score_sum : F → Known F → F
  score_sum acc [] = acc
  score_sum acc ((w, v) ∷ known) = score_sum (add acc (mul w v)) known

  -- `x or 0.0`
  abbrev pub or_zero : Option F → F
  or_zero none = dec 0 1
  or_zero (some x) = if truthy x then x else dec 0 1

  abbrev pub some_truthy : Option F → Bool
  some_truthy none = false
  some_truthy (some x) = truthy x

  unfoldable pub return_score : Settings F → DetectedSignal F → F
  return_score s detected = clamp_score (
      mul (max (or_zero detected.expected_return_pct) (abs detected.divergence_pct))
        s.decision_return_scale)

  unfoldable pub conviction_score : Settings F → DetectedSignal F → F
  conviction_score s detected =
      let conviction = clamp_score (mul (div (dec detected.depth 0) (dec 3 0)) (dec 100 0)) in
      if prefers s.preferred_depth detected.depth
      then clamp_score (add conviction (dec 25 0))
      else conviction

  -- `known["tax"]`, where it is set
  unfoldable pub tax_share : Option F → Option F → Option F
  tax_share (some net) (some gross) =
      if truthy gross then some (clamp_score (mul (div net gross) (dec 100 0))) else none
  tax_share _ _ = none

  unfoldable pub tax_score : OptimizedSignal F → Option F
  unfolding tax_share
  tax_score o = tax_share o.net_gain_delta o.source.source.gross_gain_ils

  abbrev pub map_score : (F → F) → Option F → Option F
  map_score f none = none
  map_score f (some x) = some (clamp_score (f x))

  unfoldable pub impact_scores : Settings F → OptimizedSignal F → ImpactScores F
  unfolding return_score conviction_score
  impact_scores s o =
      let vetted = o.source in
      let detected = vetted.source in
      let ret = return_score s detected in
      let conviction = conviction_score s detected in
      let tax = tax_score o in
      let risk = map_score (λ p. mul (sub (dec 1 0) p) (dec 100 0)) vetted.probability_of_ruin in
      let liquidity = map_score (λ x. x) detected.liquidity_score in
      let known : Known F =
        (dec 30 2, ret)
        ∷ (dec 10 2, conviction)
        ∷ (known_if (dec 25 2) tax
            ++ (known_if (dec 25 2) risk ++ known_if (dec 10 2) liquidity)) in
      let wsum = weight_sum (dec 0 0) known in
      let neutral = div (score_sum (dec 0 0) known) (if truthy wsum then wsum else dec 1 0) in
      record {
        ret = ret;
        tax = or_else tax neutral;
        risk = or_else risk neutral;
        liquidity = or_else liquidity neutral;
        conviction = conviction;
      }

  unfoldable pub confidence_breakdown :
      Settings F → DetectedSignal F → ImpactScores F → F → ConfidenceBreakdown F
  confidence_breakdown s detected scores historical_accuracy =
      let vol = detected.volatility_pct in
      let bonus = λ (known : Bool). if known then s.confidence_dq_bonus else dec 0 1 in
      record {
        data_quality = clamp_score (
            add (add s.confidence_dq_base (bonus (is_some vol)))
              (bonus (some_truthy detected.gross_gain_ils)));
        model_agreement =
            if le (dec 60 0) scores.ret && lt scores.risk (dec 40 0)
            then s.confidence_conflict_agreement
            else s.confidence_model_agreement;
        historical_accuracy = clamp_score historical_accuracy;
        market_stability = elim vol [
          | none ↦ dec 70 0
          | some v ↦
              clamp_score (sub (dec 100 0) (mul (max (dec 0 0) (sub v (dec 10 0))) (dec 2 0)))
        ];
      }

  -- `int(max(1.0, min(100.0, round(impact * 1.5))))`
  unfoldable pub urgency_of : F → ℕ
  urgency_of impact = trunc (max (dec 1 0) (min (dec 100 0) (round (mul impact (dec 15 1)) 0)))

  unfoldable pub rank : Settings F → F → OptimizedSignal F → Result (RankedSignal F)
  unfolding impact_scores confidence_breakdown urgency_of
  rank s historical_accuracy signal = do
    let detected = signal.source.source
    let scores = impact_scores s signal
    let label = complexity_by_action detected.action_type
    let factor = complexity_factor label
    impact ← compute_impact scores factor
    let breakdown = confidence_breakdown s detected scores historical_accuracy
    ranked_signal (record {
      source = signal;
      impact_score = impact;
      confidence = compute_confidence breakdown;
      scores = scores;
      confidence_breakdown = breakdown;
      complexity_label = complexity_value label;
      complexity_factor = factor;
      urgency = urgency_of impact;
    })
