-- ===== src/Lifecycle/Risk/Veto.antt =====
-- Risk overrides return: a breach of either cap vetoes, and nothing else does.
use investwise_pro.Prelude.{◌≡◌, ◌||◌, some, String, arith, or_else}
use investwise_pro.Float.{Float}
use investwise_pro.Settings.{Settings}
use investwise_pro.Lifecycle.Signals.{DetectedSignal, VettedSignal, ok, vetted_signal}
use investwise_pro.Lifecycle.Risk.{RiskAssessment, reasons, assess, vet}

module _ {F : Type 0} ⦃num : Float F⦄ (s : Settings F) where
  open num use {dec, div, lt}

  assess-veto :
      (monte_carlo : F → F → RiskAssessment F) (ret vol : F)
      → let (a, veto, _) = assess s monte_carlo ret vol in
        (veto ≡ (
          lt s.volatility_cap (div vol (dec 1000 1))
          || lt s.ruin_probability_cap a.probability_of_ruin))
        × (a ≡ monte_carlo (div ret (dec 1000 1)) (div vol (dec 1000 1)))
  unfolding assess reasons
  assess-veto monte_carlo ret vol = ground arith

  -- Of a signal with a volatility, the vetted signal is flagged exactly where the volatility is above
  -- its cap or the simulated probability of ruin is above its own, whatever the expected return.
  pub veto_iff :
      (strip : String → String) (monte_carlo : F → F → RiskAssessment F) (d : DetectedSignal F)
      (vol : F) (v : VettedSignal F)
      → d.volatility_pct ≡ some vol
      → vet s strip monte_carlo d ≡ ok v
      → let sigma = div vol (dec 1000 1) in
        let mu = div (or_else d.expected_return_pct (dec 0 1)) (dec 1000 1) in
        (v.veto_flag ≡ (
          lt s.volatility_cap sigma
          || lt s.ruin_probability_cap (monte_carlo mu sigma).probability_of_ruin))
        × (v.source ≡ d)
  unfolding vet vetted_signal
  veto_iff strip monte_carlo d vol v h e =
      ground (arith, assess-veto monte_carlo (or_else d.expected_return_pct (dec 0 1)) vol)
