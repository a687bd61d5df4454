-- ===== src/Lifecycle/Machine/Gates.antt =====
-- No stage is skipped: what a displayed item has passed.
use investwise_pro.Prelude.{◌≡◌, refl, false, ◌||◌, String, List, [], arith, Bool-cases, inl, inr}
use investwise_pro.Float.{Float}
use investwise_pro.Lifecycle.Signals.{
  DetectedSignal, VettedSignal, OptimizedSignal, RankedSignal, DisplayedItem, ok, ◌>>=◌, >>=-eq-ok,
  vetted_signal,
}
use investwise_pro.Lifecycle.Adversary.{
  AdversaryNote, examine_detected, examine_vetted, examine_optimized, examine_ranked,
}
use investwise_pro.Lifecycle.Machine.{
  displayed, vetoed, ExaminationResult, StateMachine, vet, optimize, rank, adv_veto, gate,
  from_optimized, from_vetted, from_detected, cross_examine, noted, stops, ends, blocked_signal,
}

module _ {F : Type 0} ⦃num : Float F⦄ (strip : String → String) (m : StateMachine F) where
  open num use {lt}

  -- The path of a displayed item through every engine, with no veto and above both display floors.
  pub record Passed (signal : DetectedSignal F) (d : DisplayedItem F) : Type 0 where
    pub vetted : VettedSignal F
    pub optimized : OptimizedSignal F
    pub by_risk : m.risk_vet signal ≡ ok vetted
    pub not_vetoed : vetted.veto_flag ≡ false
    pub by_tax : m.tax_optimize vetted ≡ ok optimized
    pub by_decision : m.decision_rank optimized ≡ ok d.source
    pub impact_floor : lt d.source.impact_score m.settings.min_impact_score ≡ false
    pub confidence_floor : lt d.source.confidence m.settings.min_confidence ≡ false
    pub unblocked :
        (stops strip m (examine_detected signal)
          || stops strip m (examine_vetted m.settings vetted)
          || stops strip m (examine_optimized optimized)
          || stops strip m (examine_ranked d.source))
        ≡ false

  gate-displayed :
      (ranked : RankedSignal F) (d : DisplayedItem F)
      → gate strip m ranked ≡ displayed d
      → (d.source ≡ ranked)
        × (lt ranked.impact_score m.settings.min_impact_score ≡ false)
        × (lt ranked.confidence m.settings.min_confidence ≡ false)
  unfolding gate
  gate-displayed ranked d h = ground arith

  from_optimized-displayed :
      (vetted : VettedSignal F) (optimized : OptimizedSignal F) (notes : List AdversaryNote)
      (r : ExaminationResult F) (d : DisplayedItem F)
      → from_optimized strip m vetted optimized notes ≡ ok r
      → r.outcome ≡ displayed d
      → (m.decision_rank optimized ≡ ok d.source)
        × (lt d.source.impact_score m.settings.min_impact_score ≡ false)
        × (lt d.source.confidence m.settings.min_confidence ≡ false)
        × (stops strip m (examine_ranked d.source) ≡ false)
  unfolding from_optimized rank adv_veto
  from_optimized-displayed vetted optimized notes r d h e =
      let (ranked, by, rest) = >>=-eq-ok (m.decision_rank optimized) _ h in
      ground (arith, by, rest, gate-displayed ranked d)

  from_vetted-displayed :
      (vetted : VettedSignal F) (notes : List AdversaryNote) (r : ExaminationResult F)
      (d : DisplayedItem F)
      → from_vetted strip m vetted notes ≡ ok r
      → r.outcome ≡ displayed d
      → (optimized : OptimizedSignal F) × (m.tax_optimize vetted ≡ ok optimized)
        × (vetted.veto_flag ≡ false)
        × (stops strip m (examine_optimized optimized) ≡ false)
        × (m.decision_rank optimized ≡ ok d.source)
        × (lt d.source.impact_score m.settings.min_impact_score ≡ false)
        × (lt d.source.confidence m.settings.min_confidence ≡ false)
        × (stops strip m (examine_ranked d.source) ≡ false)
  unfolding from_vetted optimize adv_veto
  from_vetted-displayed vetted notes r d h e =
      let (optimized, by, rest) = >>=-eq-ok (optimize strip m vetted) _ h in
      let notes' = noted strip m notes (examine_optimized optimized) in
      let on : stops strip m (examine_optimized optimized) ≡ false = ground arith in
      let onward : from_optimized strip m vetted optimized notes' ≡ ok r = ground arith in
      let (ranked, impact, confidence, quiet) =
        from_optimized-displayed vetted optimized notes' r d onward e in
      (optimized, ground arith, ground arith, on, ranked, impact, confidence, quiet)

  -- What an early return leaves.
  blocked_not-displayed :
      (signal : DetectedSignal F) (notes : List AdversaryNote) (r : ExaminationResult F)
      (d : DisplayedItem F) (v : VettedSignal F) (reason : VettedSignal F → String)
      → (vetted_signal strip v >>= λ w.
          ends strip m (vetoed (record { source = w; reason = reason w })) notes)
        ≡ ok r
      → r.outcome ≡ displayed d
      → ⊥
  blocked_not-displayed signal notes r d v reason h e =
      let (w, by, rest) = >>=-eq-ok (vetted_signal strip v) _ h in ground (arith, rest)

  from_detected-displayed :
      (signal : DetectedSignal F) (notes : List AdversaryNote) (r : ExaminationResult F)
      (d : DisplayedItem F)
      → stops strip m (examine_detected signal) ≡ false
      → from_detected strip m signal notes ≡ ok r
      → r.outcome ≡ displayed d
      → Passed signal d
  unfolding from_detected vet adv_veto
  from_detected-displayed signal notes r d on onward e =
      let (vetted, by, rest) = >>=-eq-ok (m.risk_vet signal) _ onward in
      let notes' = noted strip m notes (examine_vetted m.settings vetted) in
      let quiet : stops strip m (examine_vetted m.settings vetted) ≡ false = ground arith in
      let further : from_vetted strip m vetted notes' ≡ ok r = ground arith in
      let (optimized, by_tax, clear, still, ranked, impact, confidence, silent) =
        from_vetted-displayed vetted notes' r d further e in
      record {
        vetted = vetted;
        optimized = optimized;
        by_risk = by;
        not_vetoed = clear;
        by_tax = by_tax;
        by_decision = ranked;
        impact_floor = impact;
        confidence_floor = confidence;
        unblocked = rw (on, quiet, still, silent) refl;
      }

  -- A signal is displayed only if the risk engine vetted it without a veto, the tax and the decision
  -- engine passed it on, its impact and its confidence are not below their floors, and no note of
  -- the adversary on any of the four stages was one that stops the pipeline.
  pub displayed-Passed :
      (signal : DetectedSignal F) (r : ExaminationResult F) (d : DisplayedItem F)
      → cross_examine strip m signal ≡ ok r
      → r.outcome ≡ displayed d
      → Passed signal d
  unfolding cross_examine
  displayed-Passed signal r d h e =
      let nd = examine_detected signal in
      elim (Bool-cases (stops strip m nd)) [
        | inl stopped ↦ absurd (
            blocked_not-displayed signal (noted strip m [] nd) r d
              (blocked_signal strip m signal nd) (λ _. nd.critique) (rw stopped at h) e)
        | inr on ↦ from_detected-displayed signal (noted strip m [] nd) r d on (rw on at h) e
      ]
