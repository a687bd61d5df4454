-- ===== src/Lifecycle/Machine/Vetoes.antt =====
-- A veto ends the pipeline, and advice does not: what the adversary's two switches change.
use investwise_pro.Prelude.{
  ◌≡◌, refl, Bool, true, false, String, List, [], ◌∷◌, arith, any, any-append, not, ◌||◌,
  Bool-cases, inl, inr,
}
use investwise_pro.Float.{Float}
use investwise_pro.Lifecycle.Signals.{
  DetectedSignal, VettedSignal, OptimizedSignal, ok, ◌>>=◌, >>=-eq-ok, vetted_signal,
}
use investwise_pro.Lifecycle.Adversary.{
  AdversaryNote, blocks, examine_detected, examine_vetted, examine_optimized, examine_ranked,
}
use investwise_pro.Lifecycle.Machine.{
  Outcome, displayed, vetoed, no_action, ExaminationResult, StateMachine, vet, optimize, rank,
  adv_veto, from_optimized, from_vetted, from_detected, cross_examine, noted, stops, ends,
  blocked_signal,
}

module _ {F : Type 0} where
  abbrev pub is_vetoed : Outcome F → Bool
  is_vetoed (vetoed _) = true
  is_vetoed (displayed _) = false
  is_vetoed no_action = false

  -- The outcome is a veto, or no note blocks.
  abbrev pub answered : ExaminationResult F → Bool
  answered r = is_vetoed r.outcome || not (any blocks r.notes)

module _ {F : Type 0} ⦃num : Float F⦄ (strip : String → String) (m : StateMachine F) where
  module _ (on : m.settings.adversary_enabled ≡ true)
      (hard : m.settings.adversary_enforce_veto ≡ true) where
    quiet_noted :
        (notes : List AdversaryNote) (n : AdversaryNote)
        → any blocks notes ≡ false
        → stops strip m n ≡ false
        → any blocks (noted strip m notes n) ≡ false
    quiet_noted notes n q h = ground (arith, on, hard, any-append blocks notes (n ∷ []))

    from_optimized-answered :
        (vetted : VettedSignal F) (optimized : OptimizedSignal F) (notes : List AdversaryNote)
        (r : ExaminationResult F)
        → any blocks notes ≡ false
        → from_optimized strip m vetted optimized notes ≡ ok r
        → answered r ≡ true
    unfolding from_optimized adv_veto
    from_optimized-answered vetted optimized notes r q h =
        let (ranked, by, rest) = >>=-eq-ok (rank strip m optimized) _ h in
        ground (arith, rest, quiet_noted notes (examine_ranked ranked) q)

    from_vetted-answered :
        (vetted : VettedSignal F) (notes : List AdversaryNote) (r : ExaminationResult F)
        → any blocks notes ≡ false
        → from_vetted strip m vetted notes ≡ ok r
        → answered r ≡ true
    unfolding from_vetted adv_veto
    from_vetted-answered vetted notes r q h =
        let (optimized, by, rest) = >>=-eq-ok (optimize strip m vetted) _ h in
        let n = examine_optimized optimized in
        ground (
          arith,
          rest,
          quiet_noted notes n q,
          from_optimized-answered vetted optimized (noted strip m notes n) r,
        )

    from_detected-answered :
        (signal : DetectedSignal F) (notes : List AdversaryNote) (r : ExaminationResult F)
        → any blocks notes ≡ false
        → from_detected strip m signal notes ≡ ok r
        → answered r ≡ true
    unfolding from_detected adv_veto
    from_detected-answered signal notes r q h =
        let (vetted, by, rest) = >>=-eq-ok (vet strip m signal) _ h in
        let n = examine_vetted m.settings vetted in
        ground (
          arith,
          rest,
          quiet_noted notes n q,
          from_vetted-answered vetted (noted strip m notes n) r,
        )

    stopped_answered :
        (notes : List AdversaryNote) (r : ExaminationResult F) (v : VettedSignal F)
        (reason : String)
        → (vetted_signal strip v >>= λ w.
            ends strip m (vetoed (record { source = w; reason = reason })) notes)
          ≡ ok r
        → answered r ≡ true
    stopped_answered notes r v reason h =
        let (w, by, rest) = >>=-eq-ok (vetted_signal strip v) _ h in ground (arith, rest)

    -- With the adversary on and its veto enforced, an examination in which some note blocks ends
    -- in a veto.
    pub blocks-IsVeto :
        (signal : DetectedSignal F) (r : ExaminationResult F)
        → cross_examine strip m signal ≡ ok r
        → any blocks r.notes ≡ true
        → is_vetoed r.outcome ≡ true
    unfolding cross_examine
    blocks-IsVeto signal r h some_blocks =
        let n = examine_detected signal in
        elim (Bool-cases (stops strip m n)) [
          | inl stopped ↦ ground (
            arith,
            stopped_answered (noted strip m [] n) r (blocked_signal strip m signal n) n.critique
                (rw stopped at h),
          )
          | inr quiet ↦ ground (
            arith,
            from_detected-answered signal (noted strip m [] n) r (quiet_noted [] n refl quiet)
                (rw quiet at h),
          )
        ]
