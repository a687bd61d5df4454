-- ===== src/Lifecycle/Machine/Advice.antt =====
-- An adversary that may not enforce its veto only takes notes.
use investwise_pro.Prelude.{
  ◌≡◌, refl, Bool, true, false, String, List, arith, if◌then◌else◌, inl, inr,
}
use investwise_pro.Float.{Float}
use investwise_pro.Lifecycle.Signals.{
  DetectedSignal, VettedSignal, OptimizedSignal, RankedSignal, Result, ok, ◌>>=◌, Result-cases,
}
use investwise_pro.Lifecycle.Adversary.{
  AdversaryNote, examine_detected, examine_vetted, examine_optimized, examine_ranked,
}
use investwise_pro.Lifecycle.Machine.{
  Outcome, ExaminationResult, StateMachine, vet, optimize, rank, display, gate, from_optimized,
  from_vetted, from_detected, cross_examine, run, stops,
}

-- The same machine with the adversary switched off.
abbrev pub muted : {F : Type 0} → StateMachine F → StateMachine F
muted m = record m { settings = record m.settings { adversary_enabled = false } }

abbrev outcome_of : {F : Type 0} → Result (ExaminationResult F) → Result (Outcome F)
outcome_of r = r >>= λ result. ok result.outcome

outcome-if :
    {F : Type 0} (test : Bool) (x y z w : Result (ExaminationResult F))
    → outcome_of x ≡ outcome_of z
    → outcome_of y ≡ outcome_of w
    → outcome_of (if test then x else y) ≡ outcome_of (if test then z else w)
outcome-if true x y z w h k = h
outcome-if false x y z w h k = k

module _ {F : Type 0} ⦃num : Float F⦄ (strip : String → String) (m : StateMachine F) where
  module _ (advisory : m.settings.adversary_enforce_veto ≡ false) where
    never_stops : (n : AdversaryNote) → stops strip m n ≡ false
    never_stops n = ground (arith, advisory)

    gate-muted : (r : RankedSignal F) → gate strip m r ≡ gate strip (muted m) r
    unfolding gate display
    gate-muted r = refl

    from_optimized-muted :
        (vetted : VettedSignal F) (optimized : OptimizedSignal F) (ns ms : List AdversaryNote)
        → outcome_of (from_optimized strip m vetted optimized ns)
          ≡ outcome_of (from_optimized strip (muted m) vetted optimized ms)
    unfolding from_optimized rank
    from_optimized-muted vetted optimized ns ms = elim (Result-cases (m.decision_rank optimized)) [
      | inl (ranked, e) ↦ rw (e, never_stops (examine_ranked ranked), gate-muted ranked) refl
      | inr (e, failed) ↦ rw failed refl
    ]

    from_vetted-muted :
        (vetted : VettedSignal F) (ns ms : List AdversaryNote)
        → outcome_of (from_vetted strip m vetted ns)
          ≡ outcome_of (from_vetted strip (muted m) vetted ms)
    unfolding from_vetted optimize
    from_vetted-muted vetted ns ms = elim (Result-cases (optimize strip m vetted)) [
      | inl (optimized, e) ↦
          rw (e, never_stops (examine_optimized optimized))
            (from_optimized-muted vetted optimized _ _)
      | inr (e, failed) ↦ rw failed refl
    ]

    from_detected-muted :
        (signal : DetectedSignal F) (ns ms : List AdversaryNote)
        → outcome_of (from_detected strip m signal ns)
          ≡ outcome_of (from_detected strip (muted m) signal ms)
    unfolding from_detected vet
    from_detected-muted signal ns ms = elim (Result-cases (m.risk_vet signal)) [
      | inl (vetted, e) ↦
          rw (e, never_stops (examine_vetted m.settings vetted))
            (outcome-if vetted.veto_flag _ _ _ _ refl (from_vetted-muted vetted _ _))
      | inr (e, failed) ↦ rw failed refl
    ]

    -- Where the veto is not enforced, the adversary changes no outcome: every signal ends as it does
    -- with the adversary switched off, errors included.
    pub advisory_run : (signal : DetectedSignal F) → run strip m signal ≡ run strip (muted m) signal
    unfolding run cross_examine
    advisory_run signal =
        rw (never_stops (examine_detected signal)) (from_detected-muted signal _ _)
